-- ===== src/Settings/Stored.antt =====
-- What `settings_set_wifi_credentials` leaves in NVS.
use s3_bme.Base.{ℕ, ◌≡◌, ◌≢◌, ◌⊎◌, inl, inr, refl, ◌∙◌, none, some, List, [], ◌∷◌}
use s3_bme.Base.Result.{Result, ok, err, hang, Ensures, EnsuresOf, bind-Ensures, weaken}
use s3_bme.Base.Int.{eqb_ℤ_refl, eqb_ℤ_ne}
use s3_bme.Settings.{
  Key, key_wifi_ssid, key_wifi_pass, Nvs, Settings, on_nvs, allow, set_wifi_credentials,
}
use s3_bme.Settings.Contents.{IsNvs}

module _ (N : Nvs) {Fails : Type 0} (C : IsNvs N Fails) where
  -- The partition holds the credentials.
  abbrev pub Stores : List ℕ → List ℕ → Settings N.Dev → Type 0
  Stores [] password s = C.text s.dev key_wifi_ssid ≡ none
  Stores (c ∷ cs) password s =
      (C.text s.dev key_wifi_ssid ≡ some (c ∷ cs)) × (C.text s.dev key_wifi_pass ≡ some password)

  -- The code of an error is that of NVS.
  abbrev pub Ends :
      {A : Type 0} → (A → Settings N.Dev → Type 0) → Result A × Settings N.Dev → Type 0
  Ends Q = Ensures Q (λ c t. Fails)

  set_str-Ends :
      (k : Key) (v : List ℕ) (s : Settings N.Dev)
      → Ends
          (λ u t. (C.text t.dev k ≡ some v) × ((j : Key) → j ≢ k → C.text t.dev j ≡ C.text s.dev j))
          (on_nvs N (N.set_str k v) s)
  set_str-Ends k v s =
      done (N.set_str k v s.dev).0 (N.set_str k v s.dev).1 (C.set_str_lem k v s.dev)
    where
      done :
          (r : Result (Unit {0})) (d : N.Dev)
          → EnsuresOf
              (λ u e.
                (C.text e k ≡ some v)
                × ((j : Key) → j ≢ k → C.text e j ≡ C.text s.dev j)
                × (C.num e ≡ C.num s.dev))
              (λ c e. Fails)
              r
              d
          → Ends
              (λ u t.
                (C.text t.dev k ≡ some v) × ((j : Key) → j ≢ k → C.text t.dev j ≡ C.text s.dev j))
              (r, record s { dev = d })
      done (ok u) d (e, others, _) = (e, others)
      done (err c) d f = f
      done hang d f = f

  commit-Ends :
      (s : Settings N.Dev) (Q : N.Dev → Type 0)
      → ((d : N.Dev) → C.num d ≡ C.num s.dev → C.text d ≡ C.text s.dev → Q d)
      → Ends (λ u t. Q t.dev) (on_nvs N N.commit s)
  commit-Ends s Q h = done (N.commit s.dev).0 (N.commit s.dev).1 (C.commit_lem s.dev)
    where
      done :
          (r : Result (Unit {0})) (d : N.Dev)
          → EnsuresOf
              (λ u e. (C.num e ≡ C.num s.dev) × (C.text e ≡ C.text s.dev))
              (λ c e. Fails)
              r
              d
          → Ends (λ u t. Q t.dev) (r, record s { dev = d })
      done (ok u) d (n, t) = h d n t
      done (err c) d f = f
      done hang d f = f

  -- A key that is not there counts as erased.
  erase-Ends :
      (k : Key) (s : Settings N.Dev)
      → Ends
          (λ u t. (C.text t.dev k ≡ none) × ((j : Key) → j ≢ k → C.text t.dev j ≡ C.text s.dev j))
          (allow N.not_found (on_nvs N (N.erase_key k)) s)
  erase-Ends k s = done (N.erase_key k s.dev).0 (N.erase_key k s.dev).1 (C.erase_key_lem k s.dev)
    where
      done :
          (r : Result (Unit {0})) (d : N.Dev)
          → EnsuresOf
              (λ u e.
                (C.text e k ≡ none)
                × ((j : Key) → j ≢ k → C.text e j ≡ C.text s.dev j)
                × (C.num e ≡ C.num s.dev))
              (λ c e.
                ((c ≡ N.not_found)
                  × (C.text s.dev k ≡ none)
                  × (C.text e ≡ C.text s.dev)
                  × (C.num e ≡ C.num s.dev))
                ⊎ ((c ≢ N.not_found) × Fails))
              r
              d
          → Ends
              (λ u t.
                (C.text t.dev k ≡ none) × ((j : Key) → j ≢ k → C.text t.dev j ≡ C.text s.dev j))
              (allow N.not_found (λ t. (r, record s { dev = d })) s)
      done (ok u) d (e, others, _) = (e, others)
      done (err c) d (inl (e, missing, same, _)) =
          rw (e, eqb_ℤ_refl N.not_found) (rw same (missing, λ j ne. refl))
      done (err c) d (inr (ne, f)) = rw (eqb_ℤ_ne c N.not_found ne) f
      done hang d f = f

  pub set_wifi_credentials-Stores :
      (ssid password : List ℕ) (s : Settings N.Dev)
      → Ends (λ u t. Stores ssid password t) (set_wifi_credentials N ssid password s)
  unfolding set_wifi_credentials
  set_wifi_credentials-Stores [] password s =
      bind-Ensures (λ u t. C.text t.dev key_wifi_ssid ≡ none) _ _
        (allow N.not_found (on_nvs N (N.erase_key key_wifi_ssid))) _ s
        (weaken _ _ _ _ (allow N.not_found (on_nvs N (N.erase_key key_wifi_ssid))) s
          (erase-Ends key_wifi_ssid s) (λ u t p. p.0) (λ c t f. f))
        (λ u t gone.
          bind-Ensures (λ u' t'. C.text t'.dev key_wifi_ssid ≡ none) _ _
            (allow N.not_found (on_nvs N (N.erase_key key_wifi_pass))) _ t
            (weaken _ _ _ _ (allow N.not_found (on_nvs N (N.erase_key key_wifi_pass))) t
              (erase-Ends key_wifi_pass t) (λ u' t' p. p.1 key_wifi_ssid (cc) ∙ gone) (λ c t' f. f))
            (λ u' t' still.
              commit-Ends t' (λ d. C.text d key_wifi_ssid ≡ none) (λ d _ same. rw same still)))
  set_wifi_credentials-Stores (c ∷ cs) password s =
      bind-Ensures
        (λ u t.
          (C.text t.dev key_wifi_ssid ≡ some (c ∷ cs))
          × ((j : Key) → j ≢ key_wifi_ssid → C.text t.dev j ≡ C.text s.dev j))
        _ _ (on_nvs N (N.set_str key_wifi_ssid (c ∷ cs))) _ s
        (set_str-Ends key_wifi_ssid (c ∷ cs) s)
        (λ u t (name, _).
          bind-Ensures
            (λ u' t'.
              (C.text t'.dev key_wifi_pass ≡ some password)
              × ((j : Key) → j ≢ key_wifi_pass → C.text t'.dev j ≡ C.text t.dev j))
            _ _ (on_nvs N (N.set_str key_wifi_pass password)) _ t
            (set_str-Ends key_wifi_pass password t)
            (λ u' t' (word, others).
              commit-Ends t'
                (λ d.
                  (C.text d key_wifi_ssid ≡ some (c ∷ cs))
                  × (C.text d key_wifi_pass ≡ some password))
                (λ d _ same. rw same (others key_wifi_ssid (cc) ∙ name, word))))
