-- ===== src/Settings/Credentials.antt =====
-- `settings_wifi_credentials` behind `settings_set_wifi_credentials`, over what NVS documents.
use s3_bme.Base.{ℕ, ◌<◌, ◌≡◌, ◌≢◌, ◌⊎◌, inl, inr, refl, Option, none, some, List, [], ◌∷◌, length}
use s3_bme.Base.Result.{Result, ok, err, hang, ◌>>=◌, Ensures, EnsuresOf, bind-Ensures, weaken}
use s3_bme.Settings.{
  Key, key_wifi_ssid, key_wifi_pass, Nvs, Settings, on_nvs, or_default, wifi_password,
  wifi_credentials, set_wifi_credentials,
}
use s3_bme.Settings.Contents.{IsNvs}
use s3_bme.Settings.Stored.{Stores, Ends, set_wifi_credentials-Stores}

-- What the next start is to find: nothing for an empty name.
abbrev pub kept_credentials : List ℕ → List ℕ → Option (List ℕ × List ℕ)
kept_credentials [] password = none
kept_credentials (c ∷ cs) password = some (c ∷ cs, password)

module _ (N : Nvs) {Fails : Type 0} (C : IsNvs N Fails) where
  -- A text that is kept is read whole, if the buffer takes it.
  read-Ends :
      (k : Key) (len : ℕ) (v : List ℕ) (s : Settings N.Dev)
      → C.text s.dev k ≡ some v
      → length v < len
      → Ends N C
          (λ w t. ((w ≡ v) ⊎ Fails) × (C.text t.dev ≡ C.text s.dev))
          (or_default [] (on_nvs N (N.get_str k len)) s)
  read-Ends k len v s e h =
      done (N.get_str k len s.dev).0 (N.get_str k len s.dev).1 (C.get_str_lem k len s.dev v e h)
    where
      done :
          (r : Result (List ℕ)) (d : N.Dev)
          → EnsuresOf
              (λ w e'. (w ≡ v) × (C.num e' ≡ C.num s.dev) × (C.text e' ≡ C.text s.dev))
              (λ c e'. Fails × (C.num e' ≡ C.num s.dev) × (C.text e' ≡ C.text s.dev))
              r
              d
          → Ends N C
              (λ w t. ((w ≡ v) ⊎ Fails) × (C.text t.dev ≡ C.text s.dev))
              (or_default [] (λ t. (r, record s { dev = d })) s)
      done (ok w) d (same, _, t) = (inl same, t)
      done (err c) d (f, _, t) = (inr f, t)
      done hang d f = f

  none-Ends :
      (len : ℕ) (pass_len : ℕ) (s : Settings N.Dev)
      → C.text s.dev key_wifi_ssid ≡ none
      → Ends N C (λ r t. (r ≡ none) ⊎ Fails) (wifi_credentials N len pass_len s)
  unfolding wifi_credentials wifi_password
  none-Ends len pass_len s e =
      done (N.get_str key_wifi_ssid len s.dev).0 (N.get_str key_wifi_ssid len s.dev).1
        (C.get_str_missing key_wifi_ssid len s.dev e)
    where
      done :
          (r : Result (List ℕ)) (d : N.Dev)
          → EnsuresOf
              (λ w e'. ⊥)
              (λ c e'. (C.num e' ≡ C.num s.dev) × (C.text e' ≡ C.text s.dev))
              r
              d
          → Ends N C
              (λ r t. (r ≡ none) ⊎ Fails)
              ((or_default [] (λ t. (r, record s { dev = d })) >>= λ w. wifi_password N w pass_len)
                s)
      done (ok w) d f = absurd f
      done (err c) d _ = inl refl
      done hang d f = f

  password-Ends :
      (w ssid password : List ℕ) (pass_len : ℕ) (s : Settings N.Dev)
      → ssid ≢ []
      → (w ≡ ssid) ⊎ Fails
      → C.text s.dev key_wifi_pass ≡ some password
      → length password < pass_len
      → Ends N C (λ r t. (r ≡ some (ssid, password)) ⊎ Fails) (wifi_password N w pass_len s)
  unfolding wifi_password
  password-Ends [] ssid password pass_len s ne (inl e) kept h = absurd (ne (cc))
  password-Ends [] ssid password pass_len s ne (inr f) kept h = inr f
  password-Ends (c ∷ cs) ssid password pass_len s ne name kept h =
      bind-Ensures (λ v t. (v ≡ password) ⊎ Fails) _ _
        (or_default [] (on_nvs N (N.get_str key_wifi_pass pass_len))) _ s
        (weaken _ _ _ _ (or_default [] (on_nvs N (N.get_str key_wifi_pass pass_len))) s
          (read-Ends key_wifi_pass pass_len password s kept h) (λ v t p. p.0) (λ c' t f. f))
        (λ v t word. both name word)
    where
      both :
          {v : List ℕ}
          → ((c ∷ cs) ≡ ssid) ⊎ Fails
          → (v ≡ password) ⊎ Fails
          → ◌≡◌ {A = Option (List ℕ × List ℕ)} (some (c ∷ cs, v)) (some (ssid, password)) ⊎ Fails
      both (inl e) (inl e') = inl (cc)
      both (inr f) _ = inr f
      both (inl e) (inr f) = inr f

  Stores-Ends :
      (ssid password : List ℕ) (ssid_len pass_len : ℕ) (s : Settings N.Dev)
      → length ssid < ssid_len
      → length password < pass_len
      → Stores N C ssid password s
      → Ends N C
          (λ r t. (r ≡ kept_credentials ssid password) ⊎ Fails)
          (wifi_credentials N ssid_len pass_len s)
  unfolding wifi_credentials
  Stores-Ends [] password ssid_len pass_len s h h' e = none-Ends ssid_len pass_len s e
  Stores-Ends (c ∷ cs) password ssid_len pass_len s h h' (name, word) =
      bind-Ensures (λ w t. ((w ≡ c ∷ cs) ⊎ Fails) × (C.text t.dev ≡ C.text s.dev)) _ _
        (or_default [] (on_nvs N (N.get_str key_wifi_ssid ssid_len))) _ s
        (read-Ends key_wifi_ssid ssid_len (c ∷ cs) s name h)
        (λ w t (same, still).
          password-Ends w (c ∷ cs) password pass_len t (λ e. cc) same (rw still word) h')

  -- `settings_set_wifi_credentials` returns, and `settings_wifi_credentials` after it, with buffers
  -- that are longer than the texts, returns the name and the password that were set, or `none` if
  -- the name is empty, unless NVS fails.
  pub wifi_credentials-set :
      (ssid password : List ℕ) (ssid_len pass_len : ℕ) (s : Settings N.Dev)
      → length ssid < ssid_len
      → length password < pass_len
      → Ensures
          (λ u t.
            Ensures
              (λ r v. (r ≡ kept_credentials ssid password) ⊎ Fails)
              (λ c v. Fails)
              (wifi_credentials N ssid_len pass_len t))
          (λ c t. Fails)
          (set_wifi_credentials N ssid password s)
  wifi_credentials-set ssid password ssid_len pass_len s h h' =
      weaken (λ u t. Stores N C ssid password t) _ _ _ (set_wifi_credentials N ssid password) s
        (set_wifi_credentials-Stores N C ssid password s)
        (λ u t kept. Stores-Ends ssid password ssid_len pass_len t h h' kept) (λ c t f. f)
