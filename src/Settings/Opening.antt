-- ===== src/Settings/Opening.antt =====
-- The start of NVS in `settings_init`: what there is to be found.
use s3_bme.Base.{ℕ, ◌≡◌, ◌⊎◌, inl, inr, ◌∙◌, ap, Option, none, true, false, ◌||◌, if◌then◌else◌}
use s3_bme.Base.Int.{eqb_ℤ}
use s3_bme.Base.Result.{Result, ok, err, hang, M, EnsuresOf, Ensures, continue, ◌>>=◌, ◌>>◌}
use s3_bme.Settings.{Key, Nvs, Settings, on_nvs, check, after_init, flash_start}
use s3_bme.Settings.Contents.{IsNvs}

module _ (N : Nvs) {Fails : Type 0} (C : IsNvs N Fails) where
  -- Erasing the partition leaves no key.
  abbrev pub Erases : Type 0
  Erases =
      (d : N.Dev) → Ensures (λ u e. (k : Key) → C.num e k ≡ none) (λ c e. Fails) (N.flash_erase d)

  -- The call succeeds with `Q`, or returns an error or stops the program, which a failing call shows.
  abbrev pub YieldsOf :
      {A : Type 0} → (A → Settings N.Dev → Type 0) → Result A → Settings N.Dev → Type 0
  YieldsOf Q (ok a) t = Q a t
  YieldsOf Q (err c) t = Fails
  YieldsOf Q hang t = Fails

  abbrev pub Yields :
      {A : Type 0} → (A → Settings N.Dev → Type 0) → Result A × Settings N.Dev → Type 0
  Yields Q out = YieldsOf Q out.0 out.1

  pub then-Yields :
      {A D : Type 0} (P : A → Settings N.Dev → Type 0) (Q : D → Settings N.Dev → Type 0)
      (m : M (Settings N.Dev) A) (f : A → M (Settings N.Dev) D) (s : Settings N.Dev)
      → Yields P (m s)
      → ((a : A) (t : Settings N.Dev) → P a t → Yields Q (f a t))
      → Yields Q ((m >>= f) s)
  then-Yields {A} {D} P Q m f s h k = go (m s).0 (m s).1 h
    where
      go : (r : Result A) (t : Settings N.Dev) → YieldsOf P r t → Yields Q (continue r f t)
      go (ok a) t p = k a t p
      go (err c) t p = p
      go hang t p = p

  -- A call of NVS that leaves the numbers that `found` gives.
  abbrev pub Keeps : (Key → Option ℕ) → Settings N.Dev → Type 0
  Keeps found t = C.num t.dev ≡ found

  pub still-Yields :
      (found : Key → Option ℕ) (r : Result (Unit {0})) (d : N.Dev) (s : Settings N.Dev)
      → C.num s.dev ≡ found
      → EnsuresOf (λ u e. (C.num e ≡ C.num s.dev) × (C.text e ≡ C.text s.dev)) (λ c e. Fails) r d
      → Yields (λ u t. Keeps found t) (r, record s { dev = d })
  still-Yields found (ok u) d s e (same, _) = same ∙ e
  still-Yields found (err c) d s e h = h
  still-Yields found hang d s e h = absurd h

  -- What is there to be found: what NVS held, or nothing, since the partition had to be erased.
  abbrev pub Found : Settings N.Dev → (Key → Option ℕ) → Type 0
  Found s found = (found ≡ C.num s.dev) ⊎ (Fails × ((k : Key) → found k ≡ none))

  module _ (erases : Erases) where
    erased-Yields :
        (at_start s : Settings N.Dev)
        → Fails
        → Yields
            (λ u t. Found at_start (C.num t.dev))
            ((check (on_nvs N N.flash_erase) >> on_nvs N N.flash_init) s)
    erased-Yields at_start s fails =
        then-Yields (λ u t. (k : Key) → C.num t.dev k ≡ none) (λ u t. Found at_start (C.num t.dev))
          (check (on_nvs N N.flash_erase)) (λ _. on_nvs N N.flash_init) s
          (erased (N.flash_erase s.dev).0 (N.flash_erase s.dev).1 (erases s.dev))
          (λ _ t gone.
            again t gone (N.flash_init t.dev).0 (N.flash_init t.dev).1 (C.flash_init_lem t.dev))
      where
        erased :
            (r : Result (Unit {0})) (d : N.Dev)
            → EnsuresOf (λ u e. (k : Key) → C.num e k ≡ none) (λ c e. Fails) r d
            → Yields
                (λ u t. (k : Key) → C.num t.dev k ≡ none)
                (check (λ t. (r, record t { dev = d })) s)
        erased (ok u) d h = h
        erased (err c) d h = h
        erased hang d h = absurd h

        again :
            (t : Settings N.Dev)
            → ((k : Key) → C.num t.dev k ≡ none)
            → (r : Result (Unit {0})) (d : N.Dev)
            → EnsuresOf
                (λ u e. (C.num e ≡ C.num t.dev) × (C.text e ≡ C.text t.dev))
                (λ c e. Fails)
                r
                d
            → Yields (λ u v. Found at_start (C.num v.dev)) (r, record t { dev = d })
        again t gone (ok u) d (same, _) = inr (fails, λ k. ap (λ f. f k) same ∙ gone k)
        again t gone (err c) d h = h
        again t gone hang d h = absurd h

    pub flash_start-Yields :
        (s : Settings N.Dev) → Yields (λ u t. Found s (C.num t.dev)) (flash_start N s)
    unfolding flash_start after_init
    flash_start-Yields s =
        started (N.flash_init s.dev).0 (N.flash_init s.dev).1 (C.flash_init_lem s.dev)
      where
        started :
            (r : Result (Unit {0})) (d : N.Dev)
            → EnsuresOf
                (λ u e. (C.num e ≡ C.num s.dev) × (C.text e ≡ C.text s.dev))
                (λ c e. Fails)
                r
                d
            → Yields (λ u t. Found s (C.num t.dev)) (after_init N r (record s { dev = d }))
        started (ok u) d (same, _) = inl same
        started (err c) d fails =
            elim (eqb_ℤ c N.no_free_pages || eqb_ℤ c N.new_version_found)
              as (λ b.
                Yields (λ u t. Found s (C.num t.dev))
                  (if b
                    then (check (on_nvs N N.flash_erase) >> on_nvs N N.flash_init)
                        (record s { dev = d })
                    else (err c, record s { dev = d }))) [
                      | true ↦ erased-Yields s (record s { dev = d }) fails
                      | false ↦ fails
                    ]
        started hang d h = absurd h
