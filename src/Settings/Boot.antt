-- ===== src/Settings/Boot.antt =====
-- What the operations of the settings do to the boot id.
use s3_bme.Base.{
  arith, u8, ◌+◌, ◌^◌, ◌<◌, ℕ, ◌≡◌, refl, if◌then◌else◌, ltb, ◌||◌, true, false, List, [], ◌∷◌,
}
use s3_bme.Base.Int.{ℤ, eqb_ℤ}
use s3_bme.Base.Result.{Result, ok, err, hang, bind-keeps, ◌>>=◌, ◌>>◌}
use s3_bme.Settings.{
  key_interval, key_wifi_ssid, key_wifi_pass, interval_min, interval_max, Nvs, Settings, on_nvs,
  key_boot_id, interval_default, or_default, wifi_password, wifi_credentials, check, after_init,
  flash_start, init, allow, set_interval_s, set_wifi_credentials,
}

module _ (N : Nvs) where
  -- The boot id is `b`.
  abbrev Has : ℕ → Settings N.Dev → Type 0
  Has b s = s.boot_id ≡ b

  allowed-Has :
      (a : ℤ) (b : ℕ) (r : Result (Unit {0})) (d : N.Dev) (s : Settings N.Dev)
      → s.boot_id ≡ b
      → Has b (allow a (λ t. (r, record t { dev = d })) s).1
  allowed-Has a b (ok u) d s h = h
  allowed-Has a b (err c) d s h =
      elim (eqb_ℤ c a)
        as (λ x.
          let out : Result (Unit {0}) × Settings N.Dev =
            if x then (ok tt, record s { dev = d }) else (err c, record s { dev = d }) in
          Has b out.1) [ true ↦ h | false ↦ h ]
  allowed-Has a b hang d s h = h

  pub set_interval_s-boot_id :
      (n : ℕ) (s : Settings N.Dev) → (set_interval_s N n s).1.boot_id ≡ s.boot_id
  unfolding set_interval_s
  set_interval_s-boot_id n s =
      elim (ltb n interval_min || ltb interval_max n)
        as (λ x.
          (if x
            then (err N.invalid_arg, s)
            else (on_nvs N (N.set_u32 key_interval n) >>= λ _. on_nvs N N.commit)
                (record s { interval_s = n })).1.boot_id
          ≡ s.boot_id) [
            | true ↦ refl
            | false ↦
                bind-keeps (Has s.boot_id) (on_nvs N (N.set_u32 key_interval n)) _
                  (record s { interval_s = n }) refl (λ _ t h. h)
          ]

  pub set_wifi_credentials-boot_id :
      (ssid password : List ℕ) (s : Settings N.Dev)
      → (set_wifi_credentials N ssid password s).1.boot_id ≡ s.boot_id
  unfolding set_wifi_credentials
  set_wifi_credentials-boot_id [] password s =
      bind-keeps (Has s.boot_id) (allow N.not_found (on_nvs N (N.erase_key key_wifi_ssid))) _ s
        (allowed-Has N.not_found s.boot_id _ _ s refl)
        (λ _ t h.
          bind-keeps (Has s.boot_id) (allow N.not_found (on_nvs N (N.erase_key key_wifi_pass))) _ t
            (allowed-Has N.not_found s.boot_id _ _ t h) (λ _ t' h'. h'))
  set_wifi_credentials-boot_id (c ∷ cs) password s =
      bind-keeps (Has s.boot_id) (on_nvs N (N.set_str key_wifi_ssid (c ∷ cs))) _ s refl (λ _ t h.
        bind-keeps (Has s.boot_id) (on_nvs N (N.set_str key_wifi_pass password)) _ t h
          (λ _ t' h'. h'))

  or_default-Has :
      {A : Type 0} (a : A) (b : ℕ) (r : Result A) (d : N.Dev) (s : Settings N.Dev)
      → s.boot_id ≡ b
      → Has b (or_default a (λ t. (r, record t { dev = d })) s).1
  or_default-Has a b (ok x) d s h = h
  or_default-Has a b (err c) d s h = h
  or_default-Has a b hang d s h = h

  wifi_password-Has :
      (b : ℕ) (ssid : List ℕ) (len : ℕ) (s : Settings N.Dev)
      → s.boot_id ≡ b
      → Has b (wifi_password N ssid len s).1
  unfolding wifi_password
  wifi_password-Has b [] len s h = h
  wifi_password-Has b (c ∷ cs) len s h =
      bind-keeps (Has b) (or_default [] (on_nvs N (N.get_str key_wifi_pass len))) _ s
        (or_default-Has [] b _ _ s h) (λ _ t h'. h')

  pub wifi_credentials-boot_id :
      (ssid_len pass_len : ℕ) (s : Settings N.Dev)
      → (wifi_credentials N ssid_len pass_len s).1.boot_id ≡ s.boot_id
  unfolding wifi_credentials
  wifi_credentials-boot_id ssid_len pass_len s =
      bind-keeps (Has s.boot_id) (or_default [] (on_nvs N (N.get_str key_wifi_ssid ssid_len))) _ s
        (or_default-Has [] s.boot_id _ _ s refl)
        (λ ssid t h. wifi_password-Has s.boot_id ssid pass_len t h)

  -- The boot id is a byte.
  abbrev IsSmall : Settings N.Dev → Type 0
  IsSmall s = s.boot_id < 2 ^ 8

  or_default-IsSmall :
      {A : Type 0} (a : A) (r : Result A) (d : N.Dev) (s : Settings N.Dev)
      → IsSmall s
      → IsSmall (or_default a (λ t. (r, record t { dev = d })) s).1
  or_default-IsSmall a (ok x) d s h = h
  or_default-IsSmall a (err c) d s h = h
  or_default-IsSmall a hang d s h = h

  check-IsSmall :
      (r : Result (Unit {0})) (d : N.Dev) (s : Settings N.Dev)
      → IsSmall s
      → IsSmall (check (λ t. (r, record t { dev = d })) s).1
  check-IsSmall (ok x) d s h = h
  check-IsSmall (err c) d s h = h
  check-IsSmall hang d s h = h

  after_init-IsSmall :
      (r : Result (Unit {0})) (s : Settings N.Dev) → IsSmall s → IsSmall (after_init N r s).1
  unfolding after_init
  after_init-IsSmall (ok u) s h = h
  after_init-IsSmall (err c) s h =
      elim (eqb_ℤ c N.no_free_pages || eqb_ℤ c N.new_version_found)
        as (λ x.
          let out : Result (Unit {0}) × Settings N.Dev =
            if x then (check (on_nvs N N.flash_erase) >> on_nvs N N.flash_init) s else (err c, s) in
          IsSmall out.1) [
            | true ↦
                bind-keeps IsSmall (check (on_nvs N N.flash_erase)) _ s (check-IsSmall _ _ s h)
                  (λ _ t h'. h')
            | false ↦ h
          ]
  after_init-IsSmall hang s h = h

  pub init-boot_id : (s : Settings N.Dev) → s.boot_id < 2 ^ 8 → (init N s).1.boot_id < 2 ^ 8
  unfolding init flash_start
  init-boot_id s h = bind-keeps IsSmall (flash_start N) _ s (after_init-IsSmall _ _ h) (λ _ t h1.
      bind-keeps IsSmall (on_nvs N N.open_ns) _ t h1 (λ _ t2 h2.
        bind-keeps IsSmall (or_default interval_default (on_nvs N (N.get_u32 key_interval))) _ t2
          (or_default-IsSmall _ _ _ t2 h2)
          (λ i t3 h3.
            bind-keeps IsSmall (or_default 0 (on_nvs N (N.get_u8 key_boot_id))) _ t3
              (or_default-IsSmall _ _ _ t3 h3)
              (λ b t4 h4.
                let t5 : Settings N.Dev = record t4 { interval_s = i; boot_id = u8 (b + 1) } in
                bind-keeps IsSmall (or_default tt (on_nvs N (N.set_u8 key_boot_id (u8 (b + 1))))) _
                  t5 (or_default-IsSmall _ _ _ t5 (omega arith)) (λ _ t6 h6. h6)))))
