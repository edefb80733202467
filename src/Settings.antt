-- ===== src/Settings.antt =====
-- firmware/main/settings.c: what is kept in NVS. The NVS library is not in the repository: its
-- calls are a parameter, and so are the codes of ESP-IDF that the source names.
pub mod Sim
pub mod Contents
pub mod Stored
pub mod Credentials
pub mod Boot
pub mod Opening
pub mod Counter
mod Tests
use s3_bme.Base.{
  ℕ, ◌+◌, ltb, leb, if◌then◌else◌, ◌||◌, Bool, true, false, Option, none, some, List, [], ◌∷◌, u8,
}
use s3_bme.Base.Int.{ℤ, eqb_ℤ}
use s3_bme.Base.Result.{Result, ok, err, hang, M, pure, fail, ◌>>=◌, ◌>>◌, get, put}

-- KEY_INTERVAL, KEY_BOOT_ID, KEY_WIFI_SSID and KEY_WIFI_PASS.
pub data Key : Type 0 where
  key_interval key_boot_id key_wifi_ssid key_wifi_pass : Key

-- The calls of NVS on an open namespace, over the state `Dev` of the partition.
pub record Nvs : Type 1 where
  pub Dev : Type 0
  pub flash_init : M Dev (Unit {0})
  pub flash_erase : M Dev (Unit {0})
  pub open_ns : M Dev (Unit {0})
  pub get_u32 : Key → M Dev ℕ
  pub get_u8 : Key → M Dev ℕ
  pub set_u32 : Key → ℕ → M Dev (Unit {0})
  pub set_u8 : Key → ℕ → M Dev (Unit {0})
  pub get_str : Key → ℕ → M Dev (List ℕ)
  pub set_str : Key → List ℕ → M Dev (Unit {0})
  pub erase_key : Key → M Dev (Unit {0})
  pub commit : M Dev (Unit {0})
  pub no_free_pages : ℤ
  pub new_version_found : ℤ
  pub not_found : ℤ
  pub invalid_arg : ℤ

-- The static variables, with the partition behind the handle.
pub record Settings (Dev : Type 0) : Type 0 where
  pub dev : Dev
  pub interval_s : ℕ
  pub boot_id : ℕ

-- SETTINGS_INTERVAL_MIN, SETTINGS_INTERVAL_MAX and SETTINGS_INTERVAL_DEFAULT.
abbrev pub interval_min : ℕ
interval_min = 10

abbrev pub interval_max : ℕ
interval_max = 3600

abbrev pub interval_default : ℕ
interval_default = 60

-- `if (... != ESP_OK) value = d;`
abbrev pub or_default : {S A : Type 0} → A → M S A → M S A
or_default {S} {A} d m s =
    let (r, t) = m s in
    elim r as (λ _. Result A × S) [ ok a ↦ (ok a, t) | err c ↦ (ok d, t) | hang ↦ (hang, t) ]

-- ESP_ERROR_CHECK: the call does not return if it fails.
abbrev pub check : {S A : Type 0} → M S A → M S A
check {S} {A} m s =
    let (r, t) = m s in
    elim r as (λ _. Result A × S) [ ok a ↦ (ok a, t) | err c ↦ (hang, t) | hang ↦ (hang, t) ]

-- A call whose code `c` is as good as ESP_OK.
abbrev pub allow : {S : Type 0} → ℤ → M S (Unit {0}) → M S (Unit {0})
allow {S} a m s =
    let (r, t) = m s in
    elim r as (λ _. Result (Unit {0}) × S) [
      | ok u ↦ (ok u, t)
      | err c ↦ if eqb_ℤ c a then (ok tt, t) else (err c, t)
      | hang ↦ (hang, t)
    ]

module _ (N : Nvs) where
  open N use {Dev}

  abbrev pub on_nvs : {A : Type 0} → M Dev A → M (Settings Dev) A
  on_nvs m s = let (r, d) = m s.dev in (r, record s { dev = d })

  -- A partition that is full or of another version is erased, and opened again.
  unfoldable pub after_init : Result (Unit {0}) → M (Settings Dev) (Unit {0})
  after_init (ok u) s = (ok u, s)
  after_init (err c) s =
      if eqb_ℤ c N.no_free_pages || eqb_ℤ c N.new_version_found
      then (check (on_nvs N.flash_erase) >> on_nvs N.flash_init) s
      else (err c, s)
  after_init hang s = (hang, s)

  unfoldable pub flash_start : M (Settings Dev) (Unit {0})
  unfolding after_init
  flash_start s = let (r, t) = on_nvs N.flash_init s in after_init r t

  unfoldable pub init : M (Settings Dev) (Unit {0})
  unfolding flash_start
  init = do
    flash_start
    on_nvs N.open_ns
    i ← or_default interval_default (on_nvs (N.get_u32 key_interval))
    b ← or_default 0 (on_nvs (N.get_u8 key_boot_id))
    λ s. (ok tt, record s { interval_s = i; boot_id = u8 (b + 1) })
    or_default tt (on_nvs (N.set_u8 key_boot_id (u8 (b + 1))))
    on_nvs N.commit

  unfoldable pub set_interval_s : ℕ → M (Settings Dev) (Unit {0})
  set_interval_s n s =
      if ltb n interval_min || ltb interval_max n
      then (err N.invalid_arg, s)
      else (on_nvs (N.set_u32 key_interval n) >> on_nvs N.commit) (record s { interval_s = n })

  -- The password is empty if there is none.
  unfoldable pub wifi_password : List ℕ → ℕ → M (Settings Dev) (Option (List ℕ × List ℕ))
  wifi_password [] pass_len s = (ok none, s)
  wifi_password (c ∷ cs) pass_len s =
      (or_default [] (on_nvs (N.get_str key_wifi_pass pass_len)) >>= λ password.
      pure (some (c ∷ cs, password)))
        s

  -- `settings_wifi_credentials`; `none` stands for `false`.
  unfoldable pub wifi_credentials : ℕ → ℕ → M (Settings Dev) (Option (List ℕ × List ℕ))
  unfolding wifi_password
  wifi_credentials ssid_len pass_len = do
    ssid ← or_default [] (on_nvs (N.get_str key_wifi_ssid ssid_len))
    wifi_password ssid pass_len

  unfoldable pub set_wifi_credentials : List ℕ → List ℕ → M (Settings Dev) (Unit {0})
  set_wifi_credentials [] password = do
    allow N.not_found (on_nvs (N.erase_key key_wifi_ssid))
    allow N.not_found (on_nvs (N.erase_key key_wifi_pass))
    on_nvs N.commit
  set_wifi_credentials (c ∷ cs) password = do
    on_nvs (N.set_str key_wifi_ssid (c ∷ cs))
    on_nvs (N.set_str key_wifi_pass password)
    on_nvs N.commit
