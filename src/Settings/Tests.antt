-- ===== src/Settings/Tests.antt =====
-- NVS in memory keeps what it is given, and the settings run on it.
use s3_bme.Base.{
  codes, ltb, ℕ, ◌<◌, ◌≡◌, ◌≢◌, ◌⊎◌, refl, arith, true, Option, none, some, List, length,
}
use s3_bme.Base.Result.{Ensures}
use s3_bme.Settings.{
  Key, key_interval, key_boot_id, key_wifi_ssid, key_wifi_pass, Settings, wifi_credentials,
  set_wifi_credentials,
}
use s3_bme.Settings.Contents.{IsNvs}
use s3_bme.Settings.Credentials.{kept_credentials, wifi_credentials-set}
use s3_bme.Settings.Sim.{Part, empty_part, fitting, put_key, nvs}

put_self : {A : Type 0} (k : Key) (v : Option A) (f : Key → Option A) → put_key k v f k ≡ v
put_self key_interval v f = refl
put_self key_boot_id v f = refl
put_self key_wifi_ssid v f = refl
put_self key_wifi_pass v f = refl

put_other :
    {A : Type 0} (k : Key) (v : Option A) (f : Key → Option A) (j : Key)
    → j ≢ k
    → put_key k v f j ≡ f j
put_other key_interval v f key_interval ne = absurd (ne refl)
put_other key_boot_id v f key_boot_id ne = absurd (ne refl)
put_other key_wifi_ssid v f key_wifi_ssid ne = absurd (ne refl)
put_other key_wifi_pass v f key_wifi_pass ne = absurd (ne refl)
put_other k v f j ne = refl

fits :
    (len : ℕ) (v : List ℕ) (p : Part)
    → length v < len
    → Ensures {S = Part}
        (λ s q. (s ≡ v) × (q.nums ≡ p.nums) × (q.texts ≡ p.texts))
        (λ c q. ⊥ × (q.nums ≡ p.nums) × (q.texts ≡ p.texts))
        (fitting len (some v), p)
fits len v p h = rw (short) (refl, refl, refl)
  where
    short : ltb (length v) len ≡ true
    short = ground arith

abbrev nvs_contents : IsNvs nvs ⊥
nvs_contents = record {
  num = λ p. p.nums;
  text = λ p. p.texts;
  flash_init_lem = λ d. (refl, refl);
  open_ns_lem = λ d. (refl, refl);
  get_u32_missing = λ k d e. rw e (refl, refl);
  get_u8_missing = λ k d e. rw e (refl, refl);
  get_u32_lem = λ k d n e. rw e (refl, refl, refl);
  get_u8_lem = λ k d n e. rw e (refl, refl, refl);
  set_u32_lem = λ k n d. (put_self k (some n) d.nums, put_other k (some n) d.nums, refl);
  set_u8_lem = λ k n d. (put_self k (some n) d.nums, put_other k (some n) d.nums, refl);
  get_str_lem = λ k len d v e h. rw e (fits len v d h);
  get_str_missing = λ k len d e. rw e (refl, refl);
  set_str_lem = λ k v d. (put_self k (some v) d.texts, put_other k (some v) d.texts, refl);
  erase_key_lem = λ k d. (put_self k none d.texts, put_other k none d.texts, refl);
  commit_lem = λ d. (refl, refl);
}

abbrev partition : Settings Part
partition = record { dev = empty_part; interval_s = 60; boot_id = 1 }

wifi_credentials-set_example :
    Ensures
      (λ u t.
        Ensures
          (λ r v. (r ≡ kept_credentials (codes "home") (codes "12345678")) ⊎ ⊥)
          (λ c v. ⊥)
          (wifi_credentials nvs 33 64 t))
      (λ c t. ⊥)
      (set_wifi_credentials nvs (codes "home") (codes "12345678") partition)
wifi_credentials-set_example =
    wifi_credentials-set nvs nvs_contents (codes "home") (codes "12345678") 33 64 partition
      (omega arith) (omega arith)
