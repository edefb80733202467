-- ===== src/Settings/Sim.antt =====
-- NVS held in memory.
use s3_bme.Base.{ℕ, ltb, if◌then◌else◌, Bool, true, false, Option, none, some, List, length}
use s3_bme.Base.Int.{pos}
use s3_bme.Base.Result.{Result, ok, err}
use s3_bme.Settings.{Key, key_interval, key_boot_id, key_wifi_ssid, key_wifi_pass, Nvs}

pub record Part : Type 0 where
  pub nums : Key → Option ℕ
  pub texts : Key → Option (List ℕ)

abbrev pub empty_part : Part
empty_part = record { nums = λ k. none; texts = λ k. none }

abbrev pub same_key : Key → Key → Bool
same_key key_interval key_interval = true
same_key key_boot_id key_boot_id = true
same_key key_wifi_ssid key_wifi_ssid = true
same_key key_wifi_pass key_wifi_pass = true
same_key j k = false

-- Whatever is above zero is a code of an error here; 2 stands for a key that is not there.
abbrev pub or_missing : {A : Type 0} → Option A → Result A
or_missing none = err (pos 2)
or_missing (some a) = ok a

abbrev pub fitting : ℕ → Option (List ℕ) → Result (List ℕ)
fitting len none = err (pos 2)
fitting len (some v) = if ltb (length v) len then ok v else err (pos 3)

abbrev pub put_key : {A : Type 0} → Key → Option A → (Key → Option A) → Key → Option A
put_key k v f j = if same_key j k then v else f j

abbrev pub nvs : Nvs
nvs = record {
  Dev = Part;
  flash_init = λ p. (ok tt, p);
  flash_erase = λ p. (ok tt, empty_part);
  open_ns = λ p. (ok tt, p);
  get_u32 = λ k p. (or_missing (p.nums k), p);
  get_u8 = λ k p. (or_missing (p.nums k), p);
  set_u32 = λ k n p. (ok tt, record p { nums = put_key k (some n) p.nums });
  set_u8 = λ k n p. (ok tt, record p { nums = put_key k (some n) p.nums });
  get_str = λ k len p. (fitting len (p.texts k), p);
  set_str = λ k v p. (ok tt, record p { texts = put_key k (some v) p.texts });
  erase_key = λ k p. (ok tt, record p { texts = put_key k none p.texts });
  commit = λ p. (ok tt, p);
  no_free_pages = pos 4;
  new_version_found = pos 5;
  not_found = pos 2;
  invalid_arg = pos 1;
}
