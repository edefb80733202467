-- ===== src/Settings/Counter.antt =====
-- `settings_init`: the interval that it finds, and the count of the starts.
use s3_bme.Base.{ℕ, ◌+◌, ◌≡◌, ◌≢◌, ◌⊎◌, u8, Option, none, some}
use s3_bme.Base.Result.{Result}
use s3_bme.Settings.{Key, key_interval, key_boot_id, interval_default, Nvs, Settings}
use s3_bme.Settings.Contents.{IsNvs}
use s3_bme.Settings.Opening.{Erases, Found}

-- The number of a key, or what stands for a missing one.
abbrev pub found_or : ℕ → Option ℕ → ℕ
found_or n none = n
found_or n (some m) = m

-- `settings_init` on an NVS that can be erased.
module _ (N : Nvs) {Fails : Type 0} (C : IsNvs N Fails) (erases : Erases N C) where
  -- The number of a key that is read, or the default, which a failing call may give too.
  abbrev pub Read : ℕ → Option ℕ → ℕ → Type 0
  Read n o m = (m ≡ found_or n o) ⊎ (Fails × (m ≡ n))

  -- What a successful `settings_init` leaves, of what it found.
  pub record IsCounted (s t : Settings N.Dev) : Type 0 where
    pub found : Key → Option ℕ
    pub origin : Found N C s found
    pub interval : Read interval_default (found key_interval) t.interval_s
    pub count : ℕ
    pub counted : Read 0 (found key_boot_id) count
    pub boot : t.boot_id ≡ u8 (count + 1)
    pub stored :
        ((C.num t.dev key_boot_id ≡ some t.boot_id)
          × ((k : Key) → k ≢ key_boot_id → C.num t.dev k ≡ found k))
        ⊎ Fails

  -- The end of `settings_init`: the boot id is set, and the result of that is not looked at.
  abbrev Kept : (Key → Option ℕ) → ℕ → ℕ → Settings N.Dev → Type 0
  Kept found i b t =
      (t.interval_s ≡ i)
      × (t.boot_id ≡ u8 (b + 1))
      × (((C.num t.dev key_boot_id ≡ some (u8 (b + 1)))
            × ((k : Key) → k ≢ key_boot_id → C.num t.dev k ≡ found k))
          ⊎ Fails)
