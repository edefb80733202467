-- ===== src/Bme280/Registers.antt =====
-- What the data sheet of the sensor says of its registers, as seen over a bus.
use s3_bme.Base.{ℕ, ◌+◌, ◌/◌, ◌%◌, ◌≤◌, ◌<◌, ◌≡◌, ◌≢◌, ◌⊎◌}
use s3_bme.Base.Result.{Ensures}
use s3_bme.Flash.{bytes_from}
use s3_bme.Bme280.Driver.{Bus}

-- The chip id and the calibration data, which never change.
abbrev pub IsFixed : ℕ → Type 0
IsFixed r = (r ≡ 0xD0) ⊎ ((0x88 ≤ r) × (r < 0xA2)) ⊎ ((0xE1 ≤ r) × (r < 0xE8))

abbrev pub SameFixed : (ℕ → ℕ) → (ℕ → ℕ) → Type 0
SameFixed f g = (r : ℕ) → IsFixed r → g r ≡ f r

-- What may be written to ctrl_hum, ctrl_meas and config and is read back: no reserved bit is set,
-- and ctrl_meas tells the sensor to sleep, since a measurement changes its mode. (In normal mode a
-- write of config may be ignored; the driver never sets that mode.)
abbrev pub IsControl : ℕ → ℕ → Type 0
IsControl r v =
    ((r ≡ 0xF2) × (v < 0x08))
    ⊎ ((r ≡ 0xF4) × (v < 0x100) × (v % 4 ≡ 0))
    ⊎ ((r ≡ 0xF5) × (v < 0x100) × (v / 2 % 2 ≡ 0))

-- The bus of a sensor whose registers are `reg d`. A transfer returns the registers from one on, or
-- fails, which shows `Fails`; the registers do not change while it lasts. A write of `IsControl` sets
-- one register and leaves the others as they were; a reset and the time leave the fixed ones.
pub record IsRegisters (B : Bus) (reg : B.Dev → ℕ → ℕ) (Fails : Type 0) : Type 0 where
  pub read_lem :
      (r n : ℕ) (d : B.Dev)
      → 0x80 ≤ r
      → r < 0x100
      → r + n ≤ 0x100
      → n ≤ 26
      → Ensures
          (λ bs e. (bs ≡ bytes_from (reg d) r n) × (reg e ≡ reg d))
          (λ c e. Fails)
          (B.read_regs r n d)
  pub write_lem :
      (r v : ℕ) (d : B.Dev)
      → IsControl r v
      → Ensures
          (λ u e. (reg e r ≡ v) × ((q : ℕ) → q ≢ r → reg e q ≡ reg d q))
          (λ c e. Fails)
          (B.write_reg r v d)
  pub reset_lem :
      (d : B.Dev)
      → Ensures (λ u e. SameFixed (reg d) (reg e)) (λ c e. Fails) (B.write_reg 0xE0 0xB6 d)
  pub delay_lem : (ms : ℕ) (d : B.Dev) → SameFixed (reg d) (reg (B.delay_ms ms d))
