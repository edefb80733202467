-- ===== src/HostTests/FakeBus.antt =====
-- firmware/test_host/fake-bus.h: a BME280 emulated behind the driver's bus.
use s3_bme.Base.{
  ℕ, ◌+◌, ◌≡◌, ◌≢◌, refl, arith, ltb, ◌==◌, if◌then◌else◌, Bool, true, false, List, [], ◌∷◌, ◌++◌,
}
use s3_bme.Base.Int.{negsuc}
use s3_bme.Base.Result.{ok, err, M, Ensures}
use s3_bme.Flash.{bytes_from}
use s3_bme.Bme280.Driver.{Bus}
use s3_bme.Bme280.Registers.{SameFixed, IsControl, IsRegisters}

-- The static variables: the registers, the writes of them (`fake_bus_write_log` and
-- `fake_bus_write_count`), the switch for failures and the number of delays.
pub record FakeBus : Type 0 where
  pub regs : ℕ → ℕ
  pub write_log : List (ℕ × ℕ)
  pub write_count : ℕ
  pub fail : Bool
  pub delay_calls : ℕ

-- `regs[reg] = val`
abbrev pub set_reg : ℕ → ℕ → (ℕ → ℕ) → ℕ → ℕ
set_reg reg val f q = if q == reg then val else f q

abbrev pub fake_bus_read_regs : ℕ → ℕ → M FakeBus (List ℕ)
fake_bus_read_regs reg len d =
    if d.fail then (err (negsuc 0), d) else (ok (bytes_from d.regs reg len), d)

-- The log keeps the first 64 writes. A reset does not touch the registers.
abbrev pub logged : ℕ → ℕ → FakeBus → FakeBus
logged reg val d = record d {
  regs = if reg == 0xE0 then d.regs else set_reg reg val d.regs;
  write_log = if ltb d.write_count 64 then d.write_log ++ ((reg, val) ∷ []) else d.write_log;
  write_count = d.write_count + 1;
}

abbrev pub fake_bus_write_reg : ℕ → ℕ → M FakeBus (Unit {0})
fake_bus_write_reg reg val d = if d.fail then (err (negsuc 0), d) else (ok tt, logged reg val d)

abbrev pub fake_bus_delay_ms : ℕ → FakeBus → FakeBus
fake_bus_delay_ms ms d = record d { delay_calls = d.delay_calls + 1 }

abbrev pub fake_bus : Bus
fake_bus = record {
  Dev = FakeBus;
  read_regs = fake_bus_read_regs;
  write_reg = fake_bus_write_reg;
  delay_ms = fake_bus_delay_ms;
}

-- The state after `fake_bus_reset`: the chip id, and 0 in every other register.
abbrev pub fake_bus_reset : FakeBus
fake_bus_reset = record {
  regs = set_reg 0xD0 0x60 (λ q. 0);
  write_log = [];
  write_count = 0;
  fail = false;
  delay_calls = 0;
}

-- The value of the last write of a register, `v` being that of the writes before.
abbrev pub last_of : ℕ → ℕ → List (ℕ × ℕ) → ℕ
last_of reg v [] = v
last_of reg v ((r, val) ∷ log) = last_of reg (if r == reg then val else v) log

abbrev pub fake_bus_last_write : ℕ → FakeBus → ℕ
fake_bus_last_write reg d = last_of reg 0 d.write_log

fake_read-Ensures :
    (reg len : ℕ) (d : FakeBus)
    → Ensures
        (λ bs e. (bs ≡ bytes_from d.regs reg len) × (e.regs ≡ d.regs))
        (λ c e. Unit {0})
        (fake_bus_read_regs reg len d)
fake_read-Ensures reg len d =
    elim d.fail
      as (λ b.
        Ensures (λ bs (e : FakeBus). (bs ≡ bytes_from d.regs reg len) × (e.regs ≡ d.regs))
          (λ c e. Unit {0})
          (if b then (err (negsuc 0), d) else (ok (bytes_from d.regs reg len), d))) [
            | true ↦ tt
            | false ↦ (refl, refl)
          ]

-- Whatever a write leaves of the registers when it is not refused, a write ensures.
fake_write-Ensures :
    (reg val : ℕ) (d : FakeBus) (P : (ℕ → ℕ) → Type 0)
    → P (logged reg val d).regs
    → Ensures (λ u e. P e.regs) (λ c e. Unit {0}) (fake_bus_write_reg reg val d)
fake_write-Ensures reg val d P h =
    elim d.fail
      as (λ b.
        Ensures (λ u (e : FakeBus). P e.regs) (λ c e. Unit {0})
          (if b then (err (negsuc 0), d) else (ok tt, logged reg val d))) [ true ↦ tt | false ↦ h ]

written :
    (reg val : ℕ) (d : FakeBus)
    → IsControl reg val
    → ((logged reg val d).regs reg ≡ val)
      × ((q : ℕ) → q ≢ reg → (logged reg val d).regs q ≡ d.regs q)
written reg val d ctl =
    let other : (reg == 0xE0) ≡ false = ground arith in
    rw other (ground arith, λ q ne. ground arith)

-- The emulated sensor keeps to what is supposed of a sensor's registers, in every state: a transfer
-- that does not fail returns the registers from 0x80 on that it reads, sets one control register, or
-- is a reset and leaves the chip id and the calibration data, as a delay does.
pub fake_bus-IsRegisters : IsRegisters fake_bus (λ d. d.regs) (Unit {0})
fake_bus-IsRegisters = record {
  read_lem = λ r n d lo hi fits few. fake_read-Ensures r n d;
  write_lem = λ r v d ctl.
      fake_write-Ensures r v d (λ f. (f r ≡ v) × ((q : ℕ) → q ≢ r → f q ≡ d.regs q))
        (written r v d ctl);
  reset_lem = λ d. fake_write-Ensures 0xE0 0xB6 d (λ f. SameFixed d.regs f) (λ q fixed. refl);
  delay_lem = λ ms d q fixed. refl;
}
