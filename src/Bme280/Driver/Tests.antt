-- ===== src/Bme280/Driver/Tests.antt =====
-- The driver on a bus that counts its calls.
use s3_bme.Base.{
  Bool, true, false, zero, suc, ◌<◌, ◌^◌, get_or, ap, arith, ℕ, ◌+◌, ◌≡◌, refl, List, [], ◌∷◌, ◌==◌,
  if◌then◌else◌,
}
use s3_bme.Base.Int.{pos}
use s3_bme.Base.Result.{ok, err, Ensures}
use s3_bme.Bme280.Compensate.{compensate}
use s3_bme.Bme280.Compensate.Tests.{calib}
use s3_bme.Bme280.Driver.{
  Bus, Sensor, err_timeout, read, measure, check_id, poll, read_regs, write_reg, delay_ms, on_bus,
  to_err_bus,
}
use s3_bme.Bme280.Driver.Data.{raw_20, raw_16}
use s3_bme.Bme280.Driver.Laws.{Answers, Measured, Refused, read-outcome}

-- A sensor with the chip id `id` and the status `status`.
abbrev pub bus : ℕ → ℕ → Bus
bus id status = record {
  Dev = ℕ;
  read_regs = λ reg len n. (ok (if reg == 0xD0 then id ∷ [] else status ∷ []), n + 1);
  write_reg = λ reg val n. (ok tt, n + 1);
  delay_ms = λ ms n. n;
}

bus_byte :
    (b : Bool) (id status : ℕ)
    → id < 2 ^ 8
    → status < 2 ^ 8
    → (i : ℕ) → get_or (if b then id ∷ [] else status ∷ []) i 0 < 2 ^ 8
bus_byte true id status h k zero = h
bus_byte true id status h k (suc i) = omega arith
bus_byte false id status h k zero = k
bus_byte false id status h k (suc i) = omega arith

bus-Answers : (id status : ℕ) → id < 2 ^ 8 → status < 2 ^ 8 → Answers (bus id status)
bus-Answers id status h k = record {
  reads = λ reg len d. cc;
  bytes = λ reg len d e bs same i.
      let is : (if reg == 0xD0 then id ∷ [] else status ∷ []) ≡ bs = ok_of (ap (λ x. x.0) same) in
      rw (← is) (bus_byte (reg == 0xD0) id status h k i);
  writes = λ reg val d. cc;
}
  where
    ok_of : {A : Type 0} {a b : A} → ok a ≡ ok b → a ≡ b
    ok_of e = cc e

abbrev pub sensor : Sensor ℕ
sensor = record { dev = 0; calib = calib }

-- A status that stays busy is read eleven times; the id and the mode are two more transfers.
times_out : read (bus 0x60 8) sensor ≡ (err err_timeout, record sensor { dev = 13 })
unfolding read measure check_id poll read_regs write_reg delay_ms on_bus to_err_bus
times_out = refl

read-outcome_example :
    Ensures
      (λ r t.
        ((d : List ℕ) × Measured (bus 0x60 0) 0 t.dev d
          × (r ≡ compensate calib (pos (raw_20 d 3)) (pos (raw_20 d 0)) (pos (raw_16 d))))
        × (t.calib ≡ calib))
      (λ c t. Refused (bus 0x60 0) (bus-Answers 0x60 0 (omega arith) (omega arith)) 0 c t.dev)
      (read (bus 0x60 0) sensor)
read-outcome_example =
    read-outcome (bus 0x60 0) (bus-Answers 0x60 0 (omega arith) (omega arith)) sensor
