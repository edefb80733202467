-- ===== src/Bme280/Driver/Laws.antt =====
-- What the calls of the driver return, on any bus that answers.
use s3_bme.Base.{
  ℕ, zero, suc, ◌^◌, ◌<◌, ◌≡◌, ◌≢◌, ◌⊎◌, inl, inr, refl, ◌∙◌, List, get_or, ==_ne, ℕ_discrete,
  arith, ◌≤◌, bit_and,
}
use s3_bme.Base.Int.{ℤ, pos}
use s3_bme.Base.Result.{Result, ok, err, hang, M, Ensures, EnsuresOf, bind-Ensures, weaken}
use s3_bme.Bme280.Compensate.{compensate}
use s3_bme.Bme280.Driver.Data.{raw_20, raw_16, adc_20-raw_20, adc_16-raw_16}
use s3_bme.Bme280.Driver.{
  Bus, Sensor, err_bus, err_chip_id, err_timeout, to_err_bus, on_bus, read_regs, write_reg,
  delay_ms, check_id, poll, measure, read,
}

-- Every call of the bus returns, with or without an error, and a read returns bytes.
pub record Answers (B : Bus) : Type 0 where
  pub reads : (reg len : ℕ) (d : B.Dev) → (B.read_regs reg len d).0 ≢ hang
  pub bytes :
      (reg len : ℕ) (d e : B.Dev) (bs : List ℕ)
      → B.read_regs reg len d ≡ (ok bs, e)
      → (i : ℕ) → get_or bs i 0 < 2 ^ 8
  pub writes : (reg val : ℕ) (d : B.Dev) → (B.write_reg reg val d).0 ≢ hang

-- A status that tells of a measurement that runs.
abbrev pub IsBusy : List ℕ → Type 0
IsBusy status = bit_and (get_or status 0 0) 0x08 ≢ 0

module _ (B : Bus) where
  -- A transfer takes the bus from `d` to `e` and returns the bytes.
  abbrev pub Reads : ℕ → ℕ → B.Dev → List ℕ → B.Dev → Type 0
  Reads reg len d bytes e = B.read_regs reg len d ≡ (ok bytes, e)

  -- The status is read until it shows no measurement, `n` times in vain, with 10 ms behind each.
  abbrev pub Idle : ℕ → B.Dev → B.Dev → Type 0
  Idle zero d e = (st : List ℕ) × Reads 0xF3 1 d st e × (bit_and (get_or st 0 0) 0x08 ≡ 0)
  Idle (suc n) d e =
      (st : List ℕ) × (d' : B.Dev) × Reads 0xF3 1 d st d' × IsBusy st × Idle n (B.delay_ms 10 d') e

  -- The status is read `n + 1` times, always in vain.
  abbrev pub Busy : ℕ → B.Dev → B.Dev → Type 0
  Busy zero d e = (st : List ℕ) × Reads 0xF3 1 d st e × IsBusy st
  Busy (suc n) d e =
      (st : List ℕ) × (d' : B.Dev) × Reads 0xF3 1 d st d' × IsBusy st × Busy n (B.delay_ms 10 d') e

  -- The chip id is that of the BME280, or another one.
  abbrev pub Answered : B.Dev → B.Dev → Type 0
  Answered d e = (id : List ℕ) × Reads 0xD0 1 d id e × (get_or id 0 0 ≡ 0x60)

  abbrev pub Stranger : B.Dev → B.Dev → Type 0
  Stranger d e = (id : List ℕ) × Reads 0xD0 1 d id e × (get_or id 0 0 ≢ 0x60)

  -- A measurement, from the chip id to the bytes of the data: one is started, and it ends before the
  -- status was read eleven times.
  pub record Measured (d e : B.Dev) (bytes : List ℕ) : Type 0 where
    pub known : B.Dev
    pub started : B.Dev
    pub ended : B.Dev
    pub polls : ℕ
    pub id : Answered d known
    pub forced : B.write_reg 0xF4 0x25 known ≡ (ok tt, started)
    pub few : polls ≤ 10
    pub idle : Idle polls (B.delay_ms 10 started) ended
    pub transfer : Reads 0xF7 8 ended bytes e

  -- The status stayed busy.
  pub record TimedOut (d e : B.Dev) : Type 0 where
    pub known : B.Dev
    pub started : B.Dev
    pub id : Answered d known
    pub forced : B.write_reg 0xF4 0x25 known ≡ (ok tt, started)
    pub busy : Busy 10 (B.delay_ms 10 started) e

  module _ (answers : Answers B) where
    on_bus-Returns :
        {A : Type 0} (m : M B.Dev A) (s : Sensor B.Dev)
        → (m s.dev).0 ≢ hang
        → Ensures
            (λ a t. (m s.dev ≡ (ok a, t.dev)) × (t.calib ≡ s.calib))
            (λ c t. c ≡ err_bus)
            (on_bus B m s)
    unfolding on_bus
    on_bus-Returns {A} m s h = go (m s.dev).0 (m s.dev).1 refl h
      where
        go :
            (r : Result A) (d : B.Dev)
            → m s.dev ≡ (r, d)
            → r ≢ hang
            → EnsuresOf
                (λ a t. (m s.dev ≡ (ok a, t.dev)) × (t.calib ≡ s.calib))
                (λ c t. c ≡ err_bus)
                (to_err_bus r)
                (record s { dev = d })
        go (ok a) d e h = unfold to_err_bus in (e, refl)
        go (err c) d e h = unfold to_err_bus in refl
        go hang d e h = absurd (h refl)

    read_regs-Returns :
        (reg len : ℕ) (s : Sensor B.Dev)
        → Ensures
            (λ bs t. Reads reg len s.dev bs t.dev × (t.calib ≡ s.calib))
            (λ c t. c ≡ err_bus)
            (read_regs B reg len s)
    unfolding read_regs
    read_regs-Returns reg len s =
        on_bus-Returns (B.read_regs reg len) s (answers.reads reg len s.dev)

    write_reg-Returns :
        (reg val : ℕ) (s : Sensor B.Dev)
        → Ensures
            (λ u t. (B.write_reg reg val s.dev ≡ (ok u, t.dev)) × (t.calib ≡ s.calib))
            (λ c t. c ≡ err_bus)
            (write_reg B reg val s)
    unfolding write_reg
    write_reg-Returns reg val s =
        on_bus-Returns (B.write_reg reg val) s (answers.writes reg val s.dev)

    check_id-Returns :
        (s : Sensor B.Dev)
        → Ensures
            (λ _ t. Answered s.dev t.dev × (t.calib ≡ s.calib))
            (λ c t. (c ≡ err_bus) ⊎ ((c ≡ err_chip_id) × Stranger s.dev t.dev))
            (check_id B s)
    unfolding check_id
    check_id-Returns s =
        bind-Ensures _ _ _ (read_regs B 0xD0 1) _ s
          (weaken _ _ _ _ (read_regs B 0xD0 1) s (read_regs-Returns 0xD0 1 s) (λ bs t p. p)
            (λ c t e. inl e))
          (λ id t (e, kept). elim (ℕ_discrete (get_or id 0 0) 0x60) [
            | yes is ↦ rw is ((id, e, is), kept)
            | no not ↦ rw (==_ne (get_or id 0 0) 0x60 not) (inr (refl, (id, e, not)))
          ])

    poll-Returns :
        (left : ℕ) (s : Sensor B.Dev)
        → Ensures
            (λ _ t. ((n : ℕ) × (n ≤ left) × Idle n s.dev t.dev) × (t.calib ≡ s.calib))
            (λ c t. (c ≡ err_bus) ⊎ ((c ≡ err_timeout) × Busy left s.dev t.dev))
            (poll B left s)
    unfolding poll delay_ms
    poll-Returns zero s =
        bind-Ensures _ _ _ (read_regs B 0xF3 1) _ s
          (weaken _ _ _ _ (read_regs B 0xF3 1) s (read_regs-Returns 0xF3 1 s) (λ bs t p. p)
            (λ c t e. inl e))
          (λ st t (e, kept). elim (ℕ_discrete (bit_and (get_or st 0 0) 0x08) 0) [
            | yes idle ↦ rw idle ((0, omega arith, (st, e, idle)), kept)
            | no busy ↦ rw (==_ne (bit_and (get_or st 0 0) 0x08) 0 busy) (inr (refl, (st, e, busy)))
          ])
    poll-Returns (suc left) s =
        bind-Ensures _ _ _ (read_regs B 0xF3 1) _ s
          (weaken _ _ _ _ (read_regs B 0xF3 1) s (read_regs-Returns 0xF3 1 s) (λ bs t p. p)
            (λ c t e. inl e))
          (λ st t (e, kept). elim (ℕ_discrete (bit_and (get_or st 0 0) 0x08) 0) [
            | yes idle ↦ rw idle ((0, omega arith, (st, e, idle)), kept)
            | no busy ↦ rw (==_ne (bit_and (get_or st 0 0) 0x08) 0 busy) (
                weaken _ _ _ _ (poll B left) (record t { dev = B.delay_ms 10 t.dev })
                  (poll-Returns left (record t { dev = B.delay_ms 10 t.dev }))
                  (λ _ u ((n, few, idle), kept').
                    ((suc n, omega arith, (st, t.dev, e, busy, idle)), kept' ∙ kept))
                  (λ c u h. elim h [
                    | inl b ↦ inl b
                    | inr (late, more) ↦ inr (late, (st, t.dev, e, busy, more))
                  ]))
          ])

    -- The causes of the three errors.
    abbrev pub Refused : B.Dev → ℤ → B.Dev → Type 0
    Refused d c e =
        (c ≡ err_bus) ⊎ ((c ≡ err_chip_id) × Stranger d e) ⊎ ((c ≡ err_timeout) × TimedOut d e)

    abbrev Good : Sensor B.Dev → List ℕ → Sensor B.Dev → Type 0
    Good s bytes t = Measured s.dev t.dev bytes × (t.calib ≡ s.calib)

    abbrev Bad : Sensor B.Dev → ℤ → Sensor B.Dev → Type 0
    Bad s c t = Refused s.dev c t.dev

    measure-Returns :
        (s : Sensor B.Dev)
        → Ensures
            (λ bytes t. Measured s.dev t.dev bytes × (t.calib ≡ s.calib))
            (λ c t. Refused s.dev c t.dev)
            (measure B s)
    unfolding measure delay_ms
    measure-Returns s =
        bind-Ensures _ (Good s) (Bad s) (check_id B) _ s
          (weaken _ _ _ _ (check_id B) s (check_id-Returns s) (λ _ t p. p)
            (λ c t h. elim h [ inl b ↦ inl b | inr p ↦ inr (inl p) ]))
          (λ _ t (id, kept1).
            bind-Ensures _ (Good s) (Bad s) (write_reg B 0xF4 0x25) _ t
              (weaken _ _ _ _ (write_reg B 0xF4 0x25) t (write_reg-Returns 0xF4 0x25 t) (λ _ u p. p)
                (λ c u b. inl b))
              (λ _ u (forced, kept2).
                let v : Sensor B.Dev = record u { dev = B.delay_ms 10 u.dev } in
                bind-Ensures _ (Good s) (Bad s) (poll B 10) _ v
                  (weaken _ _ _ _ (poll B 10) v (poll-Returns 10 v) (λ _ w p. p)
                    (λ c w h. elim h [
                      | inl b ↦ inl b
                      | inr (late, busy) ↦ inr (
                          inr (
                            late,
                            record {
                              known = t.dev;
                              started = u.dev;
                              id = id;
                              forced = forced;
                              busy = busy;
                            },
                          ))
                    ]))
                  (λ _ w ((n, few, idle), kept3).
                    weaken _ (Good s) _ (Bad s) (read_regs B 0xF7 8) w (read_regs-Returns 0xF7 8 w)
                      (λ bytes x (transfer, kept4). (
                        record {
                          known = t.dev;
                          started = u.dev;
                          ended = w.dev;
                          polls = n;
                          id = id;
                          forced = forced;
                          few = few;
                          idle = idle;
                          transfer = transfer;
                        },
                        kept4 ∙ (kept3 ∙ (kept2 ∙ kept1)),
                      ))
                      (λ c x b. inl b))))

    -- `bme280_read` ends on every bus that answers. It returns a reading only for the chip id of the
    -- BME280 and behind a forced measurement that ended within eleven polls 10 ms apart; the reading
    -- is then computed of the calibration data and of the bytes transferred behind it, the pressure
    -- from byte 0, the temperature from byte 3 and the humidity from byte 6 on. BME280_ERR_CHIP_ID
    -- means that another id was read, after which nothing is written, BME280_ERR_TIMEOUT that all
    -- eleven polls found the measurement running; each other error is BME280_ERR_BUS.
    pub read-outcome :
        (s : Sensor B.Dev)
        → Ensures
            (λ r t.
              ((d : List ℕ) × Measured s.dev t.dev d
                × (r ≡ compensate s.calib (pos (raw_20 d 3)) (pos (raw_20 d 0)) (pos (raw_16 d))))
              × (t.calib ≡ s.calib))
            (λ c t. Refused s.dev c t.dev)
            (read B s)
    unfolding read
    read-outcome s = bind-Ensures _ _ _ (measure B) _ s (measure-Returns s) (λ d t (m, kept). (
      (
        d,
        m,
        rw
            (
              kept,
              adc_20-raw_20 B d 3 (answers.bytes 0xF7 8 m.ended t.dev d m.transfer),
              adc_20-raw_20 B d 0 (answers.bytes 0xF7 8 m.ended t.dev d m.transfer),
              adc_16-raw_16 B d (answers.bytes 0xF7 8 m.ended t.dev d m.transfer),
            )
            refl,
      ),
      kept,
    ))
