-- ===== src/Bme280/Driver/Start.antt =====
-- `bme280_init` on the bus of a sensor that keeps to its data sheet.
use s3_bme.Base.{
  ℕ, ◌+◌, ◌≤◌, ◌<◌, ◌≡◌, ◌≢◌, ◌⊎◌, inl, inr, refl, ◌∙◌, sym, ap, arith, ℕ_discrete, ==_ne,
}
use s3_bme.Base.Int.{ℤ}
use s3_bme.Base.Result.{
  Result, ok, err, hang, Ensures, EnsuresOf, bind-Ensures, weaken, ◌>>=◌, ◌>>◌,
}
use s3_bme.Flash.{bytes_from}
use s3_bme.Flash.Slots.{bytes_from-ext}
use s3_bme.Bme280.Compensate.{parse_calib}
use s3_bme.Bme280.Driver.{
  Bus, Sensor, err_bus, err_chip_id, to_err_bus, on_bus, read_regs, write_reg, delay_ms, check_id,
  init,
}
use s3_bme.Bme280.Registers.{IsFixed, SameFixed, IsControl, IsRegisters}

bytes_from-Fixed :
    (f g : ℕ → ℕ) (n r : ℕ)
    → SameFixed f g
    → ((q : ℕ) → r ≤ q → q < r + n → IsFixed q)
    → bytes_from g r n ≡ bytes_from f r n
bytes_from-Fixed f g n r h fixed = bytes_from-ext f g n r (λ q lo hi. h q (fixed q lo hi))

module _ (B : Bus) (reg : B.Dev → ℕ → ℕ) {Fails : Type 0} (R : IsRegisters B reg Fails) where
  -- The code of an error is that of the bus.
  abbrev Fail : ℤ → Sensor B.Dev → Type 0
  Fail c t = (c ≡ err_bus) × Fails

  to_err_bus-Ensures :
      {A : Type 0} (Q : A → B.Dev → Type 0) (r : Result A) (d : B.Dev) (s : Sensor B.Dev)
      → EnsuresOf Q (λ c e. Fails) r d
      → EnsuresOf
          (λ a t. Q a t.dev × (t.calib ≡ s.calib))
          Fail
          (to_err_bus r)
          (record s { dev = d })
  unfolding to_err_bus
  to_err_bus-Ensures Q (ok a) d s h = (h, refl)
  to_err_bus-Ensures Q (err c) d s h = (refl, h)
  to_err_bus-Ensures Q hang d s h = h

  read_regs-Ensures :
      (r n : ℕ) (s : Sensor B.Dev)
      → 0x80 ≤ r
      → r < 0x100
      → r + n ≤ 0x100
      → n ≤ 26
      → Ensures
          (λ bs t.
            ((bs ≡ bytes_from (reg s.dev) r n) × (reg t.dev ≡ reg s.dev)) × (t.calib ≡ s.calib))
          Fail
          (read_regs B r n s)
  unfolding read_regs on_bus
  read_regs-Ensures r n s lo hi fits few =
      to_err_bus-Ensures _ (B.read_regs r n s.dev).0 (B.read_regs r n s.dev).1 s
        (R.read_lem r n s.dev lo hi fits few)

  write_reg-Ensures :
      (r v : ℕ) (s : Sensor B.Dev)
      → IsControl r v
      → Ensures
          (λ u t.
            ((reg t.dev r ≡ v) × ((q : ℕ) → q ≢ r → reg t.dev q ≡ reg s.dev q))
            × (t.calib ≡ s.calib))
          Fail
          (write_reg B r v s)
  unfolding write_reg on_bus
  write_reg-Ensures r v s ctl =
      to_err_bus-Ensures _ (B.write_reg r v s.dev).0 (B.write_reg r v s.dev).1 s
        (R.write_lem r v s.dev ctl)

  reset-Ensures :
      (s : Sensor B.Dev)
      → Ensures
          (λ u t. SameFixed (reg s.dev) (reg t.dev) × (t.calib ≡ s.calib))
          Fail
          (write_reg B 0xE0 0xB6 s)
  unfolding write_reg on_bus
  reset-Ensures s =
      to_err_bus-Ensures _ (B.write_reg 0xE0 0xB6 s.dev).0 (B.write_reg 0xE0 0xB6 s.dev).1 s
        (R.reset_lem s.dev)

  -- An error: the bus failed, or the chip id is another one.
  abbrev pub StartFails : (ℕ → ℕ) → ℤ → Type 0
  StartFails f c = ((c ≡ err_bus) × Fails) ⊎ ((c ≡ err_chip_id) × (f 0xD0 ≢ 0x60))

  -- The sensor is set up: its calibration is read and it sleeps, with an oversampling of 1 for the
  -- humidity, the temperature and the pressure.
  pub record IsSetUp (f : ℕ → ℕ) (t : Sensor B.Dev) : Type 0 where
    pub id : f 0xD0 ≡ 0x60
    pub calib : t.calib ≡ parse_calib (bytes_from f 0x88 26) (bytes_from f 0xE1 7)
    pub ctrl_hum : reg t.dev 0xF2 ≡ 0x01
    pub config : reg t.dev 0xF5 ≡ 0x00
    pub ctrl_meas : reg t.dev 0xF4 ≡ 0x24

  check_id-Ensures :
      (s : Sensor B.Dev)
      → Ensures
          (λ u t. (reg s.dev 0xD0 ≡ 0x60) × (reg t.dev ≡ reg s.dev))
          (λ c t. StartFails (reg s.dev) c)
          (check_id B s)
  unfolding check_id
  check_id-Ensures s =
      bind-Ensures _ _ _ (read_regs B 0xD0 1) _ s
        (weaken _ _ _ _ (read_regs B 0xD0 1) s
          (read_regs-Ensures 0xD0 1 s (omega arith) (omega arith) (omega arith) (omega arith))
          (λ bs t p. p.0) (λ c t f. inl f))
        (λ bs t (e, same). elim (ℕ_discrete (reg s.dev 0xD0) 0x60) [
          | yes is ↦ rw (e, is) (refl, same)
          | no not ↦ rw (e, ==_ne _ 0x60 not) (inr (refl, not))
        ])

  delay_ms-Ensures :
      (f : ℕ → ℕ) (t : Sensor B.Dev)
      → SameFixed f (reg t.dev)
      → Ensures (λ u v. SameFixed f (reg v.dev)) (λ c v. StartFails f c) (delay_ms B 5 t)
  unfolding delay_ms
  delay_ms-Ensures f t fixed r is = R.delay_lem 5 t.dev r is ∙ fixed r is

  -- The three writes at the end.
  configure-Ensures :
      (s : Sensor B.Dev)
      → Ensures
          (λ u t.
            (reg t.dev 0xF2 ≡ 0x01)
            × (reg t.dev 0xF5 ≡ 0x00)
            × (reg t.dev 0xF4 ≡ 0x24)
            × (t.calib ≡ s.calib))
          (λ c t. (c ≡ err_bus) × Fails)
          ((do write_reg B 0xF2 0x01; write_reg B 0xF5 0x00; write_reg B 0xF4 0x24) s)
  configure-Ensures s =
      bind-Ensures _ _ _ (write_reg B 0xF2 0x01) _ s
        (write_reg-Ensures 0xF2 0x01 s (inl (omega arith)))
        (λ _ t ((hum, _), kept).
          bind-Ensures _ _ _ (write_reg B 0xF5 0x00) _ t
            (write_reg-Ensures 0xF5 0x00 t (inr (inr (omega arith))))
            (λ _ t' ((conf, others), kept').
              weaken _ _ _ _ (write_reg B 0xF4 0x24) t'
                (write_reg-Ensures 0xF4 0x24 t' (inr (inl (omega arith))))
                (λ _ t'' ((meas, others'), kept''). (
                  others' 0xF2 (omega arith) ∙ (others 0xF2 (omega arith) ∙ hum),
                  others' 0xF5 (omega arith) ∙ conf,
                  meas,
                  kept'' ∙ (kept' ∙ kept),
                ))
                (λ c t'' f. f)))

  -- Once the id is checked.
  calibrate-Ensures :
      (f : ℕ → ℕ) (s : Sensor B.Dev)
      → SameFixed f (reg s.dev)
      → f 0xD0 ≡ 0x60
      → Ensures
          (λ u t. IsSetUp f t)
          (λ c t. StartFails f c)
          ((do
            calib1 ← read_regs B 0x88 26
            calib2 ← read_regs B 0xE1 7
            λ s. (ok tt, record s { calib = parse_calib calib1 calib2 })
            write_reg B 0xF2 0x01
            write_reg B 0xF5 0x00
            write_reg B 0xF4 0x24)
            s)
  calibrate-Ensures f s fixed id =
      bind-Ensures (λ bs t. (bs ≡ bytes_from f 0x88 26) × (reg t.dev ≡ reg s.dev)) _ _
        (read_regs B 0x88 26) _ s
        (weaken _ _ _ _ (read_regs B 0x88 26) s
          (read_regs-Ensures 0x88 26 s (omega arith) (omega arith) (omega arith) (omega arith))
          (λ bs t ((e, same), _). (
            e ∙ bytes_from-Fixed f (reg s.dev) 26 0x88 fixed (λ q lo hi. inr (inl (omega arith))),
            same,
          ))
          (λ c t fails. inl fails))
        (λ calib1 t (e1, same1).
          bind-Ensures (λ bs u. (bs ≡ bytes_from f 0xE1 7)) _ _ (read_regs B 0xE1 7) _ t
            (weaken _ _ _ _ (read_regs B 0xE1 7) t
              (read_regs-Ensures 0xE1 7 t (omega arith) (omega arith) (omega arith) (omega arith))
              (λ bs u ((e, _), _).
                e
                ∙ (ap (λ g. bytes_from g 0xE1 7) same1
                    ∙ bytes_from-Fixed f (reg s.dev) 7 0xE1 fixed
                        (λ q lo hi. inr (inr (omega arith)))))
              (λ c u fails. inl fails))
            (λ calib2 u e2.
              weaken _ _ _ _
                (do write_reg B 0xF2 0x01; write_reg B 0xF5 0x00; write_reg B 0xF4 0x24)
                (record u { calib = parse_calib calib1 calib2 })
                (configure-Ensures (record u { calib = parse_calib calib1 calib2 }))
                (λ _ v (hum, conf, meas, kept). record {
                  id = id;
                  calib = rw (e1, e2) at kept;
                  ctrl_hum = hum;
                  config = conf;
                  ctrl_meas = meas;
                })
                (λ c v fails. inl fails)))

  -- `bme280_init` on a sensor that keeps to its data sheet returns BME280_OK only if the chip id is
  -- that of the BME280; then the calibration data is that of the sensor's registers, and the sensor
  -- sleeps with an oversampling of 1 for humidity, pressure and temperature and no filter. It returns
  -- BME280_ERR_CHIP_ID only if the id is another one, and BME280_ERR_BUS only if the bus fails.
  pub init-IsSetUp :
      (s : Sensor B.Dev)
      → Ensures (λ u t. IsSetUp (reg s.dev) t) (λ c t. StartFails (reg s.dev) c) (init B s)
  unfolding init
  init-IsSetUp s =
      bind-Ensures (λ _ t. SameFixed f (reg t.dev)) _ _ (write_reg B 0xE0 0xB6) _ s
        (weaken _ _ _ _ (write_reg B 0xE0 0xB6) s (reset-Ensures s) (λ _ t p. p.0)
          (λ c t fails. inl fails))
        (λ _ t fixed.
          bind-Ensures (λ _ u. SameFixed f (reg u.dev)) _ _ (delay_ms B 5) _ t
            (delay_ms-Ensures f t fixed)
            (λ _ u fixed'.
              bind-Ensures (λ _ v. SameFixed f (reg v.dev) × (f 0xD0 ≡ 0x60)) _ _ (check_id B) _ u
                (weaken _ _ _ _ (check_id B) u (check_id-Ensures u)
                  (λ _ v (id, same). (rw same fixed', sym (fixed' 0xD0 (inl refl)) ∙ id))
                  (λ c v fails. rw (fixed' 0xD0 (inl refl)) at fails))
                (λ _ v (fixed'', id). calibrate-Ensures f v fixed'' id)))
    where
      f : ℕ → ℕ
      f = reg s.dev
