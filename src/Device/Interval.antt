-- ===== src/Device/Interval.antt =====
-- The interval of the settings and that of the sampler.
use s3_bme.Base.{ℕ, ◌≤◌, ◌<◌, ◌≡◌, ◌⊎◌, inl, inr, refl, arith, ltb, ◌||◌, Bool-cases, false}
use s3_bme.Base.Int.{negsuc}
use s3_bme.Base.Result.{Result, ok, err, hang, continue}
use s3_bme.Flash.{Flash}
use s3_bme.Bme280.Driver.{Bus}
use s3_bme.Sampler
use s3_bme.Settings
use s3_bme.Settings.{Nvs, Settings, on_nvs, interval_min, interval_max}
use s3_bme.Device.{State, op_set_interval_s, interval_set}

module _ (B : Bus) (F : Flash) (N : Nvs) where
  -- What a change of the interval to `s` leaves of the device `x`.
  abbrev pub IntervalSet : ℕ → State B F N → Result (Unit {0}) × State B F N → Type 0
  IntervalSet s x (r, y) =
      ((r ≡ ok tt) × (y.sampler ≡ Sampler.set_interval s x.sampler))
      ⊎ ((r ≡ err (negsuc 0)) × (y.sampler ≡ x.sampler))
      ⊎ (r ≡ hang)

  interval_set-IntervalSet :
      (r : Result (Unit {0})) (s : ℕ) (x y : State B F N)
      → y.sampler ≡ x.sampler
      → IntervalSet s x (interval_set B F N r s y)
        × ((interval_set B F N r s y).1.settings ≡ y.settings)
  unfolding interval_set
  interval_set-IntervalSet (ok u) s x y e = (inl (refl, rw e refl), refl)
  interval_set-IntervalSet (err c) s x y e = (inr (inl (refl, e)), refl)
  interval_set-IntervalSet hang s x y e = (inr (inr refl), refl)

  commit-interval_s :
      (r : Result (Unit {0})) (t : Settings N.Dev)
      → (continue r (λ u. on_nvs N N.commit) t).1.interval_s ≡ t.interval_s
  commit-interval_s (ok u) t = refl
  commit-interval_s (err c) t = refl
  commit-interval_s hang t = refl

  -- The interval in RAM is the new one, whether NVS takes it or not.
  set_interval_s-interval_s :
      (s : ℕ) (t : Settings N.Dev)
      → interval_min ≤ s
      → s ≤ interval_max
      → (Settings.set_interval_s N s t).1.interval_s ≡ s
  unfolding Settings.set_interval_s
  set_interval_s-interval_s s t lo hi =
      let fine : (ltb s interval_min || ltb interval_max s) ≡ false = ground arith in
      rw fine (commit-interval_s _ _)

  -- Setting the interval: a value out of range is refused with no change. One in range becomes the
  -- interval of the settings in each case; the sampler follows if NVS keeps it, and goes on with the
  -- old interval, with the reply of a value out of range, if NVS fails.
  pub op_set_interval_s-cases :
      (s : ℕ) (x : State B F N)
      → (((s < interval_min) ⊎ (interval_max < s))
          × (op_set_interval_s B F N s x ≡ (err (negsuc 0), x)))
        ⊎ ((interval_min ≤ s)
            × (s ≤ interval_max)
            × ((op_set_interval_s B F N s x).1.settings.interval_s ≡ s)
            × IntervalSet s x (op_set_interval_s B F N s x))
  unfolding op_set_interval_s
  op_set_interval_s-cases s x = elim (Bool-cases (ltb s interval_min || ltb interval_max s)) [
    | inl out ↦ inl (ground arith, unfold Settings.set_interval_s interval_set in rw out)
    | inr fine ↦
        let lo : interval_min ≤ s = ground arith in
        let hi : s ≤ interval_max = ground arith in
        let t = Settings.set_interval_s N s x.settings in
        let (cases, same) = interval_set-IntervalSet t.0 s x (record x { settings = t.1 }) refl in
        inr (lo, hi, rw same (set_interval_s-interval_s s x.settings lo hi), cases)
  ]
