-- ===== src/Bme280/Compensate/Humidity.antt =====
-- The ranges of a reading.
use s3_bme.Base.{ℕ, ◌^◌, ◌≤◌, ◌<◌, Bool, true, false, if◌then◌else◌, arith}
use s3_bme.Base.Int.{ℤ, to_u32-lt}
use s3_bme.Base.Int32.{shr}
use s3_bme.Bme280.{Calib}
use s3_bme.Bme280.Compensate.{t_fine_of, pressure, pressure_from, humidity_centi, compensate}

humidity_centi-le : (c : Calib) (raw : ℤ) → humidity_centi c raw ≤ 10000
unfolding humidity_centi shr
humidity_centi-le c raw = ground arith

-- The humidity of a reading is at most 100 %, whatever the sensor and its calibration say.
pub compensate-hum_centi :
    (c : Calib) (adc_t adc_p adc_h : ℤ) → (compensate c adc_t adc_p adc_h).hum_centi ≤ 10000
unfolding compensate
compensate-hum_centi c adc_t adc_p adc_h = humidity_centi-le c _

pressure_from-lt : (c : Calib) (var1 var2 adc_p : ℤ) → pressure_from c var1 var2 adc_p < 2 ^ 32
unfolding pressure_from
pressure_from-lt c var1 var2 adc_p = to_u32-lt _

pick-lt : (b : Bool) (p : ℕ) → p < 2 ^ 32 → (if b then 0 else p) < 2 ^ 32
pick-lt true p h = omega arith
pick-lt false p h = h

pressure-lt : (c : Calib) (t_fine adc_p : ℤ) → pressure c t_fine adc_p < 2 ^ 32
unfolding pressure
pressure-lt c t_fine adc_p = pick-lt _ _ (pressure_from-lt c _ _ adc_p)

-- A computed pressure is a value of its type.
pub compensate-pressure_pa :
    (c : Calib) (adc_t adc_p adc_h : ℤ) → (compensate c adc_t adc_p adc_h).pressure_pa < 2 ^ 32
unfolding compensate
compensate-pressure_pa c adc_t adc_p adc_h = pressure-lt c (t_fine_of c adc_t) adc_p
