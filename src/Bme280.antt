-- ===== src/Bme280.antt =====
-- firmware/components/bme280: the calibration data of the BME280 sensor and its readings.
-- `Compensate` is bme280-compensate.c, `Driver` is bme280.c.
pub mod Compensate
pub mod Driver
pub mod Registers
use s3_bme.Base.{ℕ}
use s3_bme.Base.Int.{ℤ}

-- `bme280_calib_t`
pub record Calib : Type 0 where
  pub dig_t1 : ℕ
  pub dig_t2 : ℤ
  pub dig_t3 : ℤ
  pub dig_p1 : ℕ
  pub dig_p2 : ℤ
  pub dig_p3 : ℤ
  pub dig_p4 : ℤ
  pub dig_p5 : ℤ
  pub dig_p6 : ℤ
  pub dig_p7 : ℤ
  pub dig_p8 : ℤ
  pub dig_p9 : ℤ
  pub dig_h1 : ℕ
  pub dig_h2 : ℤ
  pub dig_h3 : ℕ
  pub dig_h4 : ℤ
  pub dig_h5 : ℤ
  pub dig_h6 : ℤ

-- `bme280_reading_t`
pub record Reading : Type 0 where
  pub temp_centi : ℤ
  pub pressure_pa : ℕ
  pub hum_centi : ℕ
