-- ===== src/Sampler.antt =====
-- firmware/main/sampler.c: one sample in every interval, from the sensor to the log store.
-- The sensor and the store are those that `sampler_init` is handed; `none` is a NULL sensor.
pub mod Laws
pub mod Tests
use s3_bme.Base.{
  ℕ, ◌+◌, ◌-◌, ◌%◌, ◌^◌, ltb, if◌then◌else◌, ◌&&◌, Bool, true, false, Option, none, some, u32,
}
use s3_bme.Base.Int.{ℤ, pos, negsuc, ltb_ℤ}
use s3_bme.Base.Result.{Result, ok, err, hang}
use s3_bme.LogRecord.{LogRecord}
use s3_bme.Flash.{Flash}
use s3_bme.LogStore
use s3_bme.LogStore.{Store}
use s3_bme.Bme280
use s3_bme.Bme280.Driver
use s3_bme.Bme280.Driver.{Bus, Sensor}

unfoldable pub clamp_i16 : ℤ → ℤ
clamp_i16 v =
    if ltb_ℤ (pos 32767) v then pos 32767 else if ltb_ℤ v (negsuc 32767) then negsuc 32767 else v

unfoldable pub clamp_u16 : ℕ → ℕ
clamp_u16 v = if ltb 65535 v then 65535 else v

-- The static variables, with the sensor and the store behind the pointers.
pub record Sampler (Sense Dev : Type 0) : Type 0 where
  pub sensor : Option (Sensor Sense)
  pub store : Store Dev
  pub interval_s : ℕ
  pub sensor_ok : Bool
  pub store_ok : Bool
  pub has_sampled : Bool
  pub last_sample_s : ℕ

-- The record that a tick makes of a reading.
unfoldable pub record_of : Bme280.Reading → ℕ → Bool → ℕ → LogRecord
record_of r timestamp time_valid boot_id = record {
  timestamp = timestamp;
  temp_centi = clamp_i16 r.temp_centi;
  hum_centi = clamp_u16 r.hum_centi;
  pressure_pa = r.pressure_pa;
  flags = if time_valid then 1 else 0;
  boot_id = boot_id;
}

unfoldable pub is_ok : {A : Type 0} → Result A → Bool
is_ok (ok a) = true
is_ok (err c) = false
is_ok hang = false

module _ {Sense Dev : Type 0} where
  unfoldable pub init : Option (Sensor Sense) → Store Dev → ℕ → Sampler Sense Dev
  init sensor store interval_s = record {
    sensor = sensor;
    store = store;
    interval_s = interval_s;
    sensor_ok = elim sensor [ none ↦ false | some s ↦ true ];
    store_ok = true;
    has_sampled = false;
    last_sample_s = 0;
  }

  unfoldable pub set_interval : ℕ → Sampler Sense Dev → Sampler Sense Dev
  set_interval interval_s m = record m { interval_s = interval_s }

  -- The early return of `sampler_tick`, with the difference of two uint32_t.
  unfoldable pub is_early : ℕ → Sampler Sense Dev → Bool
  is_early uptime_s m =
      m.has_sampled && ltb ((uptime_s + 2 ^ 32 - m.last_sample_s) % 2 ^ 32) m.interval_s

module _ (B : Bus) (F : Flash) where
  -- The tick from the result of `bme280_read` on: a record is made of a reading and appended.
  unfoldable pub store_reading :
      Result Bme280.Reading → ℕ → Bool → ℕ → Sampler B.Dev F.Dev → Sampler B.Dev F.Dev
  store_reading (ok r) timestamp time_valid boot_id m =
      let (done, store') = LogStore.append F (record_of r timestamp time_valid boot_id) m.store in
      record m { sensor_ok = true; store = store'; store_ok = is_ok done }
  store_reading (err c) timestamp time_valid boot_id m = record m { sensor_ok = false }
  store_reading hang timestamp time_valid boot_id m = record m { sensor_ok = false }

  unfoldable pub sample : Sensor B.Dev → ℕ → Bool → ℕ → Sampler B.Dev F.Dev → Sampler B.Dev F.Dev
  sample sensor timestamp time_valid boot_id m =
      let (found, sensor') = Driver.read B sensor in
      store_reading found timestamp time_valid boot_id (record m { sensor = some sensor' })

  unfoldable pub tick_due :
      Option (Sensor B.Dev) → ℕ → Bool → ℕ → Sampler B.Dev F.Dev → Sampler B.Dev F.Dev
  tick_due none timestamp time_valid boot_id m = record m { sensor_ok = false }
  tick_due (some sensor) timestamp time_valid boot_id m =
      sample sensor timestamp time_valid boot_id m

  -- `sampler_tick`
  unfoldable pub tick : ℕ → ℕ → Bool → ℕ → Sampler B.Dev F.Dev → Sampler B.Dev F.Dev
  tick uptime_s timestamp time_valid boot_id m =
      if is_early uptime_s m
      then m
      else tick_due m.sensor timestamp time_valid boot_id
          (record m { has_sampled = true; last_sample_s = uptime_s })
