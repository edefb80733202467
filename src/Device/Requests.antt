-- ===== src/Device/Requests.antt =====
-- What a request of the network does to the device.
use s3_bme.Base.{ℕ, ◌≡◌, ◌⊎◌, refl, true, false, Option, none, some, List}
use s3_bme.LogRecord.{LogRecord}
use s3_bme.Flash.{Flash, IsNor}
use s3_bme.LogStore.{Store}
use s3_bme.LogStore.Prims.{Same}
use s3_bme.LogStore.Prepare.{Holds, Same-Holds}
use s3_bme.Bme280.Driver.{Bus, Sensor}
use s3_bme.Settings.{Nvs}
use s3_bme.Clock
use s3_bme.Device.{State, ops, read_sensor, op_read_now, op_set_time}
use s3_bme.Web.{api_handler}
use s3_bme.Web.Safety.{Answered, get-Answered, post-Answered}

module _ (B : Bus) (F : Flash) (N : Nvs) {Fails : Type 0} (R : IsNor F Fails)
    (log : List LogRecord) where
  -- Nothing but the state of the sensor and of the flash chip differs, and the log is the same.
  pub record IsUntouched (x y : State B F N) : Type 0 where
    pub settings : y.settings ≡ x.settings
    pub clock : y.clock ≡ x.clock
    pub wifi : y.wifi ≡ x.wifi
    pub led : y.led ≡ x.led
    pub interval_s : y.sampler.interval_s ≡ x.sampler.interval_s
    pub sensor_ok : y.sampler.sensor_ok ≡ x.sampler.sensor_ok
    pub store_ok : y.sampler.store_ok ≡ x.sampler.store_ok
    pub has_sampled : y.sampler.has_sampled ≡ x.sampler.has_sampled
    pub last_sample_s : y.sampler.last_sample_s ≡ x.sampler.last_sample_s
    pub log_holds : Holds F R y.sampler.store log

  put_store-IsUntouched :
      (x y : State B F N) (s : Store F.Dev)
      → Same F R y.sampler.store s
      → IsUntouched x y
      → IsUntouched x ((ops B F N).put_store s y)
  put_store-IsUntouched x y s same h = record {
    settings = h.settings;
    clock = h.clock;
    wifi = h.wifi;
    led = h.led;
    interval_s = h.interval_s;
    sensor_ok = h.sensor_ok;
    store_ok = h.store_ok;
    has_sampled = h.has_sampled;
    last_sample_s = h.last_sample_s;
    log_holds = Same-Holds F R log same h.log_holds;
  }

  read_sensor-IsUntouched :
      (sensor : Option (Sensor B.Dev)) (x y : State B F N)
      → IsUntouched x y
      → IsUntouched x (read_sensor B F N sensor y).1
  unfolding read_sensor
  read_sensor-IsUntouched none x y h = h
  read_sensor-IsUntouched (some sensor) x y h = record {
    settings = h.settings;
    clock = h.clock;
    wifi = h.wifi;
    led = h.led;
    interval_s = h.interval_s;
    sensor_ok = h.sensor_ok;
    store_ok = h.store_ok;
    has_sampled = h.has_sampled;
    last_sample_s = h.last_sample_s;
    log_holds = h.log_holds;
  }

  read_now-IsUntouched :
      (x y : State B F N) → IsUntouched x y → IsUntouched x (op_read_now B F N y).1
  unfolding op_read_now
  read_now-IsUntouched x y h = read_sensor-IsUntouched y.sampler.sensor x y h

  -- On a device whose store stands for `log`, a GET request, whatever its query, is refused or
  -- answered in full, and leaves the settings, the time, the network, the sampling and the log as
  -- they were.
  pub get-IsUntouched :
      (query : List ℕ) (x : State B F N)
      → Holds F R x.sampler.store log
      → Answered F
          (ops B F N)
          false
          query
          x
          (IsUntouched x)
          (api_handler F (ops B F N) false query x)
  get-IsUntouched query x h =
      get-Answered F (ops B F N) R log (IsUntouched x) (λ y u. u.log_holds)
        (λ y s same u. put_store-IsUntouched x y s same u) (read_now-IsUntouched x) query x
        (record {
          settings = refl;
          clock = refl;
          wifi = refl;
          led = refl;
          interval_s = refl;
          sensor_ok = refl;
          store_ok = refl;
          has_sampled = refl;
          last_sample_s = refl;
          log_holds = h;
        })

-- A POST request, whatever its query, is refused or answered in full, and does no more than a call of
-- `clock_set_time`.
pub post-set_time :
    (B : Bus) (F : Flash) (N : Nvs) (query : List ℕ) (x : State B F N)
    → Answered F
        (ops B F N)
        true
        query
        x
        (λ y. (y ≡ x) ⊎ ((epoch : ℕ) × (y ≡ record x { clock = Clock.set_time epoch x.clock })))
        (api_handler F (ops B F N) true query x)
unfolding op_set_time
post-set_time B F N query x = post-Answered F (ops B F N) query x
