-- ===== src/Device/Start/Tests.antt =====
-- A start of the device on a flash with one record, an empty NVS and a sensor in memory.
use s3_bme.Base.{◌≡◌, refl, arith, true, none, some, List, [], ◌∷◌, codes}
use s3_bme.Base.Result.{ok}
use s3_bme.LogRecord.{LogRecord}
use s3_bme.Flash.Sim.{sim, sim_nor}
use s3_bme.LogStore.Tests.{one, store, store-Represents}
use s3_bme.Settings
use s3_bme.Settings.Sim.{nvs, empty_part}
use s3_bme.Clock.{unset}
use s3_bme.Wifi
use s3_bme.Wifi.Start
use s3_bme.Wifi.Invariant.{init-IsConsistent}
use s3_bme.Web.{web_start}
use s3_bme.StatusLed.{Rmt, fresh}
use s3_bme.SpiBus.{spi_bus}
use s3_bme.SpiBus.Sim.{spi}
use s3_bme.SpiBus.Tests.{registers, sensor}
use s3_bme.Device.{State, empty_reader}
use s3_bme.Device.Invariant.{IsValidFor}
use s3_bme.Device.Rounds.{Happening, request, happen_all}
use s3_bme.Device.Rounds
use s3_bme.Device.Start.{Power, running, app_main}
use s3_bme.Device.Start.Restart.{settings_at, app_main-IsValid}

abbrev rmt : Rmt
rmt = record {
  Dev = Unit {0};
  new_tx_channel = λ c d. (ok tt, d);
  new_bytes_encoder = λ c d. (ok tt, d);
  enable = λ d. (ok tt, d);
}

abbrev device : State (spi_bus spi) sim nvs
device = record {
  sampler = record {
    sensor = some sensor;
    store = store;
    interval_s = 60;
    sensor_ok = true;
    store_ok = true;
    has_sampled = true;
    last_sample_s = 0;
  };
  settings = record { dev = empty_part; interval_s = 60; boot_id = 7 };
  clock = unset;
  wifi = (Start.init (λ c. true) none Wifi.boot).1;
  led = fresh;
  timer_us = 5_000_000;
  now = 0;
  answers = λ c. true;
}

device-IsValidFor : IsValidFor (spi_bus spi) sim nvs sim_nor one device
device-IsValidFor = record {
  log_holds = store-Represents;
  boot_id_u8 = omega arith;
  wifi_consistent = init-IsConsistent (λ c. true) none;
}

abbrev happenings : List Happening
happenings =
    Rounds.input (codes "{\"cmd\":\"ping\"}\n") ∷ request true (codes "cmd=set_time&epoch=9") ∷ []

abbrev power : Power spi sim nvs rmt
power = record {
  spi = registers;
  flash = (happen_all (spi_bus spi) sim nvs happenings (empty_reader, device)).1.sampler.store.dev;
  nvs = empty_part;
  rmt = tt;
  timer_us = 0;
  now = 0;
  has_partition = true;
  has_usb = true;
  has_web = true;
  answers = λ c. true;
}

settings_start : (settings_at spi sim nvs rmt sim_nor power).0 ≡ ok tt
settings_start = unfold Settings.init in refl

app_main-IsValid_example :
    (log : List LogRecord) × IsValidFor
      (spi_bus spi)
      sim
      nvs
      sim_nor
      log
      (happen_all (spi_bus spi) sim nvs happenings (empty_reader, device)).1
    × ((y : State (spi_bus spi) sim nvs) × (app_main spi sim nvs rmt power
          ≡ running y (web_start true) (codes "\n" ∷ []))
        × IsValidFor (spi_bus spi) sim nvs sim_nor log y)
app_main-IsValid_example =
    app_main-IsValid spi sim nvs rmt sim_nor happenings empty_reader device power
      (one, device-IsValidFor) refl settings_start refl refl refl
