-- ===== src/Device/Start.antt =====
-- firmware/main/app-main.c: `app_main` up to its loop, on what is there when the power comes.
pub mod Restart
mod Tests
use s3_bme.Base.{
  codes, ℕ, ◌&&◌, if◌then◌else◌, Bool, true, false, Option, none, some, List, [], ◌∷◌,
}
use s3_bme.Base.Int.{pos}
use s3_bme.Base.Result.{Result, ok, err, hang, is_done}
use s3_bme.Flash.{Flash}
use s3_bme.LogStore.{Store}
use s3_bme.Bme280.{Calib}
use s3_bme.Bme280.Driver
use s3_bme.Bme280.Driver.{Sensor}
use s3_bme.Sampler
use s3_bme.Settings
use s3_bme.Settings.{interval_default, Nvs, Settings}
use s3_bme.Clock.{unset}
use s3_bme.Wifi.{Answers, boot}
use s3_bme.Wifi.Start
use s3_bme.Wifi.Start.{Ending, returns, aborts, reads_credentials}
use s3_bme.Web.{Route, web_start}
use s3_bme.StatusLed
use s3_bme.StatusLed.{Rmt, no_led}
use s3_bme.SpiBus.{SpiMaster, spi_bus, spi_bus_init}
use s3_bme.Device.{State, open_store}

-- The states of the peripherals, what the timer and the clock return, whether the partition is
-- found, the USB driver can be installed and the web server started, and what ESP-IDF answers to the calls for the WiFi.
pub record Power (P : SpiMaster) (F : Flash) (N : Nvs) (R : Rmt) : Type 0 where
  pub spi : P.Dev
  pub flash : F.Dev
  pub nvs : N.Dev
  pub rmt : R.Dev
  pub timer_us : ℕ
  pub now : ℕ
  pub has_partition : Bool
  pub has_usb : Bool
  pub has_web : Bool
  pub answers : Answers

-- The main loop runs on a device, with the routes of the web server and the texts that were written
-- to USB, or `app_main` has returned, or ESP_ERROR_CHECK has stopped it.
pub data Started (X : Type 0) : Type 0 where
  running : X → Option (List Route) → List (List ℕ) → Started X
  returned : Started X
  aborted : Started X

-- The calibration data is zeros.
abbrev pub no_calib : Calib
no_calib = record {
  dig_t1 = 0;
  dig_t2 = pos 0;
  dig_t3 = pos 0;
  dig_p1 = 0;
  dig_p2 = pos 0;
  dig_p3 = pos 0;
  dig_p4 = pos 0;
  dig_p5 = pos 0;
  dig_p6 = pos 0;
  dig_p7 = pos 0;
  dig_p8 = pos 0;
  dig_p9 = pos 0;
  dig_h1 = 0;
  dig_h2 = pos 0;
  dig_h3 = 0;
  dig_h4 = pos 0;
  dig_h5 = pos 0;
  dig_h6 = pos 0;
}

abbrev pub credentials_of : Result (Option (List ℕ × List ℕ)) → Option (List ℕ × List ℕ)
credentials_of (ok c) = c
credentials_of (err e) = none
credentials_of hang = none

module _ (P : SpiMaster) (F : Flash) (N : Nvs) (R : Rmt) where
  -- `g_sensor_ptr` after `bme280_init` returned `r`.
  pub sensor_found : Result (Unit {0}) → Sensor P.Dev → Option (Sensor P.Dev)
  sensor_found (ok u) s = some s
  sensor_found (err c) s = none
  sensor_found hang s = none

  pub sensor_on_bus : Result (Unit {0}) → P.Dev → Option (Sensor P.Dev)
  unfolding sensor_found
  sensor_on_bus (ok u) d =
      let (r, s) = Driver.init (spi_bus P) (record { dev = d; calib = no_calib }) in
      sensor_found r s
  sensor_on_bus (err c) d = none
  sensor_on_bus hang d = none

  pub find_sensor : P.Dev → Option (Sensor P.Dev)
  unfolding sensor_on_bus
  find_sensor d = let (r, d') = spi_bus_init P d in sensor_on_bus r d'

  -- The credentials are read if the calls of `wifi_init` in front of that succeed.
  pub stored_credentials : Answers → Settings N.Dev → Option (List ℕ × List ℕ) × Settings N.Dev
  stored_credentials answers s =
      let (r, s') = Settings.wifi_credentials N 33 64 s in
      if reads_credentials answers then (credentials_of r, s') else (none, s)

  -- From the log store on, with the settings `s`.
  pub start_parts : Power P F N R → Settings N.Dev → Ending × State (spi_bus P) F N
  unfolding find_sensor stored_credentials
  start_parts b s =
      let sensor = find_sensor b.spi in
      let (rc, store) = open_store (spi_bus P) F N (record { dev = b.flash; head = 0; tail = 0 }) in
      let (made, (rmt', led)) = StatusLed.init R (b.rmt, no_led) in
      let (credentials, s') = stored_credentials b.answers s in
      let (up, wifi) = Start.init b.answers credentials boot in
      (
        up,
        record {
          sampler = Sampler.init sensor store s.interval_s;
          settings = s';
          clock = unset;
          wifi = wifi;
          led = led;
          timer_us = b.timer_us;
          now = b.now;
          answers = b.answers;
        },
      )

  -- `app_main` once `wifi_init` has ended.
  pub after_wifi : Bool → Ending × State (spi_bus P) F N → Started (State (spi_bus P) F N)
  after_wifi has_web (returns up, x) = running x (web_start has_web) (codes "\n" ∷ [])
  after_wifi has_web (aborts, x) = aborted

  -- `app_main` once `settings_init` has returned `r`.
  pub start_checked :
      Power P F N R → Result (Unit {0}) → Settings N.Dev → Started (State (spi_bus P) F N)
  unfolding start_parts after_wifi
  start_checked b (ok u) s =
      if b.has_partition
      then (if b.has_usb then after_wifi b.has_web (start_parts b s) else aborted)
      else returned
  start_checked b (err c) s = aborted
  start_checked b hang s = aborted

  pub app_main : Power P F N R → Started (State (spi_bus P) F N)
  unfolding start_checked
  app_main b =
      let (r, s) =
        Settings.init N (record { dev = b.nvs; interval_s = interval_default; boot_id = 0 }) in
      start_checked b r s
