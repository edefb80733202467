-- ===== src/Device.antt =====
-- firmware/main/app-main.c: the state of the firmware, the operations that the protocol is given,
-- the start-up and the main loop. The USB driver hands over bytes and takes texts; the lock is held
-- around each command and each tick, so that they are steps one after another.
pub mod Requests
pub mod Lines
pub mod Interval
pub mod Invariant
pub mod Rounds
pub mod Start
mod Tests
use s3_bme.Base.{
  ℕ, zero, suc, ◌+◌, ◌-◌, ◌/◌, ltb, leb, ◌==◌, if◌then◌else◌, ◌&&◌, ◌||◌, not, Bool, true, false,
  Option, none, some, List, [], ◌∷◌, ◌++◌, length, take, c_string, u32,
}
use s3_bme.Base.Int
use s3_bme.Base.Int.{ℤ, pos, negsuc}
use s3_bme.Base.Result.{Result, ok, err, hang, M, or_code}
use s3_bme.Flash.{Flash}
use s3_bme.LogStore
use s3_bme.LogStore.{Store}
use s3_bme.Bme280
use s3_bme.Bme280.Driver
use s3_bme.Bme280.Driver.{Bus, Sensor}
use s3_bme.Sampler
use s3_bme.Sampler.{Sampler}
use s3_bme.Settings
use s3_bme.Settings.{Nvs, Settings}
use s3_bme.Clock
use s3_bme.Clock.{Clock}
use s3_bme.Wifi
use s3_bme.Wifi.{Wifi, Call, Answers}
use s3_bme.StatusLed
use s3_bme.StatusLed.{Led}
use s3_bme.Protocol.{Ops, Conn, handle_line, max_line}

-- The objects of the firmware. The sensor and the store are those behind the pointers of the
-- sampler. `timer_us` and `now` are what the timer and `time` return, `answers` what ESP-IDF does.
pub record Device (Sense Dev Part : Type 0) : Type 0 where
  pub sampler : Sampler Sense Dev
  pub settings : Settings Part
  pub clock : Clock
  pub wifi : Wifi
  pub led : Led
  pub timer_us : ℕ
  pub now : ℕ
  pub answers : Answers

-- The answers of ESP-IDF, with that of `settings_set_wifi_credentials` in its place.
abbrev pub with_stored : Bool → Answers → Answers
with_stored done answers Call.store_credentials = done
with_stored done answers c = answers c

-- `line`, `len` and `overflow` of the main loop.
pub record Reader : Type 0 where
  pub line : List ℕ
  pub overflow : Bool

abbrev pub empty_reader : Reader
empty_reader = record { line = []; overflow = false }

abbrev pub is_end : ℕ → Bool
is_end c = c == 10 || c == 13

-- One byte of the input: the line that it ends, if it ends one, and the reader after it.
unfoldable pub feed : ℕ → Reader → Option (List ℕ) × Reader
feed c r =
    if is_end c
    then (if ltb 0 (length r.line) && not r.overflow then some r.line else none, empty_reader)
    else if ltb (length r.line) (max_line - 1)
    then (none, record r { line = r.line ++ (c ∷ []) })
    else (none, record r { overflow = true })

module _ (B : Bus) (F : Flash) (N : Nvs) where
  abbrev pub State : Type 0
  State = Device B.Dev F.Dev N.Dev

  -- `op_read_now`, on the sensor that is there.
  pub read_sensor : Option (Sensor B.Dev) → State → Result Bme280.Reading × State
  read_sensor none x = (err (negsuc 0), x)
  read_sensor (some sensor) x =
      let (r, sensor') = Driver.read B sensor in
      let m = x.sampler in
      (or_code (negsuc 0) r, record x { sampler = record m { sensor = some sensor' } })

  pub op_read_now : M State Bme280.Reading
  unfolding read_sensor
  op_read_now x = read_sensor x.sampler.sensor x

  -- `op_set_interval_s`, behind the call of the settings.
  pub interval_set : Result (Unit {0}) → ℕ → State → Result (Unit {0}) × State
  interval_set (ok u) s x = (ok tt, record x { sampler = Sampler.set_interval s x.sampler })
  interval_set (err c) s x = (err (negsuc 0), x)
  interval_set hang s x = (hang, x)

  pub op_set_interval_s : ℕ → M State (Unit {0})
  unfolding interval_set
  op_set_interval_s s x =
      let (r, settings') = Settings.set_interval_s N s x.settings in
      interval_set r s (record x { settings = settings' })

  pub op_set_wifi : List ℕ → List ℕ → M State (Unit {0})
  op_set_wifi ssid password x =
      let (r, settings') = Settings.set_wifi_credentials N ssid password x.settings in
      let (done, wifi') =
        Wifi.set_credentials (with_stored (Sampler.is_ok r) x.answers) ssid password x.wifi in
      (if done then ok tt else err (negsuc 1), record x { settings = settings'; wifi = wifi' })

  pub op_set_time : ℕ → State → State
  op_set_time epoch x = record x { clock = Clock.set_time epoch x.clock }

  -- `g_ops`
  abbrev pub ops : Ops F
  ops = record {
    Ctx = State;
    store = λ x. x.sampler.store;
    put_store = λ s x. let m = x.sampler in record x { sampler = record m { store = s } };
    boot_id = λ x. x.settings.boot_id;
    uptime_s = λ x. Clock.uptime_s x.timer_us;
    time_valid = λ x. Clock.time_valid x.clock;
    set_time = op_set_time;
    read_now = op_read_now;
    sensor_ok = λ x. x.sampler.sensor_ok;
    store_ok = λ x. x.sampler.store_ok;
    interval_s = λ x. x.settings.interval_s;
    set_interval_s = op_set_interval_s;
    set_wifi = op_set_wifi;
    wifi_state = λ x. Wifi.wifi_state_name x.wifi.state;
    wifi_ip = λ len x. take (len - 1) (Wifi.shown_ip x.wifi);
    time_source = λ x. Clock.time_source x.clock;
  }

  -- The line that a byte ends is handled, as a C string.
  pub handle_fed : Option (List ℕ) → Conn State → Conn State
  handle_fed none c = c
  handle_fed (some line) c = handle_line F ops (c_string line) c

  pub read_bytes : List ℕ → Reader → Conn State → Reader × Conn State
  unfolding handle_fed
  read_bytes [] r c = (r, c)
  read_bytes (b ∷ bs) r c = let (fed, r') = feed b r in read_bytes bs r' (handle_fed fed c)

  -- The call of `sampler_tick` in the main loop.
  pub tick_device : State → State
  tick_device x = record x {
    sampler =
        Sampler.tick B F (Clock.uptime_s x.timer_us) (Clock.timestamp x.now x.timer_us x.clock)
          (Clock.time_valid x.clock) x.settings.boot_id x.sampler;
  }

  -- The LED at the end of a round, with the bytes that go to it.
  pub show_led : State → Option (List ℕ) × State
  show_led x =
      let (sent, led') =
        StatusLed.update
          (StatusLed.led_state x.sampler.sensor_ok x.sampler.store_ok x.wifi.state
            (Clock.time_valid x.clock))
          (u32 (x.timer_us / 1000)) x.led in
      (sent, record x { led = led' })

  -- One round of the main loop on the bytes that were read: the replies and the LED's bytes.
  pub round : List ℕ → Reader → State → List (List ℕ) × Option (List ℕ) × Reader × State
  unfolding read_bytes tick_device show_led
  round bytes r x =
      let (r', c) = read_bytes bytes r (record { ctx = x; out = [] }) in
      let (sent, x') = show_led (tick_device c.ctx) in (c.out, sent, r', x')

  -- The start of the log store: a store without an erased sector is cleared.
  pub clear_if_corrupt : Result (Unit {0}) → M (Store F.Dev) (Unit {0})
  clear_if_corrupt (ok u) s = (ok u, s)
  clear_if_corrupt (err c) s =
      if Int.eqb_ℤ c LogStore.err_corrupt then LogStore.clear F s else (err c, s)
  clear_if_corrupt hang s = (hang, s)

  pub open_store : M (Store F.Dev) (Unit {0})
  unfolding clear_if_corrupt
  open_store s = let (r, t) = LogStore.init F s in clear_if_corrupt r t
