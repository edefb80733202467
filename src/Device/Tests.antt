-- ===== src/Device/Tests.antt =====
-- The device at concrete inputs: a sensor that answers, a log with one record, an empty NVS.
use s3_bme.Base.{
  ℕ, ◌≤◌, ◌<◌, ◌≡◌, ◌⊎◌, refl, arith, true, false, some, List, [], ◌∷◌, ◌++◌, take, drop, codes,
}
use s3_bme.Base.Int.{negsuc}
use s3_bme.Base.Result.{err}
use s3_bme.Flash.Sim.{sim, sim_nor}
use s3_bme.LogStore.Prepare.{Holds}
use s3_bme.LogStore.Tests.{one, store-Represents}
use s3_bme.Bme280.Driver.Tests.{bus}
use s3_bme.Sampler.Tests.{sampler}
use s3_bme.Settings.{interval_min, interval_max}
use s3_bme.Settings.Sim.{nvs, empty_part}
use s3_bme.Clock
use s3_bme.Clock.{unset}
use s3_bme.Wifi
use s3_bme.StatusLed.{fresh}
use s3_bme.Protocol.{Conn, get_log, log_head, handle_line}
use s3_bme.Protocol.SetWifi.{Outcome, handle_line-set_wifi}
use s3_bme.Protocol.Rows.{rows}
use s3_bme.Protocol.Log.{get_log-rows}
use s3_bme.JsonMini.{get_string}
use s3_bme.Web.{api_handler}
use s3_bme.Web.Safety.{Answered}
use s3_bme.Device.{State, ops, empty_reader, op_set_interval_s}
use s3_bme.Device.Requests.{IsUntouched, get-IsUntouched, post-set_time}
use s3_bme.Wifi.Invariant.{IsConsistent}
use s3_bme.Device.Invariant.{IsValidFor, IsValid}
use s3_bme.Device.Rounds.{Happening, request, passes, happen_all, happen_all-IsValid}
use s3_bme.Device.Rounds
use s3_bme.Device.Lines.{Line, handled, Turns, joined, ending, rounds, serve, rounds-input}
use s3_bme.Device.Interval.{IntervalSet, op_set_interval_s-cases}

abbrev device : State (bus 0x60 0) sim nvs
device = record {
  sampler = sampler;
  settings = record { dev = empty_part; interval_s = 60; boot_id = 7 };
  clock = unset;
  wifi = Wifi.boot;
  led = fresh;
  timer_us = 5_000_000;
  now = 0;
  answers = λ c. true;
}

abbrev conn : Conn (State (bus 0x60 0) sim nvs)
conn = record { ctx = device; out = [] }

get-IsUntouched_example :
    Answered sim
      (ops (bus 0x60 0) sim nvs)
      false
      (codes "cmd=get_log&limit=5")
      device
      (IsUntouched (bus 0x60 0) sim nvs sim_nor one device)
      (api_handler sim (ops (bus 0x60 0) sim nvs) false (codes "cmd=get_log&limit=5") device)
get-IsUntouched_example =
    get-IsUntouched (bus 0x60 0) sim nvs sim_nor one (codes "cmd=get_log&limit=5") device
      store-Represents

post-set_time_example :
    Answered sim
      (ops (bus 0x60 0) sim nvs)
      true
      (codes "cmd=set_time&epoch=5")
      device
      (λ y.
        (y ≡ device)
        ⊎ ((epoch : ℕ) × (y ≡ record device { clock = Clock.set_time epoch device.clock })))
      (api_handler sim (ops (bus 0x60 0) sim nvs) true (codes "cmd=set_time&epoch=5") device)
post-set_time_example = post-set_time (bus 0x60 0) sim nvs (codes "cmd=set_time&epoch=5") device

op_set_interval_s-cases_example :
    (((30 < interval_min) ⊎ (interval_max < 30))
      × (op_set_interval_s (bus 0x60 0) sim nvs 30 device ≡ (err (negsuc 0), device)))
    ⊎ ((interval_min ≤ 30)
        × (30 ≤ interval_max)
        × ((op_set_interval_s (bus 0x60 0) sim nvs 30 device).1.settings.interval_s ≡ 30)
        × IntervalSet
            (bus 0x60 0)
            sim
            nvs
            30
            device
            (op_set_interval_s (bus 0x60 0) sim nvs 30 device))
op_set_interval_s-cases_example = op_set_interval_s-cases (bus 0x60 0) sim nvs 30 device

-- Two lines that are no commands, with an empty one between them.
abbrev lines : List Line
lines = (codes "ab", 13) ∷ ([], 10) ∷ (codes "?", 10) ∷ []

-- They come in two rounds, a second apart, of which the first ends in the last line.
abbrev turns : Turns (bus 0x60 0) sim nvs ℕ
turns =
    ((λ x. x), codes "ab" ++ (13 ∷ 10 ∷ codes "?"))
    ∷ ((λ x. record x { timer_us = 6_000_000 }), 10 ∷ [])
    ∷ []

rounds-input_example :
    (joined (bus 0x60 0) sim nvs (ending (bus 0x60 0) sim nvs turns empty_reader) ≡ handled lines)
    × (rounds (bus 0x60 0) sim nvs turns empty_reader device
        ≡ serve (bus 0x60 0) sim nvs (ending (bus 0x60 0) sim nvs turns empty_reader) device)
rounds-input_example =
    rounds-input (bus 0x60 0) sim nvs lines turns device
      ((refl, (refl, tt)), refl, (tt, refl, ((refl, tt), refl, tt))) refl

get_log-rows_example :
    (n : ℕ) × (n ≤ 5)
    × ((n ≡ 5) ⊎ ⊥)
    × ((get_log sim (ops (bus 0x60 0) sim nvs) 0 5 conn).out
        ≡ [] ++ (log_head 1 0 ∷ (rows true (take n (drop 0 one)) ++ (codes "]}\n" ∷ []))))
    × Holds sim sim_nor (get_log sim (ops (bus 0x60 0) sim nvs) 0 5 conn).ctx.sampler.store one
get_log-rows_example =
    get_log-rows sim (ops (bus 0x60 0) sim nvs) sim_nor one 0 5 conn (λ s x. refl) store-Represents
      (omega arith) (omega arith)

abbrev wifi_line : List ℕ
wifi_line = codes "{\"cmd\":\"set_wifi\",\"ssid\":\"home\",\"password\":\"12345678\"}"

handle_line-set_wifi_example :
    Outcome sim
      (ops (bus 0x60 0) sim nvs)
      wifi_line
      conn
      (handle_line sim (ops (bus 0x60 0) sim nvs) wifi_line conn)
handle_line-set_wifi_example =
    handle_line-set_wifi sim (ops (bus 0x60 0) sim nvs) wifi_line conn command
  where
    command : get_string wifi_line (codes "cmd") 32 ≡ some (codes "set_wifi")
    command = unfold get_string in refl

boot-IsConsistent : IsConsistent Wifi.boot
boot-IsConsistent = ground arith

device-IsValidFor : IsValidFor (bus 0x60 0) sim nvs sim_nor one device
device-IsValidFor = record {
  log_holds = store-Represents;
  boot_id_u8 = omega arith;
  wifi_consistent = boot-IsConsistent;
}

-- A round with a command, a request, a minute, and a round in which a sample is due.
abbrev happenings : List Happening
happenings =
    Rounds.input wifi_line
    ∷ request false (codes "cmd=get_log")
    ∷ passes 65_000_000 0 (λ c. true)
    ∷ Rounds.input []
    ∷ []

happen_all-IsValid_example :
    IsValid
      (bus 0x60 0)
      sim
      nvs
      sim_nor
      (happen_all (bus 0x60 0) sim nvs happenings (empty_reader, device)).1
happen_all-IsValid_example =
    happen_all-IsValid (bus 0x60 0) sim nvs sim_nor happenings empty_reader device
      (one, device-IsValidFor)
