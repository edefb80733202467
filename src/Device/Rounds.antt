-- ===== src/Device/Rounds.antt =====
-- The device over any course of events: rounds of the main loop, requests, the network, the time.
use s3_bme.Base.{
  ℕ, ◌≡◌, ◌⊎◌, inl, inr, Bool, true, false, leb, length, Option, none, some, List, [], ◌∷◌,
}
use s3_bme.LogRecord.{LogRecord}
use s3_bme.Flash.{Flash, IsNor}
use s3_bme.LogStore.Prepare.{Holds}
use s3_bme.Bme280.Driver.{Bus}
use s3_bme.Settings.{Nvs}
use s3_bme.Clock
use s3_bme.Clock.Laws.{timestamp_lt}
use s3_bme.Clock.{ntp, mark_valid}
use s3_bme.Wifi
use s3_bme.Wifi.Invariant.{step-IsConsistent}
use s3_bme.Sampler
use s3_bme.Sampler.{Sampler, is_early}
use s3_bme.Sampler.Laws.{Sampled, Noted, tick-Sampled}
use s3_bme.Protocol.{Conn}
use s3_bme.Web.{Response, api_handler, serve_line, query_size}
use s3_bme.Protocol.SetWifi.{by_test}
use s3_bme.Device.{State, Reader, feed, ops, handle_fed, read_bytes, tick_device, show_led, round}
use s3_bme.Device.Invariant.{IsValidFor, IsValid, handle_line-IsValid}

module _ (B : Bus) (F : Flash) (N : Nvs) (R : IsNor F ⊥) where
  handle_fed-IsValid :
      (fed : Option (List ℕ)) (c : Conn (State B F N))
      → IsValid B F N R c.ctx
      → IsValid B F N R (handle_fed B F N fed c).ctx
  unfolding handle_fed
  handle_fed-IsValid none c h = h
  handle_fed-IsValid (some line) c h = handle_line-IsValid B F N R _ c h

  read_bytes-IsValid :
      (bs : List ℕ) (r : Reader) (c : Conn (State B F N))
      → IsValid B F N R c.ctx
      → IsValid B F N R (read_bytes B F N bs r c).1.ctx
  unfolding read_bytes
  read_bytes-IsValid [] r c h = h
  read_bytes-IsValid (b ∷ bs) r c h =
      read_bytes-IsValid bs (feed b r).1 (handle_fed B F N (feed b r).0 c)
        (handle_fed-IsValid (feed b r).0 c h)

  -- The log after a tick: as it was, or with a record pushed.
  tick-Holds :
      (x : State B F N) (log : List LogRecord)
      → IsValidFor B F N R log x
      → (log' : List LogRecord) × Holds F R (tick_device B F N x).sampler.store log'
  unfolding tick_device
  tick-Holds x log h = held (
      tick-Sampled B F R stamp (Clock.time_valid x.clock) x.settings.boot_id
        (timestamp_lt x.now x.timer_us x.clock) h.boot_id_u8 log (Clock.uptime_s x.timer_us)
        x.sampler h.log_holds)
    where
      stamp : ℕ
      stamp = Clock.timestamp x.now x.timer_us x.clock

      after : Sampler B.Dev F.Dev
      after =
          Sampler.tick B F (Clock.uptime_s x.timer_us) stamp (Clock.time_valid x.clock)
            x.settings.boot_id x.sampler

      held :
          ((is_early (Clock.uptime_s x.timer_us) x.sampler ≡ true) × (after ≡ x.sampler))
            ⊎ ((is_early (Clock.uptime_s x.timer_us) x.sampler ≡ false)
                × Noted B F R stamp
                    (Clock.time_valid x.clock)
                    x.settings.boot_id
                    (timestamp_lt x.now x.timer_us x.clock)
                    h.boot_id_u8
                    log
                    (Clock.uptime_s x.timer_us)
                    x.sampler
                    after
                × Sampled B F R stamp
                    (Clock.time_valid x.clock)
                    x.settings.boot_id
                    (timestamp_lt x.now x.timer_us x.clock)
                    h.boot_id_u8
                    log
                    x.sampler
                    after)
          → (log' : List LogRecord) × Holds F R after.store log'
      held (inl (early, same)) = (log, rw same h.log_holds)
      held (inr (due, noted, inl (no_sensor, none_after, flag, same, kept))) =
          (log, rw same h.log_holds)
      held (inr (due, noted, inr (s, is, s', inl (no_reading, flag, same, kept)))) =
          (log, rw same h.log_holds)
      held (inr (due, noted, inr (s, is, s', inr (r, found, flag, inl (stored, holds))))) =
          (_, holds)
      held (inr (due, noted, inr (s, is, s', inr (r, found, flag, inr (stored, lost))))) =
          absurd lost.failed

  tick_device-IsValid :
      (x : State B F N) → IsValid B F N R x → IsValid B F N R (tick_device B F N x)
  tick_device-IsValid x (log, h) =
      let (log', held) = tick-Holds x log h in
      (
        log',
        record {
          log_holds = held;
          boot_id_u8 = unfold tick_device in h.boot_id_u8;
          wifi_consistent = unfold tick_device in h.wifi_consistent;
        },
      )

  show_led-IsValid : (x : State B F N) → IsValid B F N R x → IsValid B F N R (show_led B F N x).1
  unfolding show_led
  show_led-IsValid x (log, h) = (
    log,
    record {
      log_holds = h.log_holds;
      boot_id_u8 = h.boot_id_u8;
      wifi_consistent = h.wifi_consistent;
    },
  )

  round-IsValid :
      (bytes : List ℕ) (r : Reader) (x : State B F N)
      → IsValid B F N R x
      → IsValid B F N R (round B F N bytes r x).3
  unfolding round
  round-IsValid bytes r x h =
      let c : Conn (State B F N) = record { ctx = x; out = [] } in
      show_led-IsValid _ (tick_device-IsValid _ (read_bytes-IsValid bytes r c h))

  serve_line-IsValid :
      (line : Option (List ℕ)) (x : State B F N)
      → IsValid B F N R x
      → IsValid B F N R (serve_line F (ops B F N) line x).1
  unfolding serve_line
  serve_line-IsValid none x h = h
  serve_line-IsValid (some line) x h =
      handle_line-IsValid B F N R line (record { ctx = x; out = [] }) h

  api_handler-IsValid :
      (is_post : Bool) (query : List ℕ) (x : State B F N)
      → IsValid B F N R x
      → IsValid B F N R (api_handler F (ops B F N) is_post query x).1
  unfolding api_handler
  api_handler-IsValid is_post query x h =
      by_test {A = Response × State B F N} (λ out. IsValid B F N R out.1)
        (leb query_size (length query)) _ _ (λ _. h) (λ _. serve_line-IsValid _ x h)

-- What can happen to the running device: a round of the main loop on the bytes that came, a request
-- of the network, an event of the WiFi, a time that SNTP has set, and other values of the
-- timer, the clock and ESP-IDF.
pub data Happening : Type 0 where
  input : List ℕ → Happening
  request : Bool → List ℕ → Happening
  network : Wifi.Event → Happening
  time_synced : Happening
  passes : ℕ → ℕ → Wifi.Answers → Happening

module _ (B : Bus) (F : Flash) (N : Nvs) where
  -- The callback of wifi.c for SNTP.
  abbrev pub on_sntp_sync : State B F N → State B F N
  on_sntp_sync x = record x { clock = mark_valid ntp x.clock }

  abbrev pub happen : Happening → Reader × State B F N → Reader × State B F N
  happen (input bytes) (r, x) = let out = round B F N bytes r x in (out.2, out.3)
  happen (request is_post query) (r, x) = (r, (api_handler F (ops B F N) is_post query x).1)
  happen (network e) (r, x) = (r, record x { wifi = Wifi.step x.answers e x.wifi })
  happen time_synced (r, x) = (r, on_sntp_sync x)
  happen (passes timer_us now answers) (r, x) =
      (r, record x { timer_us = timer_us; now = now; answers = answers })

  abbrev pub happen_all : List Happening → Reader × State B F N → Reader × State B F N
  happen_all [] p = p
  happen_all (e ∷ es) p = happen_all es (happen e p)

module _ (B : Bus) (F : Flash) (N : Nvs) (R : IsNor F ⊥) where
  happen-IsValid :
      (e : Happening) (r : Reader) (x : State B F N)
      → IsValid B F N R x
      → IsValid B F N R (happen B F N e (r, x)).1
  happen-IsValid (input bytes) r x h = round-IsValid B F N R bytes r x h
  happen-IsValid (request is_post query) r x h = api_handler-IsValid B F N R is_post query x h
  happen-IsValid (network e) r x (log, h) = (
    log,
    record {
      log_holds = h.log_holds;
      boot_id_u8 = h.boot_id_u8;
      wifi_consistent = step-IsConsistent x.answers e x.wifi h.wifi_consistent;
    },
  )
  happen-IsValid time_synced r x (log, h) = (
    log,
    record {
      log_holds = h.log_holds;
      boot_id_u8 = h.boot_id_u8;
      wifi_consistent = h.wifi_consistent;
    },
  )
  happen-IsValid (passes timer_us now answers) r x (log, h) = (
    log,
    record {
      log_holds = h.log_holds;
      boot_id_u8 = h.boot_id_u8;
      wifi_consistent = h.wifi_consistent;
    },
  )

  -- On a flash that does not fail, a device whose store stands for a log, whose boot id is a byte and
  -- whose WiFi state machine is consistent stays such a device through any sequence of rounds of the
  -- main loop, requests, events of the WiFi and of SNTP and changes of the time, whatever the bytes
  -- received, the queries, the sensor, NVS and ESP-IDF answer.
  pub happen_all-IsValid :
      (es : List Happening) (r : Reader) (x : State B F N)
      → IsValid B F N R x
      → IsValid B F N R (happen_all B F N es (r, x)).1
  happen_all-IsValid [] r x h = h
  happen_all-IsValid (e ∷ es) r x h =
      happen_all-IsValid es (happen B F N e (r, x)).0 (happen B F N e (r, x)).1
        (happen-IsValid e r x h)
