-- ===== src/Device/Invariant.antt =====
-- What holds of the device between any two rounds of the main loop.
use s3_bme.Base.{ℕ, ◌^◌, ◌≤◌, ◌<◌, ◌≡◌, Option, none, some, List, []}
use s3_bme.Base.Result.{Result, ok, err, hang, EnsuresOf}
use s3_bme.LogRecord.{LogRecord}
use s3_bme.Flash.{Flash, IsNor}
use s3_bme.LogStore
use s3_bme.LogStore.{Store}
use s3_bme.LogStore.Prims.{Same}
use s3_bme.LogStore.Prepare.{Holds, Same-Holds}
use s3_bme.LogStore.Clear.{clear-empty}
use s3_bme.Bme280.Driver.{Bus, Sensor}
use s3_bme.Settings
use s3_bme.Settings.{Nvs}
use s3_bme.Settings.Boot.{set_interval_s-boot_id, set_wifi_credentials-boot_id}
use s3_bme.Wifi.Invariant.{IsConsistent, set_credentials-IsConsistent}
use s3_bme.Sampler.Laws.{set_interval-store}
use s3_bme.Protocol.{Conn, get_log, max_limit, handle_line}
use s3_bme.Protocol.Log.{get_log-Listed}
use s3_bme.Protocol.Keeps.{handle_line-keeps}
use s3_bme.Device.{
  State, ops, read_sensor, op_read_now, op_set_interval_s, interval_set, op_set_wifi, op_set_time,
}

module _ (B : Bus) (F : Flash) (N : Nvs) (R : IsNor F ⊥) where
  -- The store stands for `log`, the boot id is a byte, and the WiFi state machine is consistent.
  pub record IsValidFor (log : List LogRecord) (x : State B F N) : Type 0 where
    pub log_holds : Holds F R x.sampler.store log
    pub boot_id_u8 : x.settings.boot_id < 2 ^ 8
    pub wifi_consistent : IsConsistent x.wifi

  abbrev pub IsValid : State B F N → Type 0
  IsValid x = (log : List LogRecord) × IsValidFor log x

  put_store-IsValidFor :
      (log : List LogRecord) (x : State B F N) (s : Store F.Dev)
      → Same F R x.sampler.store s
      → IsValidFor log x
      → IsValidFor log ((ops B F N).put_store s x)
  put_store-IsValidFor log x s same h = record {
    log_holds = Same-Holds F R log same h.log_holds;
    boot_id_u8 = h.boot_id_u8;
    wifi_consistent = h.wifi_consistent;
  }

  get_log-IsValid :
      (offset limit : ℕ) (c : Conn (State B F N))
      → offset < 2 ^ 32
      → limit ≤ max_limit
      → IsValid c.ctx
      → IsValid (get_log F (ops B F N) offset limit c).ctx
  get_log-IsValid offset limit c u l (log, h) =
      let p =
        get_log-Listed F (ops B F N) R log (IsValidFor log) (λ x q. q.log_holds)
          (put_store-IsValidFor log) offset limit c h u l in
      (log, p.kept)

  clear-IsValid :
      (x : State B F N)
      → IsValid x
      → IsValid ((ops B F N).put_store (LogStore.clear F x.sampler.store).1 x)
  clear-IsValid x (log, h) = (
    [],
    emptied (LogStore.clear F x.sampler.store).0 (LogStore.clear F x.sampler.store).1
        (clear-empty F R x.sampler.store),
  )
    where
      emptied :
          (r : Result (Unit {0})) (t : Store F.Dev)
          → EnsuresOf
              (λ u t'. Holds F R t' [])
              (λ c t'. ⊥ × (t'.head ≡ x.sampler.store.head) × (t'.tail ≡ x.sampler.store.tail))
              r
              t
          → IsValidFor [] ((ops B F N).put_store t x)
      emptied (ok u) t p = record {
        log_holds = p;
        boot_id_u8 = h.boot_id_u8;
        wifi_consistent = h.wifi_consistent;
      }
      emptied (err c) t p = absurd p.0
      emptied hang t p = absurd p

  set_time-IsValid : (epoch : ℕ) (x : State B F N) → IsValid x → IsValid (op_set_time B F N epoch x)
  unfolding op_set_time
  set_time-IsValid epoch x (log, h) = (
    log,
    record {
      log_holds = h.log_holds;
      boot_id_u8 = h.boot_id_u8;
      wifi_consistent = h.wifi_consistent;
    },
  )

  read_sensor-IsValid :
      (sensor : Option (Sensor B.Dev)) (x : State B F N)
      → IsValid x
      → IsValid (read_sensor B F N sensor x).1
  unfolding read_sensor
  read_sensor-IsValid none x h = h
  read_sensor-IsValid (some sensor) x (log, h) = (
    log,
    record {
      log_holds = h.log_holds;
      boot_id_u8 = h.boot_id_u8;
      wifi_consistent = h.wifi_consistent;
    },
  )

  read_now-IsValid : (x : State B F N) → IsValid x → IsValid (op_read_now B F N x).1
  unfolding op_read_now
  read_now-IsValid x h = read_sensor-IsValid x.sampler.sensor x h

  interval_set-IsValid :
      (r : Result (Unit {0})) (n : ℕ) (x : State B F N)
      → IsValid x
      → IsValid (interval_set B F N r n x).1
  unfolding interval_set
  interval_set-IsValid (ok u) n x (log, h) = (
    log,
    record {
      log_holds = rw (set_interval-store n x.sampler) h.log_holds;
      boot_id_u8 = h.boot_id_u8;
      wifi_consistent = h.wifi_consistent;
    },
  )
  interval_set-IsValid (err c) n x h = h
  interval_set-IsValid hang n x h = h

  set_interval_s-IsValid :
      (n : ℕ) (x : State B F N) → IsValid x → IsValid (op_set_interval_s B F N n x).1
  unfolding op_set_interval_s
  set_interval_s-IsValid n x (log, h) =
      interval_set-IsValid (Settings.set_interval_s N n x.settings).0 n
        (record x { settings = (Settings.set_interval_s N n x.settings).1 })
        (
          log,
          record {
            log_holds = h.log_holds;
            boot_id_u8 = rw (set_interval_s-boot_id N n x.settings) h.boot_id_u8;
            wifi_consistent = h.wifi_consistent;
          },
        )

  set_wifi-IsValid :
      (ssid password : List ℕ) (x : State B F N)
      → IsValid x
      → IsValid (op_set_wifi B F N ssid password x).1
  unfolding op_set_wifi
  set_wifi-IsValid ssid password x (log, h) = (
    log,
    record {
      log_holds = h.log_holds;
      boot_id_u8 = rw (set_wifi_credentials-boot_id N ssid password x.settings) h.boot_id_u8;
      wifi_consistent = set_credentials-IsConsistent _ ssid password x.wifi h.wifi_consistent;
    },
  )

  -- Every line of the protocol, whatever it says.
  pub handle_line-IsValid :
      (line : List ℕ) (c : Conn (State B F N))
      → IsValid c.ctx
      → IsValid (handle_line F (ops B F N) line c).ctx
  handle_line-IsValid line c h =
      handle_line-keeps F (ops B F N) IsValid set_time-IsValid read_now-IsValid
        set_interval_s-IsValid set_wifi-IsValid clear-IsValid get_log-IsValid line c h
