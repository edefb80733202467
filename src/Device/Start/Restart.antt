-- ===== src/Device/Start/Restart.antt =====
-- The device after the power has been off: what `app_main` finds again.
use s3_bme.Base.{
  codes, ℕ, ◌^◌, ◌<◌, ◌≡◌, ◌≢◌, refl, sym, ◌∙◌, arith, Bool, if◌then◌else◌, true, false, Option,
  none, List, [], ◌∷◌,
}
use s3_bme.Base.Result.{Result, ok, err, hang, EnsuresOf}
use s3_bme.LogRecord.{LogRecord}
use s3_bme.Flash.{Flash, IsNor}
use s3_bme.LogStore
use s3_bme.LogStore.{Store}
use s3_bme.LogStore.Layout.{Represents}
use s3_bme.LogStore.Prims.{mem}
use s3_bme.LogStore.Prepare.{Holds}
use s3_bme.LogStore.Recovery.{init-recovers}
use s3_bme.Settings
use s3_bme.Settings.{Nvs, Settings, interval_default}
use s3_bme.Settings.Boot.{init-boot_id, wifi_credentials-boot_id}
use s3_bme.Sampler.Laws.{init-store}
use s3_bme.Wifi.{Answers, boot}
use s3_bme.Wifi.Start.{
  Ending, returns, aborts, checked, all_pass, reads_credentials, aborts-all_pass,
}
use s3_bme.Wifi.Invariant.{init-IsConsistent}
use s3_bme.Web.{web_start}
use s3_bme.StatusLed.{Rmt}
use s3_bme.SpiBus.{SpiMaster, spi_bus}
use s3_bme.Device.{State, Reader, open_store, clear_if_corrupt}
use s3_bme.Device.Invariant.{IsValidFor, IsValid}
use s3_bme.Device.Rounds.{Happening, happen_all, happen_all-IsValid}
use s3_bme.Device.Start.{
  Power, running, credentials_of, find_sensor, stored_credentials, start_parts, after_wifi,
  start_checked, app_main,
}

module _ (P : SpiMaster) (F : Flash) (N : Nvs) (R : Rmt) (I : IsNor F ⊥) where
  open_store-Holds :
      (s : Store F.Dev) (head tail : ℕ) (log : List LogRecord)
      → Represents (mem F I s) head tail log
      → Holds F I (open_store (spi_bus P) F N s).1 log
  unfolding open_store
  open_store-Holds s head tail log rep =
      opened (LogStore.init F s).0 (LogStore.init F s).1 (init-recovers F I s head tail log rep)
    where
      opened :
          (r : Result (Unit {0})) (t : Store F.Dev)
          → EnsuresOf (λ u t'. Holds F I t' log) (λ c t'. ⊥) r t
          → Holds F I (clear_if_corrupt (spi_bus P) F N r t).1 log
      opened (ok u) t h = h
      opened (err c) t h = absurd h
      opened hang t h = absurd h

  stored_credentials-boot_id :
      (answers : Answers) (s : Settings N.Dev)
      → (stored_credentials P F N R answers s).1.boot_id ≡ s.boot_id
  unfolding stored_credentials
  stored_credentials-boot_id answers s =
      elim (reads_credentials answers)
        as (λ x.
          let out : Option (List ℕ × List ℕ) × Settings N.Dev =
            if x
            then (
              credentials_of (Settings.wifi_credentials N 33 64 s).0,
              (Settings.wifi_credentials N 33 64 s).1,
            )
            else (none, s) in
          out.1.boot_id ≡ s.boot_id) [ true ↦ wifi_credentials-boot_id N 33 64 s | false ↦ refl ]

  start_parts-IsValidFor :
      (b : Power P F N R) (s : Settings N.Dev) (head tail : ℕ) (log : List LogRecord)
      → Represents (I.byte b.flash) head tail log
      → s.boot_id < 2 ^ 8
      → IsValidFor (spi_bus P) F N I log (start_parts P F N R b s).1
  unfolding start_parts
  start_parts-IsValidFor b s head tail log rep small = record {
    log_holds =
        rw (init-store (find_sensor P F N R b.spi) _ s.interval_s)
          (open_store-Holds (record { dev = b.flash; head = 0; tail = 0 }) head tail log rep);
    boot_id_u8 = rw (stored_credentials-boot_id b.answers s) small;
    wifi_consistent = init-IsConsistent b.answers _;
  }

  after_wifi-running :
      (has_web : Bool) (out : Ending × State (spi_bus P) F N)
      → out.0 ≢ aborts
      → after_wifi P F N R has_web out ≡ running out.1 (web_start has_web) (codes "\n" ∷ [])
  unfolding after_wifi
  after_wifi-running has_web (returns up, x) h = refl
  after_wifi-running has_web (aborts, x) h = absurd (h refl)

  start_parts-returns :
      (b : Power P F N R) (s : Settings N.Dev)
      → all_pass b.answers checked ≡ true
      → (start_parts P F N R b s).0 ≢ aborts
  unfolding start_parts
  start_parts-returns b s pass stopped = cc (sym pass ∙ aborts-all_pass b.answers _ boot stopped)

  start_checked-running :
      (b : Power P F N R) (r : Result (Unit {0})) (s : Settings N.Dev)
      → r ≡ ok tt
      → b.has_partition ≡ true
      → b.has_usb ≡ true
      → all_pass b.answers checked ≡ true
      → start_checked P F N R b r s
        ≡ running (start_parts P F N R b s).1 (web_start b.has_web) (codes "\n" ∷ [])
  unfolding start_checked
  start_checked-running b r s done part usb pass =
      rw (done, part, usb)
        (after_wifi-running b.has_web (start_parts P F N R b s) (start_parts-returns b s pass))

  abbrev pub settings_at : Power P F N R → Result (Unit {0}) × Settings N.Dev
  settings_at b =
      Settings.init N (record { dev = b.nvs; interval_s = interval_default; boot_id = 0 })

  app_main-IsValidFor :
      (b : Power P F N R) (head tail : ℕ) (log : List LogRecord)
      → Represents (I.byte b.flash) head tail log
      → (settings_at b).0 ≡ ok tt
      → b.has_partition ≡ true
      → b.has_usb ≡ true
      → all_pass b.answers checked ≡ true
      → (y : State (spi_bus P) F N) × (app_main P F N R b
          ≡ running y (web_start b.has_web) (codes "\n" ∷ []))
        × IsValidFor (spi_bus P) F N I log y
  unfolding app_main
  app_main-IsValidFor b head tail log rep done part usb pass =
      let s = (settings_at b).1 in
      (
        (start_parts P F N R b s).1,
        start_checked-running b (settings_at b).0 s done part usb pass,
        start_parts-IsValidFor b s head tail log rep (
            init-boot_id N (record { dev = b.nvs; interval_s = interval_default; boot_id = 0 })
              (omega arith)),
      )

  -- A device that is valid goes through any sequence of rounds, requests and events; then its power is
  -- off and comes back, with its flash as it was, the partition and the USB driver there, settings that
  -- start with success, and the calls that `wifi_init` checks answered with ESP_OK. If the flash does
  -- not fail, the main loop runs again, on a device that is valid for the same log as before; a line
  -- break was written to USB, and the web server has its routes if it started.
  pub app_main-IsValid :
      (es : List Happening) (r : Reader) (x : State (spi_bus P) F N) (b : Power P F N R)
      → IsValid (spi_bus P) F N I x
      → b.flash ≡ (happen_all (spi_bus P) F N es (r, x)).1.sampler.store.dev
      → (settings_at b).0 ≡ ok tt
      → b.has_partition ≡ true
      → b.has_usb ≡ true
      → all_pass b.answers checked ≡ true
      → (log : List LogRecord) × IsValidFor
          (spi_bus P)
          F
          N
          I
          log
          (happen_all (spi_bus P) F N es (r, x)).1
        × ((y : State (spi_bus P) F N) × (app_main P F N R b
              ≡ running y (web_start b.has_web) (codes "\n" ∷ []))
            × IsValidFor (spi_bus P) F N I log y)
  app_main-IsValid es r x b valid flash done part usb pass =
      let (log, h) = happen_all-IsValid (spi_bus P) F N I es r x valid in
      let after = (happen_all (spi_bus P) F N es (r, x)).1.sampler.store in
      (
        log,
        h,
        app_main-IsValidFor b after.head after.tail log (rw flash h.log_holds) done part usb pass,
      )
