-- ===== src/Sampler/Laws.antt =====
-- What a tick of the sampler does, with the laws of the store and of the driver.
use s3_bme.Base.{
  ℕ, ◌^◌, ◌<◌, ◌≡◌, ◌⊎◌, inl, inr, refl, arith, Bool, true, false, Bool-cases, Option, none, some,
  List, ap,
}
use s3_bme.Base.Result.{Result, ok, err, hang, EnsuresOf}
use s3_bme.LogRecord.{LogRecord, IsRecord}
use s3_bme.Flash.{Flash, IsNor}
use s3_bme.LogStore
use s3_bme.LogStore.{Store}
use s3_bme.LogStore.Layout.{push}
use s3_bme.LogStore.Prepare.{Holds, AppendFailed}
use s3_bme.LogStore.Append.{append-refines}
use s3_bme.Bme280
use s3_bme.Bme280.Driver
use s3_bme.Bme280.Driver.{Bus, Sensor}
use s3_bme.Bme280.Driver.Data.{read-pressure_pa}
use s3_bme.Sampler.{
  init, set_interval, Sampler, clamp_i16, clamp_u16, record_of, is_ok, is_early, store_reading,
  sample, tick_due, tick,
}

-- A reading becomes a record whose values are in the range of their types.
pub record_of-IsRecord :
    (r : Bme280.Reading) (timestamp : ℕ) (time_valid : Bool) (boot_id : ℕ)
    → r.pressure_pa < 2 ^ 32
    → timestamp < 2 ^ 32
    → boot_id < 2 ^ 8
    → IsRecord (record_of r timestamp time_valid boot_id)
unfolding record_of clamp_i16 clamp_u16
record_of-IsRecord r timestamp time_valid boot_id p t b = ground arith

module _ (B : Bus) (F : Flash) {Fails : Type 0} (N : IsNor F Fails) where
  -- The append of `rec` to a store that stands for `log`, as the flag tells it.
  abbrev Appended : LogRecord → List LogRecord → Store F.Dev → Store F.Dev → Bool → Type 0
  Appended rec log s t flag =
      ((flag ≡ true) × Holds F N t (push rec log)) ⊎ ((flag ≡ false) × AppendFailed F N s t log)

  is_ok-Appended :
      (done : Result (Unit {0})) (rec : LogRecord) (log : List LogRecord) (s t : Store F.Dev)
      → EnsuresOf (λ u t'. Holds F N t' (push rec log)) (λ c t'. AppendFailed F N s t' log) done t
      → Appended rec log s t (is_ok done)
  unfolding is_ok
  is_ok-Appended (ok u) rec log s t h = inl (refl, h)
  is_ok-Appended (err c) rec log s t h = inr (refl, h)
  is_ok-Appended hang rec log s t h = absurd h

  module _ (timestamp : ℕ) (time_valid : Bool) (boot_id : ℕ) (t32 : timestamp < 2 ^ 32)
      (b8 : boot_id < 2 ^ 8) (log : List LogRecord) where
    -- Either there is no sensor, or `bme280_read` returned no reading: then the flag tells it, and
    -- the store is as it was. Or it returned a reading, and its record is appended.
    abbrev pub Sampled : Sampler B.Dev F.Dev → Sampler B.Dev F.Dev → Type 0
    Sampled m m' =
        ((m.sensor ≡ none)
          × (m'.sensor ≡ none)
          × (m'.sensor_ok ≡ false)
          × (m'.store ≡ m.store)
          × (m'.store_ok ≡ m.store_ok))
        ⊎ ((found : Sensor B.Dev) × (m.sensor ≡ some found)
            × (m'.sensor ≡ some (Driver.read B found).1)
            × (((is_ok (Driver.read B found).0 ≡ false)
                  × (m'.sensor_ok ≡ false)
                  × (m'.store ≡ m.store)
                  × (m'.store_ok ≡ m.store_ok))
                ⊎ ((r : Bme280.Reading) × ((Driver.read B found).0 ≡ ok r)
                    × (m'.sensor_ok ≡ true)
                    × Appended (record_of r timestamp time_valid boot_id) log m.store m'.store
                        m'.store_ok)))

    -- What a reading, or its absence, makes of the sampler.
    abbrev Stored : Result Bme280.Reading → Sampler B.Dev F.Dev → Sampler B.Dev F.Dev → Type 0
    Stored found m m' =
        ((is_ok found ≡ false)
          × (m'.sensor_ok ≡ false)
          × (m'.store ≡ m.store)
          × (m'.store_ok ≡ m.store_ok))
        ⊎ ((r : Bme280.Reading) × (found ≡ ok r)
            × (m'.sensor_ok ≡ true)
            × Appended (record_of r timestamp time_valid boot_id) log m.store m'.store m'.store_ok)

    reading-Stored :
        (found : Result Bme280.Reading) (m : Sampler B.Dev F.Dev)
        → ((r : Bme280.Reading) → found ≡ ok r → r.pressure_pa < 2 ^ 32)
        → Holds F N m.store log
        → Stored found m (store_reading B F found timestamp time_valid boot_id m)
    unfolding store_reading is_ok
    reading-Stored (ok r) m small h =
        let valid = record_of-IsRecord r timestamp time_valid boot_id (small r refl) t32 b8 in
        let rec = record_of r timestamp time_valid boot_id in
        inr (
          r,
          refl,
          refl,
          is_ok-Appended (LogStore.append F rec m.store).0 rec log m.store
              (LogStore.append F rec m.store).1 (append-refines F N m.store log rec h valid),
        )
    reading-Stored (err c) m small h = inl (refl, refl, refl, refl)
    reading-Stored hang m small h = inl (refl, refl, refl, refl)

    -- The sensor after a tick, and the fields that a reading does not set.
    store_reading-kept :
        (found : Result Bme280.Reading) (m : Sampler B.Dev F.Dev)
        → ((store_reading B F found timestamp time_valid boot_id m).sensor ≡ m.sensor)
          × ((store_reading B F found timestamp time_valid boot_id m).has_sampled ≡ m.has_sampled)
          × ((store_reading B F found timestamp time_valid boot_id m).last_sample_s
              ≡ m.last_sample_s)
          × ((store_reading B F found timestamp time_valid boot_id m).interval_s ≡ m.interval_s)
    unfolding store_reading
    store_reading-kept (ok r) m = (refl, refl, refl, refl)
    store_reading-kept (err c) m = (refl, refl, refl, refl)
    store_reading-kept hang m = (refl, refl, refl, refl)

    -- The time of the sample is noted, and the interval stays.
    abbrev pub Noted : ℕ → Sampler B.Dev F.Dev → Sampler B.Dev F.Dev → Type 0
    Noted uptime_s m m' =
        (m'.has_sampled ≡ true) × (m'.last_sample_s ≡ uptime_s) × (m'.interval_s ≡ m.interval_s)

    due-Sampled :
        (uptime_s : ℕ) (sensor : Option (Sensor B.Dev)) (m : Sampler B.Dev F.Dev)
        → Holds F N m.store log
        → m.sensor ≡ sensor
        → Noted uptime_s m (
            tick_due B F sensor timestamp time_valid boot_id
              (record m { has_sampled = true; last_sample_s = uptime_s }))
          × Sampled m (
              tick_due B F sensor timestamp time_valid boot_id
                (record m { has_sampled = true; last_sample_s = uptime_s }))
    unfolding tick_due sample
    due-Sampled uptime_s none m h e = ((refl, refl, refl), inl (e, e, refl, refl, refl))
    due-Sampled uptime_s (some sensor) m h e =
        let (found, after) = Driver.read B sensor in
        let m' : Sampler B.Dev F.Dev = record m {
          has_sampled = true;
          last_sample_s = uptime_s;
          sensor = some after;
        } in
        let (same, sampled, last, interval) = store_reading-kept found m' in
        let small : (r : Bme280.Reading) → found ≡ ok r → r.pressure_pa < 2 ^ 32 =
          λ r e'. read-pressure_pa B sensor r after (ap (λ x. (x, after)) e') in
        ((sampled, last, interval), inr (sensor, e, same, reading-Stored found m' small h))

    -- `sampler_tick` on a store that stands for `log`: before the interval is over it changes
    -- nothing. Otherwise it notes the time. If there is no sensor, or `bme280_read` returns no
    -- reading, `sensor_ok` becomes false and the store is as it was. If it returns a reading,
    -- `sensor_ok` becomes true and the record of the reading is pushed on the log, or the append
    -- fails and `store_ok` tells it.
    pub tick-Sampled :
        (uptime_s : ℕ) (m : Sampler B.Dev F.Dev)
        → Holds F N m.store log
        → ((is_early uptime_s m ≡ true) × (tick B F uptime_s timestamp time_valid boot_id m ≡ m))
          ⊎ ((is_early uptime_s m ≡ false)
              × Noted uptime_s m (tick B F uptime_s timestamp time_valid boot_id m)
              × Sampled m (tick B F uptime_s timestamp time_valid boot_id m))
    unfolding tick
    tick-Sampled uptime_s m h = elim (Bool-cases (is_early uptime_s m)) [
      | inl early ↦ inl (early, rw early)
      | inr due ↦
          let (noted, sampled) = due-Sampled uptime_s m.sensor m h refl in
          inr (due, rw due noted, rw due sampled)
    ]

pub set_interval-store :
    {Sense Dev : Type 0} (n : ℕ) (m : Sampler Sense Dev) → (set_interval n m).store ≡ m.store
unfolding set_interval
set_interval-store n m = refl

pub init-store :
    {Sense Dev : Type 0} (sensor : Option (Sensor Sense)) (s : Store Dev) (n : ℕ)
    → (init sensor s n).store ≡ s
unfolding init
init-store sensor s n = refl
