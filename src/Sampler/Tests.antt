-- ===== src/Sampler/Tests.antt =====
-- The sampler at concrete inputs: a sensor that answers, and a store with one record.
use s3_bme.Base.{ℕ, ◌≡◌, ◌⊎◌, refl, arith, true, false, some}
use s3_bme.Flash.Sim.{sim, sim_nor}
use s3_bme.LogStore.Tests.{one, store, store-Represents}
use s3_bme.Bme280.Driver.Tests.{bus, sensor}
use s3_bme.Sampler.{Sampler, is_early, tick}
use s3_bme.Sampler.Laws.{Sampled, Noted, tick-Sampled}

-- The last sample was 600 seconds ago, and the clock wrapped since.
abbrev pub sampler : Sampler ℕ (ℕ → ℕ)
sampler = record {
  sensor = some sensor;
  store = store;
  interval_s = 60;
  sensor_ok = false;
  store_ok = true;
  has_sampled = true;
  last_sample_s = 4_294_967_000;
}

is_due : is_early 304 sampler ≡ false
unfolding is_early
is_due = refl

is_not_due : is_early 10 (record sampler { interval_s = 600 }) ≡ true
unfolding is_early
is_not_due = refl

tick-Sampled_example :
    ((is_early 304 sampler ≡ true)
      × (tick (bus 0x60 0) sim 304 1_700_000_600 true 7 sampler ≡ sampler))
    ⊎ ((is_early 304 sampler ≡ false)
        × Noted
            (bus 0x60 0)
            sim
            sim_nor
            1_700_000_600
            true
            7
            (omega arith)
            (omega arith)
            one
            304
            sampler
            (tick (bus 0x60 0) sim 304 1_700_000_600 true 7 sampler)
        × Sampled
            (bus 0x60 0)
            sim
            sim_nor
            1_700_000_600
            true
            7
            (omega arith)
            (omega arith)
            one
            sampler
            (tick (bus 0x60 0) sim 304 1_700_000_600 true 7 sampler))
tick-Sampled_example =
    tick-Sampled (bus 0x60 0) sim sim_nor 1_700_000_600 true 7 (omega arith) (omega arith) one 304
      sampler store-Represents
