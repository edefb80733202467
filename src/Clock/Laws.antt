-- ===== src/Clock/Laws.antt =====
-- The priority of the time sources.
use s3_bme.Base.{◌^◌, ◌<◌, arith, ℕ, ◌≡◌, refl, List, [], ◌∷◌, u32}
use s3_bme.Clock.{
  ntp, Clock, set_time, mark_valid, time_valid, timestamp, uptime_s, ClockEvent, pc_sets,
  sntp_syncs, run,
}

ntp_stays :
    (es : List ClockEvent) (times : List ℕ)
    → run es (record { source = ntp; set_times = times })
      ≡ record { source = ntp; set_times = times }
unfolding run set_time mark_valid
ntp_stays [] times = refl
ntp_stays (pc_sets epoch ∷ es) times = ntp_stays es times
ntp_stays (sntp_syncs ∷ es) times = ntp_stays es times

-- Once SNTP has synced, no later sequence of calls sets the time of the system or changes the
-- source, and a timestamp is the time of the system.
pub run-sntp_syncs :
    (es : List ClockEvent) (c : Clock) (now timer_us : ℕ)
    → ((run (sntp_syncs ∷ es) c).source ≡ ntp)
      × ((run (sntp_syncs ∷ es) c).set_times ≡ c.set_times)
      × (timestamp now timer_us (run (sntp_syncs ∷ es) c) ≡ u32 now)
unfolding run mark_valid timestamp time_valid
run-sntp_syncs es c now timer_us = rw (ntp_stays es c.set_times) (refl, refl, refl)

pub timestamp_lt : (now timer_us : ℕ) (c : Clock) → timestamp now timer_us c < 2 ^ 32
unfolding timestamp uptime_s
timestamp_lt now timer_us c = ground arith
