-- ===== src/Clock.antt =====
-- firmware/main/clock.c: which source the time comes from. The clock of the system and the timer
-- are not in the repository: `set_times` are the calls of settimeofday, the last one first, and
-- the values of `time` and of `esp_timer_get_time` are inputs.
pub mod Laws
mod Tests
use s3_bme.Base.{ℕ, ◌/◌, ◌^◌, u32, if◌then◌else◌, Bool, true, false, List, [], ◌∷◌, codes}

-- `clock_source_t`
pub data ClockSource : Type 0 where
  no_source pc ntp : ClockSource

pub record Clock : Type 0 where
  pub source : ClockSource
  pub set_times : List ℕ

abbrev pub unset : Clock
unset = record { source = no_source; set_times = [] }

pub set_time : ℕ → Clock → Clock
set_time epoch c = elim c.source as (λ _. Clock) [
  | ntp ↦ c
  | no_source ↦ record c { source = pc; set_times = epoch ∷ c.set_times }
  | pc ↦ record c { source = pc; set_times = epoch ∷ c.set_times }
]

pub mark_valid : ClockSource → Clock → Clock
mark_valid source c = record c { source = source }

pub time_valid : Clock → Bool
time_valid c = elim c.source as (λ _. Bool) [ no_source ↦ false | pc ↦ true | ntp ↦ true ]

-- `clock_time_source`
pub time_source : Clock → List ℕ
time_source c = elim c.source as (λ _. List ℕ) [
  | pc ↦ codes "pc"
  | ntp ↦ codes "ntp"
  | no_source ↦ codes "none"
]

-- `clock_uptime_s`, from the microseconds of the timer.
pub uptime_s : ℕ → ℕ
uptime_s timer_us = u32 (timer_us / 1000000)

pub timestamp : ℕ → ℕ → Clock → ℕ
timestamp now timer_us c = if time_valid c then u32 now else uptime_s timer_us

-- The calls that the firmware makes: the PC or the browser sets the time, SNTP reports a sync.
pub data ClockEvent : Type 0 where
  pc_sets : ℕ → ClockEvent
  sntp_syncs : ClockEvent

pub run : List ClockEvent → Clock → Clock
run [] c = c
run (pc_sets epoch ∷ es) c = run es (set_time epoch c)
run (sntp_syncs ∷ es) c = run es (mark_valid ntp c)
