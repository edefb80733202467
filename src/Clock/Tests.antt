-- ===== src/Clock/Tests.antt =====
-- The clock at concrete inputs.
use s3_bme.Base.{◌≡◌, refl, [], ◌∷◌, u32}
use s3_bme.Clock.{
  ntp, pc, Clock, unset, set_time, uptime_s, timestamp, time_valid, pc_sets, sntp_syncs, run,
}
use s3_bme.Clock.Laws.{run-sntp_syncs}

abbrev by_pc : Clock
by_pc = record { source = pc; set_times = 1_700_000_000 ∷ [] }

pc_sets_time : run (pc_sets 1_700_000_000 ∷ []) unset ≡ by_pc
unfolding run set_time
pc_sets_time = refl

unset_uptime : timestamp 5 7_500_000 unset ≡ 7
unfolding timestamp time_valid uptime_s
unset_uptime = refl

run-sntp_syncs_example :
    ((run (sntp_syncs ∷ pc_sets 3 ∷ []) by_pc).source ≡ ntp)
    × ((run (sntp_syncs ∷ pc_sets 3 ∷ []) by_pc).set_times ≡ 1_700_000_000 ∷ [])
    × (timestamp 1_700_000_001 9 (run (sntp_syncs ∷ pc_sets 3 ∷ []) by_pc) ≡ u32 1_700_000_001)
run-sntp_syncs_example = run-sntp_syncs (pc_sets 3 ∷ []) by_pc 1_700_000_001 9
