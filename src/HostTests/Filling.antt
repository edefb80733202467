-- ===== src/HostTests/Filling.antt =====
-- firmware/test_host/test-log-store.c: tests that fill sectors of the flash, on any flash.
use s3_bme.Base.{ℕ, zero, suc, ◌+◌, Bool, true, ◌&&◌, ◌==◌, List, [], ◌∷◌, length}
use s3_bme.Base.Int.{pos}
use s3_bme.Base.Result.{Result, is_done}
use s3_bme.LogRecord.{LogRecord}
use s3_bme.Flash.{Flash}
use s3_bme.LogStore.{Store, count, capacity, init, append, read}
use s3_bme.HostTests.{all_of}

-- A store before `log_store_init` sets it.
abbrev pub unset : {Dev : Type 0} → Dev → Store Dev
unset d = record { dev = d; head = 0; tail = 0 }

abbrev pub set_up : (F : Flash) → F.Dev → Store F.Dev
set_up F d = (init F (unset d)).1

abbrev pub again : (F : Flash) → Store F.Dev → Result (Unit {0}) × Store F.Dev
again F s = init F (unset s.dev)

abbrev pub record_at : ℕ → LogRecord
record_at t = record {
  timestamp = t;
  temp_centi = pos 2000;
  hum_centi = 5000;
  pressure_pa = 100000;
  flags = 0;
  boot_id = 1;
}

-- The result of the appends, each of which is asserted, and the store behind them.
unfoldable pub append_n : (F : Flash) → ℕ → ℕ → Store F.Dev → Bool × Store F.Dev
append_n F zero first_ts s = (true, s)
append_n F (suc n) first_ts s =
    let (r, t) = append F (record_at first_ts) s in
    let (b, u) = append_n F n (first_ts + 1) t in (is_done r && b, u)

abbrev pub records : (F : Flash) → ℕ → ℕ → Store F.Dev → List LogRecord
records F offset max s = (read F offset max s).1.out

-- `TEST_ASSERT_EQUAL(0, log_store_read(...))`
abbrev pub reads : (F : Flash) → ℕ → ℕ → Store F.Dev → Bool
reads F offset max s = is_done (read F offset max s).0

-- The time stamp of a record that was read.
abbrev pub stamp : List LogRecord → ℕ → ℕ
stamp [] i = 0
stamp (r ∷ rs) zero = r.timestamp
stamp (r ∷ rs) (suc i) = stamp rs i

-- The assertions of `oldest_ts`, and that what it returns is `t`.
abbrev pub oldest_ts : (F : Flash) → Store F.Dev → ℕ → Bool
oldest_ts F s t =
    let got = records F 0 1 s in reads F 0 1 s && ((length got == 1) && (stamp got 0 == t))

abbrev pub test_read_with_offset_and_limit : (F : Flash) → F.Dev → Bool
test_read_with_offset_and_limit F d =
    let (done, s) = append_n F 300 0 (set_up F d) in
    let r = records F 297 5 s in
    all_of (
      done
      ∷ reads F 297 5 s
      ∷ (length r == 3)
      ∷ (stamp r 0 == 297)
      ∷ (stamp r 2 == 299)
      ∷ reads F 300 5 s
      ∷ (length (records F 300 5 s) == 0)
      ∷ [])

abbrev pub test_capacity_is_fixed_and_rolls_by_sector : (F : Flash) → F.Dev → Bool
test_capacity_is_fixed_and_rolls_by_sector F d =
    let (done1, s1) = append_n F capacity 0 (set_up F d) in
    let (done2, s2) = append_n F 1 capacity s1 in
    let (done3, s3) = append_n F 255 (capacity + 1) s2 in
    let (done4, s4) = append_n F 1 (capacity + 256) s3 in
    all_of (
      done1
      ∷ (count s1 == capacity)
      ∷ oldest_ts F s1 0
      ∷ done2
      ∷ (count s2 == 32257)
      ∷ oldest_ts F s2 256
      ∷ done3
      ∷ (count s3 == capacity)
      ∷ done4
      ∷ oldest_ts F s4 512
      ∷ (count s4 == 32257)
      ∷ [])

abbrev pub test_recovery_before_wrap : (F : Flash) → F.Dev → Bool
test_recovery_before_wrap F d =
    let (done, s) = append_n F 1000 0 (set_up F d) in
    let (found, t) = again F s in
    all_of (done ∷ is_done found ∷ (s.head == t.head) ∷ (s.tail == t.tail) ∷ (count t == 1000) ∷ [])

abbrev pub test_recovery_after_wrap : (F : Flash) → F.Dev → Bool
test_recovery_after_wrap F d =
    let (done, s) = append_n F 40000 0 (set_up F d) in
    let (found, t) = again F s in
    all_of
      (done ∷ is_done found ∷ (s.head == t.head) ∷ (s.tail == t.tail) ∷ (count s == count t) ∷ [])

abbrev pub test_recovery_when_head_sector_is_full : (F : Flash) → F.Dev → Bool
test_recovery_when_head_sector_is_full F d =
    let (done, s) = append_n F 512 0 (set_up F d) in
    let (found, t) = again F s in
    all_of (done ∷ is_done found ∷ (t.head == 512) ∷ (t.tail == 0) ∷ [])

abbrev pub filling_tests : (F : Flash) → F.Dev → List Bool
filling_tests F d =
    test_read_with_offset_and_limit F d
    ∷ test_capacity_is_fixed_and_rolls_by_sector F d
    ∷ test_recovery_before_wrap F d
    ∷ test_recovery_after_wrap F d
    ∷ test_recovery_when_head_sector_is_full F d
    ∷ []
