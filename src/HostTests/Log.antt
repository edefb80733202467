-- ===== src/HostTests/Log.antt =====
-- firmware/test_host/test-log-store.c: the log store on the emulated flash, but for
-- those in Filling.antt.
use s3_bme.Base.{
  ℕ, ◌+◌, ◌*◌, ◌≡◌, refl, Bool, true, false, ◌&&◌, ltb, ◌==◌, if◌then◌else◌, List, [], ◌∷◌, length,
  bit_and,
}
use s3_bme.Base.Int.{pos, eqb_ℤ}
use s3_bme.Base.Result.{Result, ok, err, hang, is_done}
use s3_bme.LogRecord.{LogRecord, crc16_ccitt, encode, decode, is_empty, get_u16, get_u32, fields}
use s3_bme.LogStore.{
  err_corrupt, Store, count, find_start, find_end, push_decoded, read_slot, sector_is_erased,
  move_tail, erase_sector, scan_sectors, scan_head, recover, init, prepare_sector, write_head,
  append, read_one, read_loop, read, clear, clear_loop,
}
use s3_bme.HostTests.{all_of}
use s3_bme.HostTests.Filling.{unset, set_up, again, append_n, records, reads, stamp, filling_tests}
use s3_bme.HostTests.Rolling.{filling_suite}
use s3_bme.Flash.Sim.{sim, sim_nor}
use s3_bme.Flash.Slots.{slot-IsFree}
use s3_bme.HostTests.FakeFlash.{FakeFlash, fake_flash, fake_flash_reset}

abbrev pub set_up_store : Store FakeFlash
set_up_store = set_up fake_flash fake_flash_reset

abbrev filled : ℕ → Store FakeFlash
filled n = (append_n fake_flash n 0 set_up_store).1

abbrev test_fresh_flash_is_empty : Bool
test_fresh_flash_is_empty = count set_up_store == 0

abbrev is_appended : List LogRecord → Bool
is_appended [] = false
is_appended (r ∷ rs) = (r.timestamp == 100) && eqb_ℤ r.temp_centi (pos 2000)

abbrev test_append_then_read : Bool
test_append_then_read =
    let appended = append_n fake_flash 1 100 set_up_store in
    let got = records fake_flash 0 10 appended.1 in
    all_of (
      appended.0
      ∷ (count appended.1 == 1)
      ∷ reads fake_flash 0 10 appended.1
      ∷ (length got == 1)
      ∷ is_appended got
      ∷ [])

-- `mem[i] = v` for the bytes from `off` to `off + n`, and the power that fails during a write.
abbrev spoil : ℕ → ℕ → (ℕ → ℕ) → Store FakeFlash → Store FakeFlash
spoil off n change s = record s {
  dev = record s.dev {
    mem = λ i.
        if ltb i off
        then s.dev.mem i
        else if ltb i (off + n)
        then change (s.dev.mem i)
        else s.dev.mem i;
  };
}

abbrev test_recovery_skips_partially_written_slot : Bool
test_recovery_skips_partially_written_slot =
    let found = again fake_flash (spoil (10 * 16 + 4) 12 (λ b. 0x12) (filled 10)) in
    all_of (
      (append_n fake_flash 10 0 set_up_store).0
      ∷ is_done found.0
      ∷ (found.1.head == 11)
      ∷ reads fake_flash 0 20 found.1
      ∷ (length (records fake_flash 0 20 found.1) == 10)
      ∷ [])

abbrev test_read_skips_crc_corrupted_record : Bool
test_read_skips_crc_corrupted_record =
    let got = records fake_flash 0 3 (spoil (1 * 16 + 9) 1 (λ b. bit_and b 0x0F) (filled 3)) in
    all_of (
      (append_n fake_flash 3 0 set_up_store).0
      ∷ (length got == 2)
      ∷ (stamp got 0 == 0)
      ∷ (stamp got 1 == 2)
      ∷ [])

abbrev is_corrupt : Result (Unit {0}) → Bool
is_corrupt (ok u) = false
is_corrupt (err c) = eqb_ℤ c err_corrupt
is_corrupt hang = false

abbrev test_init_reports_corrupt_when_no_erased_sector : Bool
test_init_reports_corrupt_when_no_erased_sector =
    is_corrupt (init fake_flash (unset (record fake_flash_reset { mem = λ i. 0x00 }))).0

abbrev test_erase_ahead_when_entering_sector : Bool
test_erase_ahead_when_entering_sector =
    let (done, s) = append_n fake_flash 256 0 set_up_store in
    let (done', t) = append_n fake_flash 1 256 s in
    all_of (
      done
      ∷ (s.dev.erase_count 1 == 1)
      ∷ (s.dev.erase_count 2 == 0)
      ∷ done'
      ∷ (t.dev.erase_count 2 == 1)
      ∷ [])

abbrev test_clear_erases_everything : Bool
test_clear_erases_everything =
    let (done, s) = append_n fake_flash 1000 0 set_up_store in
    let (r, t) = clear fake_flash s in
    all_of (done ∷ is_done r ∷ (count t == 0) ∷ (t.head == 0) ∷ (t.dev.mem 0 == 0xFF) ∷ [])

-- The assertion of `setUp`.
abbrev set_up_passes : Bool
set_up_passes = is_done (init fake_flash (unset fake_flash_reset)).0

abbrev main : List Bool
main =
    set_up_passes ∷ test_fresh_flash_is_empty ∷ test_append_then_read
    ∷ test_recovery_skips_partially_written_slot ∷ test_read_skips_crc_corrupted_record
    ∷ test_erase_ahead_when_entering_sector ∷ test_clear_erases_everything
    ∷ test_init_reports_corrupt_when_no_erased_sector ∷ []

-- The suite passes.
log_suite : all_of main ≡ true
unfolding append_n clear clear_loop init scan_sectors scan_head recover find_start find_end append
    write_head prepare_sector erase_sector move_tail sector_is_erased read_slot read read_loop
    read_one push_decoded count encode decode crc16_ccitt is_empty get_u16 get_u32 fields
log_suite = refl

-- The tests of Filling.antt pass on the emulated flash while its writes do not fail.
sim_suite : all_of (filling_tests sim (λ i. 0xFF)) ≡ true
sim_suite = filling_suite sim sim_nor (λ i. 0xFF) (λ i h. slot-IsFree (λ j. 0xFF) i (λ j p q. refl))
