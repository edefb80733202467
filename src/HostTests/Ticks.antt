-- ===== src/HostTests/Ticks.antt =====
-- firmware/test_host/test-sampler.c: the sampler on the emulated sensor and flash.
use s3_bme.Base.{
  ℕ, ◌/◌, ◌^◌, ◌≡◌, refl, Bool, true, false, not, ◌&&◌, ◌==◌, Option, none, some, List, [], ◌∷◌,
  bit_and, ◌<<◌, u8,
}
use s3_bme.Base.Int32.{◌⊕◌, ◌⊖◌, ◌⊗◌, shl, shr, or_int}
use s3_bme.Base.Result.{is_done}
use s3_bme.LogRecord.{LogRecord, crc16_ccitt, encode, decode, is_empty, get_u16, get_u32, fields}
use s3_bme.LogStore.{
  Store, count, find_start, find_end, push_decoded, read_slot, sector_is_erased, move_tail,
  erase_sector, scan_sectors, prepare_sector, write_head, append, read_one, read_loop,
}
use s3_bme.LogStore
use s3_bme.Bme280.Compensate.{
  le16, signed16, parse_calib, compensate, t_fine_of, temperature, pressure, pressure_from,
  humidity_raw, humidity_centi,
}
use s3_bme.Bme280.Driver
use s3_bme.Bme280.Driver.{
  Sensor, measure, check_id, poll, read_regs, write_reg, delay_ms, on_bus, to_err_bus, adc_20,
  adc_16,
}
use s3_bme.Sampler
use s3_bme.Sampler.{
  Sampler, clamp_i16, clamp_u16, record_of, is_ok, set_interval, is_early, store_reading, sample,
  tick_due, tick,
}
use s3_bme.HostTests.{all_of}
use s3_bme.HostTests.Calibration.{calib_words, within, about_2508}
use s3_bme.HostTests.FakeBus.{FakeBus, fake_bus}
use s3_bme.HostTests.FakeFlash.{FakeFlash, fake_flash, fake_flash_reset}
use s3_bme.HostTests.Driver.{poke, set_up}

-- The bytes that `set_raw` stores.
abbrev raw : ℕ → ℕ → ℕ → List ℕ
raw adc_t adc_p adc_h =
    u8 (adc_p / 2 ^ 12)
    ∷ u8 (adc_p / 2 ^ 4)
    ∷ u8 (bit_and adc_p 0xF << 4)
    ∷ u8 (adc_t / 2 ^ 12)
    ∷ u8 (adc_t / 2 ^ 4)
    ∷ u8 (bit_and adc_t 0xF << 4)
    ∷ u8 (adc_h / 2 ^ 8)
    ∷ bit_and adc_h 0xFF
    ∷ []

abbrev sensor : Sensor FakeBus
sensor =
    (Driver.init fake_bus (poke 0xF7 (raw 519888 415148 30000) (poke 0x88 calib_words set_up))).1

abbrev store : Store FakeFlash
store = (LogStore.init fake_flash (record { dev = fake_flash_reset; head = 0; tail = 0 })).1

-- The assertions of `setUp`.
abbrev set_up_passes : Bool
set_up_passes =
    is_done
      (Driver.init fake_bus (poke 0xF7 (raw 519888 415148 30000) (poke 0x88 calib_words set_up))).0
    && is_done (LogStore.init fake_flash (record { dev = fake_flash_reset; head = 0; tail = 0 })).0

-- The sampler as `setUp` leaves it.
abbrev start : Sampler FakeBus FakeFlash
start = Sampler.init (some sensor) store 60

abbrev tick_at : ℕ → Sampler FakeBus FakeFlash → Sampler FakeBus FakeFlash
tick_at t m = tick fake_bus fake_flash t t false 1 m

abbrev has : ℕ → Sampler FakeBus FakeFlash → Bool
has n m = count m.store == n

-- The first record of the log, as `log_store_read` gives it.
abbrev first_record : Sampler FakeBus FakeFlash → List LogRecord
first_record m = (LogStore.read fake_flash 0 1 m.store).1.out

abbrev is_first_sample : List LogRecord → Bool
is_first_sample [] = false
is_first_sample (r ∷ rs) = all_of (
    (r.timestamp == 5000)
    ∷ (r.flags == 0)
    ∷ (r.boot_id == 2)
    ∷ about_2508 r.temp_centi
    ∷ within 10 100653 r.pressure_pa
    ∷ [])

abbrev test_first_tick_samples_immediately : Bool
test_first_tick_samples_immediately =
    let m = tick fake_bus fake_flash 0 5000 false 2 start in
    has 1 m && is_first_sample (first_record m)

abbrev test_respects_interval : Bool
test_respects_interval =
    let m1 = tick_at 59 (tick_at 30 (tick_at 0 start)) in
    let m2 = tick_at 60 m1 in
    let m3 = tick_at 125 m2 in all_of (has 1 m1 ∷ has 2 m2 ∷ has 3 m3 ∷ has 3 (tick_at 184 m3) ∷ [])

abbrev is_timed : List LogRecord → Bool
is_timed [] = false
is_timed (r ∷ rs) = (r.timestamp == 1_789_000_000) && (r.flags == 1)

abbrev test_time_valid_flag_and_epoch : Bool
test_time_valid_flag_and_epoch =
    is_timed (first_record (tick fake_bus fake_flash 0 1_789_000_000 true 1 start))

abbrev test_set_interval_applies_from_last_sample : Bool
test_set_interval_applies_from_last_sample =
    let m = set_interval 10 (tick_at 0 start) in
    all_of ((m.interval_s == 10) ∷ has 1 (tick_at 9 m) ∷ has 2 (tick_at 10 (tick_at 9 m)) ∷ [])

-- `fake_bus_fail = b` and `fake_flash_fail_write = b`
abbrev bus_fails : Bool → Sampler FakeBus FakeFlash → Sampler FakeBus FakeFlash
bus_fails b m = record m {
  sensor = elim m.sensor as (λ _. Option (Sensor FakeBus)) [
    | none ↦ none
    | some s ↦ some (record s { dev = record s.dev { fail = b } })
  ];
}

abbrev flash_fails : Bool → Sampler FakeBus FakeFlash → Sampler FakeBus FakeFlash
flash_fails b m = record m {
  store = record m.store { dev = record m.store.dev { fail_write = b } };
}

abbrev test_sensor_error_skips_record_and_flags : Bool
test_sensor_error_skips_record_and_flags =
    let m1 = tick_at 0 (bus_fails true start) in
    let m2 = tick_at 60 (bus_fails false m1) in
    all_of (start.sensor_ok ∷ has 0 m1 ∷ not m1.sensor_ok ∷ has 1 m2 ∷ m2.sensor_ok ∷ [])

abbrev test_no_sensor : Bool
test_no_sensor =
    let m : Sampler FakeBus FakeFlash = Sampler.init none store 60 in
    has 0 (tick_at 0 m) && not (tick_at 0 m).sensor_ok

abbrev test_store_failure_flags_store_not_ok : Bool
test_store_failure_flags_store_not_ok =
    let m1 = tick_at 0 (flash_fails true start) in
    let m2 = tick_at 60 (flash_fails false m1) in
    all_of (start.store_ok ∷ has 0 m1 ∷ not m1.store_ok ∷ has 1 m2 ∷ m2.store_ok ∷ [])

abbrev main : List Bool
main =
    set_up_passes ∷ test_first_tick_samples_immediately ∷ test_respects_interval
    ∷ test_time_valid_flag_and_epoch ∷ test_set_interval_applies_from_last_sample
    ∷ test_sensor_error_skips_record_and_flags ∷ test_no_sensor
    ∷ test_store_failure_flags_store_not_ok ∷ []

-- The suite passes.
ticks_suite : all_of main ≡ true
unfolding tick tick_due sample store_reading is_early set_interval Sampler.init record_of is_ok
    clamp_i16 clamp_u16 append write_head prepare_sector erase_sector move_tail sector_is_erased
    read_slot LogStore.init scan_sectors LogStore.read read_loop read_one push_decoded count encode
    decode crc16_ccitt is_empty get_u16 get_u32 fields Driver.init Driver.read measure check_id poll
    read_regs write_reg delay_ms on_bus to_err_bus adc_20 adc_16 parse_calib le16 signed16
    compensate t_fine_of temperature pressure pressure_from humidity_raw humidity_centi ◌⊕◌ ◌⊖◌ ◌⊗◌
    shl shr or_int
ticks_suite = refl
