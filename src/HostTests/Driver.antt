-- ===== src/HostTests/Driver.antt =====
-- firmware/test_host/test-bme280.c: the driver on the emulated sensor.
use s3_bme.Base.{ℕ, ◌+◌, ◌≡◌, refl, Bool, true, false, ◌&&◌, leb, ◌==◌, List, [], ◌∷◌, ◌++◌, get_or}
use s3_bme.Base.Int.{ℤ, pos, eqb_ℤ}
use s3_bme.Base.Int32.{◌⊕◌, ◌⊖◌, ◌⊗◌, shl, shr, or_int}
use s3_bme.Base.Result.{Result, ok, err, hang, is_done}
use s3_bme.Bme280.{Calib, Reading}
use s3_bme.Bme280.Compensate.{
  le16, signed16, parse_calib, compensate, t_fine_of, temperature, pressure, pressure_from,
  humidity_raw, humidity_centi,
}
use s3_bme.Bme280.Driver.{
  Sensor, err_bus, err_chip_id, err_timeout, init, read, measure, check_id, poll, read_regs,
  write_reg, delay_ms, on_bus, to_err_bus, adc_20, adc_16,
}
use s3_bme.HostTests.{all_of}
use s3_bme.HostTests.Calibration.{calib_words}
use s3_bme.HostTests.FakeBus.{FakeBus, set_reg, fake_bus, fake_bus_reset, fake_bus_last_write}

-- `regs[r] = b` for the bytes from one register on.
abbrev pub load : ℕ → List ℕ → (ℕ → ℕ) → ℕ → ℕ
load r [] f = f
load r (b ∷ bs) f = load (r + 1) bs (set_reg r b f)

abbrev pub poke : ℕ → List ℕ → Sensor FakeBus → Sensor FakeBus
poke r bs s = record s { dev = record s.dev { regs = load r bs s.dev.regs } }

-- The static variable `dev` before the first test, on the bus as `setUp` leaves it.
abbrev pub no_calib : Calib
no_calib = record {
  dig_t1 = 0;
  dig_t2 = pos 0;
  dig_t3 = pos 0;
  dig_p1 = 0;
  dig_p2 = pos 0;
  dig_p3 = pos 0;
  dig_p4 = pos 0;
  dig_p5 = pos 0;
  dig_p6 = pos 0;
  dig_p7 = pos 0;
  dig_p8 = pos 0;
  dig_p9 = pos 0;
  dig_h1 = 0;
  dig_h2 = pos 0;
  dig_h3 = 0;
  dig_h4 = pos 0;
  dig_h5 = pos 0;
  dig_h6 = pos 0;
}

abbrev pub set_up : Sensor FakeBus
set_up = record { dev = fake_bus_reset; calib = no_calib }

abbrev load_example_calib : Sensor FakeBus → Sensor FakeBus
load_example_calib s =
    poke 0xE1 (0x6F ∷ 0x01 ∷ 0 ∷ 0x12 ∷ 0x2D ∷ 0x03 ∷ 30 ∷ [])
      (poke 0x88 (calib_words ++ (0 ∷ 75 ∷ [])) s)

-- `TEST_ASSERT_EQUAL` of a code that is not 0.
abbrev gives_code : {A : Type 0} → ℤ → Result A → Bool
gives_code c (ok a) = false
gives_code c (err e) = eqb_ℤ c e
gives_code c hang = false

abbrev test_init_rejects_wrong_chip_id : Bool
test_init_rejects_wrong_chip_id =
    gives_code err_chip_id (init fake_bus (poke 0xD0 (0x58 ∷ []) set_up)).0

abbrev test_init_reports_bus_error : Bool
test_init_reports_bus_error =
    gives_code err_bus
      (init fake_bus (record set_up { dev = record fake_bus_reset { fail = true } })).0

-- The sensor after `bme280_init` with the example's calibration data.
abbrev started : Sensor FakeBus
started = (init fake_bus (load_example_calib set_up)).1

-- `TEST_ASSERT_EQUAL(BME280_OK, bme280_init(...))`
abbrev starts : Bool
starts = is_done (init fake_bus (load_example_calib set_up)).0

abbrev test_init_resets_reads_calib_and_configures : Bool
test_init_resets_reads_calib_and_configures =
    let s = started in
    let first = get_or s.dev.write_log 0 (0, 0) in
    all_of (
      starts
      ∷ (first.0 == 0xE0)
      ∷ (first.1 == 0xB6)
      ∷ (s.calib.dig_t1 == 27504)
      ∷ eqb_ℤ s.calib.dig_h4 (pos 301)
      ∷ (s.dev.regs 0xF2 == 0x01)
      ∷ (s.dev.regs 0xF5 == 0x00)
      ∷ (s.dev.regs 0xF4 == 0x24)
      ∷ [])

-- The values in the data registers are 519888, 415148 and 30000.
abbrev measured : Result Reading × Sensor FakeBus
measured =
    read fake_bus (poke 0xF7 (0x65 ∷ 0x5A ∷ 0xC0 ∷ 0x7E ∷ 0xED ∷ 0x00 ∷ 0x75 ∷ 0x30 ∷ []) started)

abbrev same_reading : Reading → Result Reading → Bool
same_reading e (ok r) =
    eqb_ℤ e.temp_centi r.temp_centi
    && ((e.pressure_pa == r.pressure_pa) && (e.hum_centi == r.hum_centi))
same_reading e (err c) = false
same_reading e hang = false

abbrev test_read_triggers_forced_mode_and_compensates : Bool
test_read_triggers_forced_mode_and_compensates = all_of (
    leb (started.dev.delay_calls + 1) measured.1.dev.delay_calls
    ∷ (fake_bus_last_write 0xF4 measured.1.dev == 0x25)
    ∷ same_reading (compensate started.calib (pos 519888) (pos 415148) (pos 30000)) measured.0
    ∷ [])

abbrev test_read_times_out_when_measuring_never_clears : Bool
test_read_times_out_when_measuring_never_clears =
    starts && gives_code err_timeout (read fake_bus (poke 0xF3 (0x08 ∷ []) started)).0

abbrev test_read_fails_when_sensor_disconnected : Bool
test_read_fails_when_sensor_disconnected =
    starts && gives_code err_chip_id (read fake_bus (poke 0xD0 (0xFF ∷ []) started)).0

abbrev main : List Bool
main =
    test_init_rejects_wrong_chip_id ∷ test_init_reports_bus_error
    ∷ test_init_resets_reads_calib_and_configures ∷ test_read_triggers_forced_mode_and_compensates
    ∷ test_read_times_out_when_measuring_never_clears ∷ test_read_fails_when_sensor_disconnected
    ∷ []

-- The suite passes.
driver_suite : all_of main ≡ true
unfolding init read measure check_id poll read_regs write_reg delay_ms on_bus to_err_bus adc_20
    adc_16 parse_calib le16 signed16 compensate t_fine_of temperature pressure pressure_from
    humidity_raw humidity_centi ◌⊕◌ ◌⊖◌ ◌⊗◌ shl shr or_int
driver_suite = refl
