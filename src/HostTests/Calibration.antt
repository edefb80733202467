-- ===== src/HostTests/Calibration.antt =====
-- firmware/test_host/test-bme280-compensate.c, without the comparison with the formulas on doubles.
use s3_bme.Base.{ℕ, ◌+◌, ◌≡◌, refl, Bool, true, leb, ◌&&◌, ◌==◌, List, [], ◌∷◌, ◌++◌, replicate}
use s3_bme.Base.Int.{ℤ, pos, negsuc, eqb_ℤ}
use s3_bme.Base.Int32.{◌⊕◌, ◌⊖◌, ◌⊗◌, shl, shr}
use s3_bme.Bme280.{Calib}
use s3_bme.Bme280.Compensate.{
  le16, signed16, parse_calib, compensate, t_fine_of, temperature, pressure, pressure_from,
}
use s3_bme.Bme280.Compensate.Tests.{calib}
use s3_bme.HostTests.{all_of}

-- TEST_ASSERT_UINT32_WITHIN
abbrev pub within : ℕ → ℕ → ℕ → Bool
within delta expected actual = leb expected (actual + delta) && leb actual (expected + delta)

-- 2508 up to 1, for temperatures that are not negative.
abbrev pub about_2508 : ℤ → Bool
about_2508 (pos t) = within 1 2508 t
about_2508 (negsuc t) = leb 2509 0

abbrev test_datasheet_example_temperature_and_pressure : Bool
test_datasheet_example_temperature_and_pressure =
    let r = compensate calib (pos 519888) (pos 415148) (pos 30000) in
    about_2508 r.temp_centi && within 10 100653 r.pressure_pa

-- The bytes of the first block from dig_t1 to dig_p9, which the tests of the driver share.
abbrev pub calib_words : List ℕ
calib_words =
    0x70 ∷ 0x6B ∷ 0x43 ∷ 0x67 ∷ 0x18 ∷ 0xFC ∷ 0x7D ∷ 0x8E ∷ 0x43 ∷ 0xD6 ∷ 0xD0 ∷ 0x0B ∷ 0x27 ∷ 0x0B
    ∷ 0x8C ∷ 0x00 ∷ 0xF9 ∷ 0xFF ∷ 0x8C ∷ 0x3C ∷ 0xF8 ∷ 0xC6 ∷ 0x70 ∷ 0x17 ∷ []

abbrev parsed : Calib
parsed =
    parse_calib (calib_words ++ (0 ∷ 75 ∷ [])) (0x6F ∷ 0x01 ∷ 0x12 ∷ 0x12 ∷ 0x2D ∷ 0x03 ∷ 30 ∷ [])

abbrev test_parse_calib_decodes_layout : Bool
test_parse_calib_decodes_layout = all_of (
    (parsed.dig_t1 == 27504)
    ∷ eqb_ℤ parsed.dig_t2 (pos 26435)
    ∷ eqb_ℤ parsed.dig_t3 (negsuc 999)
    ∷ (parsed.dig_p1 == 36477)
    ∷ eqb_ℤ parsed.dig_p2 (negsuc 10684)
    ∷ eqb_ℤ parsed.dig_p3 (pos 3024)
    ∷ eqb_ℤ parsed.dig_p4 (pos 2855)
    ∷ eqb_ℤ parsed.dig_p5 (pos 140)
    ∷ eqb_ℤ parsed.dig_p6 (negsuc 6)
    ∷ eqb_ℤ parsed.dig_p7 (pos 15500)
    ∷ eqb_ℤ parsed.dig_p8 (negsuc 14599)
    ∷ eqb_ℤ parsed.dig_p9 (pos 6000)
    ∷ (parsed.dig_h1 == 75)
    ∷ eqb_ℤ parsed.dig_h2 (pos 367)
    ∷ (parsed.dig_h3 == 0x12)
    ∷ eqb_ℤ parsed.dig_h4 (pos 301)
    ∷ eqb_ℤ parsed.dig_h5 (pos 50)
    ∷ eqb_ℤ parsed.dig_h6 (pos 30)
    ∷ [])

abbrev test_parse_calib_sign_extends_h4_h5 : Bool
test_parse_calib_sign_extends_h4_h5 =
    let c = parse_calib (replicate 26 0) (0 ∷ 0 ∷ 0 ∷ 0xFF ∷ 0xFF ∷ 0xFF ∷ 0 ∷ []) in
    eqb_ℤ c.dig_h4 (negsuc 0) && eqb_ℤ c.dig_h5 (negsuc 0)

abbrev main : List Bool
main =
    test_datasheet_example_temperature_and_pressure ∷ test_parse_calib_decodes_layout
    ∷ test_parse_calib_sign_extends_h4_h5 ∷ []

-- The suite passes.
calibration_suite : all_of main ≡ true
unfolding parse_calib le16 signed16 compensate t_fine_of temperature pressure pressure_from ◌⊕◌ ◌⊖◌
    ◌⊗◌ shl shr
calibration_suite = refl
