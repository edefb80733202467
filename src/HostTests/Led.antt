-- ===== src/HostTests/Led.antt =====
-- firmware/test_host/test-status-led.c
use s3_bme.Base.{ℕ, ◌≡◌, refl, Bool, true, ◌&&◌, List, [], ◌∷◌, ◌==◌}
use s3_bme.StatusLed.{
  Rgb, led_off, led_ok, led_ok_no_time, led_error, led_wifi_connecting, blink, color,
}
use s3_bme.HostTests.{all_of}

abbrev assert_rgb : Rgb → ℕ → ℕ → ℕ → Bool
assert_rgb c r g b = (c.r == r) && ((c.g == g) && (c.b == b))

-- STATUS_LED_BRIGHTNESS
abbrev brightness : ℕ
brightness = 255

abbrev test_ok_is_dim_steady_green : Bool
test_ok_is_dim_steady_green =
    all_of (
      assert_rgb (color led_ok 0) 0 brightness 0
      ∷ assert_rgb (color led_ok 700) 0 brightness 0
      ∷ [])

abbrev test_error_is_dim_steady_red : Bool
test_error_is_dim_steady_red = all_of (
    assert_rgb (color led_error 0) brightness 0 0
    ∷ assert_rgb (color led_error 700) brightness 0 0
    ∷ [])

abbrev test_no_time_blinks_green_at_half_second : Bool
test_no_time_blinks_green_at_half_second = all_of (
    assert_rgb (color led_ok_no_time 0) 0 brightness 0
    ∷ assert_rgb (color led_ok_no_time 499) 0 brightness 0
    ∷ assert_rgb (color led_ok_no_time 500) 0 0 0
    ∷ assert_rgb (color led_ok_no_time 999) 0 0 0
    ∷ assert_rgb (color led_ok_no_time 1000) 0 brightness 0
    ∷ [])

abbrev test_off : Bool
test_off = assert_rgb (color led_off 123) 0 0 0

abbrev test_wifi_connecting_blinks_blue : Bool
test_wifi_connecting_blinks_blue = all_of (
    assert_rgb (color led_wifi_connecting 0) 0 0 brightness
    ∷ assert_rgb (color led_wifi_connecting 500) 0 0 0
    ∷ assert_rgb (color led_wifi_connecting 1000) 0 0 brightness
    ∷ [])

abbrev main : List Bool
main =
    test_ok_is_dim_steady_green ∷ test_error_is_dim_steady_red
    ∷ test_no_time_blinks_green_at_half_second ∷ test_off ∷ test_wifi_connecting_blinks_blue ∷ []

-- The suite passes.
led_suite : all_of main ≡ true
unfolding color blink
led_suite = refl
