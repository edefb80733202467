-- ===== src/StatusLed/Tests.antt =====
-- The LED at concrete inputs.
use s3_bme.Base.{ℕ, ◌≡◌, List, [], ◌∷◌, ◌++◌}
use s3_bme.StatusLed.{LedState, led_ok, led_ok_no_time, grb, color, fresh}
use s3_bme.StatusLed.Laws.{show, show-color}

abbrev updates : List (LedState × ℕ)
updates = (led_ok_no_time, 0) ∷ (led_ok_no_time, 499) ∷ (led_ok_no_time, 500) ∷ []

show-color_example : show (updates ++ ((led_ok, 700) ∷ [])) [] fresh ≡ grb (color led_ok 700)
show-color_example = show-color updates led_ok 700
