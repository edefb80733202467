-- ===== src/StatusLed/Laws.antt =====
-- What the LED shows after updates.
use s3_bme.Base.{
  ℕ, ◌≡◌, ◌≢◌, ◌⊎◌, inl, inr, refl, arith, true, Bool-cases, Option, none, some, List, [], ◌∷◌,
  ◌++◌,
}
use s3_bme.StatusLed.{
  LedState, led_off, led_ok, led_ok_no_time, led_error, led_wifi_connecting, Rgb, blink, color,
  same_color, grb, Led, fresh, update,
}

-- The bytes that the LED has got last.
abbrev pub sent : Option (List ℕ) → List ℕ → List ℕ
sent none shown = shown
sent (some bytes) shown = bytes

-- The same after a list of updates, `shown` before them.
pub show : List (LedState × ℕ) → List ℕ → Led → List ℕ
show [] shown l = shown
show ((state, now_ms) ∷ us) shown l =
    show us (sent (update state now_ms l).0 shown) (update state now_ms l).1

-- The LED shows the colour that the driver remembers, or nothing has been sent.
record IsShown (l : Led) (shown : List ℕ) : Type 0 where
  channel : l.has_channel ≡ true
  agrees : ((l.last.r ≡ 255) × (l.last.g ≡ 255)) ⊎ (shown ≡ grb l.last)

-- No colour has both red and green, as the initial `g_last` has.
color_differs :
    (state : LedState) (now_ms : ℕ) → (color state now_ms).r ≡ 255 → (color state now_ms).g ≢ 255
unfolding color blink
color_differs led_off now_ms h = omega arith
color_differs led_ok now_ms h = omega arith
color_differs led_ok_no_time now_ms h = ground arith
color_differs led_error now_ms h = omega arith
color_differs led_wifi_connecting now_ms h = ground arith

same_color-grb : (c d : Rgb) → same_color c d ≡ true → (c.r ≡ d.r) × (c.g ≡ d.g) × (grb d ≡ grb c)
unfolding same_color
same_color-grb c d e = ground arith

update_shows :
    (state : LedState) (now_ms : ℕ) (l : Led) (shown : List ℕ)
    → IsShown l shown
    → (sent (update state now_ms l).0 shown ≡ grb (color state now_ms))
      × IsShown (update state now_ms l).1 (sent (update state now_ms l).0 shown)
unfolding update
update_shows state now_ms l shown h = elim (Bool-cases (same_color (color state now_ms) l.last)) [
  | inl same ↦
      let (er, eg, e) = same_color-grb (color state now_ms) l.last same in
      let stays : shown ≡ grb (color state now_ms) = elim (h.agrees) [
        | inl (white_r, white_g) ↦
            absurd (color_differs state now_ms (cc (er, white_r)) (cc (eg, white_g)))
        | inr shows ↦ cc (shows, e)
      ] in
      rw (h.channel, same) (stays, record { channel = refl; agrees = h.agrees })
  | inr new ↦ rw (h.channel, new) (refl, record { channel = refl; agrees = inr refl })
]

show_from :
    (us : List (LedState × ℕ)) (state : LedState) (now_ms : ℕ) (l : Led) (shown : List ℕ)
    → IsShown l shown
    → show (us ++ ((state, now_ms) ∷ [])) shown l ≡ grb (color state now_ms)
unfolding show
show_from [] state now_ms l shown h = (update_shows state now_ms l shown h).0
show_from ((s, t) ∷ us) state now_ms l shown h =
    show_from us state now_ms _ _ (update_shows s t l shown h).1

-- After start-up and any updates, the bytes transmitted last, when each transmission succeeds, are
-- those of the colour that the last update asks for, though an update that keeps the colour
-- transmits nothing.
pub show-color :
    (us : List (LedState × ℕ)) (state : LedState) (now_ms : ℕ)
    → show (us ++ ((state, now_ms) ∷ [])) [] fresh ≡ grb (color state now_ms)
show-color us state now_ms =
    show_from us state now_ms fresh [] (record { channel = refl; agrees = inl (refl, refl) })
