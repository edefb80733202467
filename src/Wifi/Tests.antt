-- ===== src/Wifi/Tests.antt =====
-- The state machine at concrete events.
use s3_bme.Base.{◌⊎◌, false, ℕ, suc, ◌≡◌, refl, true, some, List, [], ◌∷◌, ltb, if◌then◌else◌}
use s3_bme.Wifi.{
  timer_create, connect, radio, step, retry_timer_cb, on_ip_event, shown_ip, off, connecting,
  connected, failed, Answers, Wifi, boot, sta_start, sta_disconnected, Event, got_ip, run, delay_s,
  set_credentials,
}
use s3_bme.Wifi.Start.{init}
use s3_bme.Wifi.Invariant.{IsConsistent, run-IsConsistent}
use s3_bme.Wifi.Progress.{Arms, Tries, run-reconnects, step-Tries}
use s3_bme.Wifi.Retry.{losses, run-losses, connects, set_credentials-forgets}

abbrev all_ok : Answers
all_ok c = true

abbrev home : List ℕ × List ℕ
home = (b'h' ∷ [], b'p' ∷ [])

abbrev script : List (Answers × Event)
script =
    (all_ok, radio sta_start) ∷ (all_ok, got_ip (b'1' ∷ [])) ∷ (all_ok, radio sta_disconnected) ∷ []

abbrev online : Wifi
online = record boot { state = connected; started = true; want_connect = true }

run-IsConsistent_example : IsConsistent (run script (init all_ok (some home) boot).1)
run-IsConsistent_example = run-IsConsistent all_ok (some home) script

run-losses_example :
    ((run (losses all_ok (suc 6)) online).state ≡ (if ltb 6 4 then connecting else failed))
    × ((run (losses all_ok (suc 6)) online).want_connect ≡ true)
    × ((run (losses all_ok (suc 6)) online).retries ≡ suc 6)
run-losses_example = run-losses all_ok 6 online refl refl refl

set_credentials-forgets_example :
    ((set_credentials all_ok [] [] online).1.state ≡ off)
    × (connects (run script (set_credentials all_ok [] [] online).1).calls ≡ connects online.calls)
set_credentials-forgets_example = set_credentials-forgets all_ok [] online script done tt
  where
    done : (set_credentials all_ok [] [] online).0 ≡ true
    done = unfold set_credentials in refl

run-reconnects_example :
    Arms (delay_s 2) (run (losses all_ok (suc 2)) online).calls
    × ((retry_timer_cb all_ok (run (losses all_ok (suc 2)) online)).calls
        ≡ connect ∷ (run (losses all_ok (suc 2)) online).calls)
    × ((on_ip_event all_ok
          (b'1' ∷ [])
          (retry_timer_cb all_ok (run (losses all_ok (suc 2)) online))).state
        ≡ connected)
    × (shown_ip (
          on_ip_event all_ok
            (b'1' ∷ [])
            (retry_timer_cb all_ok (run (losses all_ok (suc 2)) online)))
        ≡ b'1' ∷ [])
    × ((on_ip_event all_ok
          (b'1' ∷ [])
          (retry_timer_cb all_ok (run (losses all_ok (suc 2)) online))).retries
        ≡ 0)
run-reconnects_example = run-reconnects all_ok all_ok (b'1' ∷ []) 2 online refl refl refl refl

-- No call succeeds.
abbrev all_fail : Answers
all_fail c = false

abbrev switching : Wifi
switching = record online { reconnect_now = true }

step-Tries_example :
    Tries all_fail (step all_fail (radio sta_disconnected) switching).calls
    ⊎ ((radio sta_disconnected ≡ radio sta_disconnected)
        × (switching.reconnect_now ≡ true)
        × (all_fail connect ≡ false)
        × ((step all_fail (radio sta_disconnected) switching).state ≡ connecting)
        × ((step all_fail (radio sta_disconnected) switching).calls ≡ connect ∷ switching.calls))
step-Tries_example = step-Tries all_fail (radio sta_disconnected) switching refl tt

-- The timer cannot be created.
abbrev no_timer : Answers
no_timer timer_create = false
no_timer c = true
