-- ===== src/Wifi/Invariant.antt =====
-- What holds of the state machine after any events.
use s3_bme.Base.{
  ℕ, ◌≤◌, ◌≡◌, refl, arith, Bool, true, false, Bool-cases, inl, inr, Option, none, some, List, [],
  ◌∷◌,
}
use s3_bme.Wifi.{
  connecting, failed, Answers, Wifi, boot, RadioEvent, sta_start, sta_disconnected, other, Event,
  radio, got_ip, retry_timer, credentials, step, run, on_wifi_event, on_ip_event, off, Call, call,
  driver_init, create_sta, event_loop, netif_init, retry_timer_cb, set_credentials,
}
use s3_bme.Wifi.Start.{under_check, check_all, connect_stored, go_on, init}

-- While the device tries to connect it has been told to, and it shows a failure only with the count of
-- the retries at five at least; without credentials no reconnection is pending.
pub record IsConsistent (w : Wifi) : Type 0 where
  pub connecting_wanted : w.state ≡ connecting → w.want_connect ≡ true
  pub failed_wanted : w.state ≡ failed → w.want_connect ≡ true
  pub failed_tries : w.state ≡ failed → 5 ≤ w.retries
  pub reconnect_wanted : w.reconnect_now ≡ true → w.want_connect ≡ true

on_wifi_event-IsConsistent :
    (answers : Answers) (e : RadioEvent) (w : Wifi)
    → IsConsistent w
    → IsConsistent (on_wifi_event answers e w)
unfolding on_wifi_event
on_wifi_event-IsConsistent answers sta_start w h = ground arith
on_wifi_event-IsConsistent answers sta_disconnected w h = ground arith
on_wifi_event-IsConsistent answers other w h = h

on_ip_event-IsConsistent :
    (answers : Answers) (ip : List ℕ) (w : Wifi)
    → IsConsistent w
    → IsConsistent (on_ip_event answers ip w)
unfolding on_ip_event
on_ip_event-IsConsistent answers ip w h = ground arith

retry_timer_cb-IsConsistent :
    (answers : Answers) (w : Wifi) → IsConsistent w → IsConsistent (retry_timer_cb answers w)
unfolding retry_timer_cb
retry_timer_cb-IsConsistent answers w h = ground arith

pub set_credentials-IsConsistent :
    (answers : Answers) (ssid password : List ℕ) (w : Wifi)
    → IsConsistent w
    → IsConsistent (set_credentials answers ssid password w).1
unfolding set_credentials
set_credentials-IsConsistent answers ssid password w h = ground arith

pub step-IsConsistent :
    (answers : Answers) (e : Event) (w : Wifi) → IsConsistent w → IsConsistent (step answers e w)
unfolding step
step-IsConsistent answers (radio e) w h = on_wifi_event-IsConsistent answers e w h
step-IsConsistent answers (got_ip ip) w h = on_ip_event-IsConsistent answers ip w h
step-IsConsistent answers retry_timer w h = retry_timer_cb-IsConsistent answers w h
step-IsConsistent answers (credentials ssid password) w h =
    set_credentials-IsConsistent answers ssid password w h

-- The checked calls of `wifi_init` change nothing but the list of the calls.
check_all-calls :
    (answers : Answers) (cs : List Call) (w : Wifi)
    → (check_all answers cs w).1 ≡ record w { calls = (check_all answers cs w).1.calls }
unfolding check_all call
check_all-calls answers [] w = refl
check_all-calls answers (c ∷ cs) w = elim (Bool-cases (answers c)) [
  | inl passed ↦ rw passed (check_all-calls answers cs (call c w))
  | inr refused ↦ rw refused refl
]

-- Before the credentials are read.
abbrev IsIdle : Wifi → Type 0
IsIdle w = (w.state ≡ off) × (w.reconnect_now ≡ false)

check_all-IsIdle :
    (answers : Answers) (cs : List Call) (w : Wifi) → IsIdle w → IsIdle (check_all answers cs w).1
check_all-IsIdle answers cs w h = rw (check_all-calls answers cs w) h

go_on-IsConsistent :
    (answers : Answers) (stored : Option (List ℕ × List ℕ)) (fine : Bool) (w : Wifi)
    → IsIdle w
    → IsConsistent (go_on answers stored fine w).1
unfolding go_on connect_stored
go_on-IsConsistent answers stored false w h = ground arith
go_on-IsConsistent answers none true w h = ground arith
go_on-IsConsistent answers (some (ssid, password)) true w h = ground arith

pub init-IsConsistent :
    (answers : Answers) (stored : Option (List ℕ × List ℕ))
    → IsConsistent (init answers stored boot).1
unfolding init
init-IsConsistent answers stored =
    let w : Wifi = record boot {
      calls = driver_init ∷ create_sta ∷ event_loop ∷ netif_init ∷ [];
    } in
    ground (
      arith,
      go_on-IsConsistent answers stored (check_all answers under_check w).0
          (check_all answers under_check w).1 (check_all-IsIdle answers under_check w (refl, refl)),
    )

run_from : (es : List (Answers × Event)) (w : Wifi) → IsConsistent w → IsConsistent (run es w)
unfolding run
run_from [] w h = h
run_from ((answers, e) ∷ es) w h = run_from es (step answers e w) (step-IsConsistent answers e w h)

-- After start-up and any sequence of events, whatever the calls answer, the state machine is
-- consistent.
pub run-IsConsistent :
    (answers : Answers) (stored : Option (List ℕ × List ℕ)) (es : List (Answers × Event))
    → IsConsistent (run es (init answers stored boot).1)
run-IsConsistent answers stored es = run_from es _ (init-IsConsistent answers stored)
