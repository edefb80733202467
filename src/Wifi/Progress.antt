-- ===== src/Wifi/Progress.antt =====
-- The attempts to connect: when they are made, and how the device gets back.
use s3_bme.Base.{
  Bool, not, ◌&&◌, ℕ, zero, suc, ◌+◌, ◌*◌, ◌≤◌, ◌≡◌, ◌⊎◌, inl, inr, refl, arith, true, false, List,
  [], ◌∷◌, ltb, if◌then◌else◌,
}
use s3_bme.Wifi.{
  off, connecting, connected, failed, is_connected, other, got_ip, credentials, Call, connect,
  timer_start, Answers, Wifi, sta_start, sta_disconnected, Event, radio, retry_timer, step, run,
  delay_s, schedule_retry, connect_or_retry, call, on_wifi_event, on_ip_event, retry_timer_cb,
  shown_ip,
}
use s3_bme.Wifi.Retry.{delay_s-bounds, IsRetrying, disconnected, losses, losses_from}

-- The last call arms the timer for `d` seconds.
abbrev pub Arms : ℕ → List Call → Type 0
Arms d calls = (cs : List Call) × (calls ≡ timer_start (d * 1000000) ∷ cs)

disconnected-Arms :
    (answers : Answers) (n : ℕ) (w : Wifi)
    → IsRetrying n w
    → Arms (delay_s n) (step answers (radio sta_disconnected) w).calls
unfolding step on_wifi_event schedule_retry call
disconnected-Arms answers n w h = (w.calls, rw (h.wanted, h.no_reconnect, h.tries) refl)

losses-Arms :
    (answers : Answers) (left n : ℕ) (w : Wifi)
    → IsRetrying n w
    → Arms (delay_s (n + left)) (run (losses answers (suc left)) w).calls
unfolding run
losses-Arms answers zero n w h =
    let same : n + 0 ≡ n = omega arith in rw same (disconnected-Arms answers n w h)
losses-Arms answers (suc left) n w h =
    let (retrying, _) = disconnected answers n w h in
    let more : n + 1 + left ≡ n + suc left = omega arith in
    rw (← more)
      (losses-Arms answers left (n + 1) (step answers (radio sta_disconnected) w) retrying)

got_ip-connected :
    (again : Answers) (ip : List ℕ) (v : Wifi)
    → ((on_ip_event again ip v).state ≡ connected)
      × (shown_ip (on_ip_event again ip v) ≡ ip)
      × ((on_ip_event again ip v).retries ≡ 0)
unfolding on_ip_event shown_ip
got_ip-connected again ip v = ground arith

timer-reconnects :
    (again : Answers) (ip : List ℕ) (v : Wifi)
    → v.want_connect ≡ true
    → is_connected v.state ≡ false
    → again connect ≡ true
    → ((retry_timer_cb again v).calls ≡ connect ∷ v.calls)
      × ((on_ip_event again ip (retry_timer_cb again v)).state ≡ connected)
      × (shown_ip (on_ip_event again ip (retry_timer_cb again v)) ≡ ip)
      × ((on_ip_event again ip (retry_timer_cb again v)).retries ≡ 0)
timer-reconnects again ip v wanted away ok =
    let (state, shown, tries) = got_ip-connected again ip (retry_timer_cb again v) in
    (unfold retry_timer_cb in (rw (wanted, away, ok) refl), state, shown, tries)

not_connected : (b : Bool) → is_connected (if b then connecting else failed) ≡ false
not_connected true = refl
not_connected false = refl

-- The device has lost its connection `n + 1` times in a row, with no success in between. The timer
-- is armed for the delay of the back-off; when it goes off `esp_wifi_connect` is called, and if that
-- succeeds and an address is got, the device is connected, shows the address and has no retries.
pub run-reconnects :
    (answers again : Answers) (ip : List ℕ) (n : ℕ) (w : Wifi)
    → w.want_connect ≡ true
    → w.reconnect_now ≡ false
    → w.retries ≡ 0
    → again connect ≡ true
    → Arms (delay_s n) (run (losses answers (suc n)) w).calls
      × ((retry_timer_cb again (run (losses answers (suc n)) w)).calls
          ≡ connect ∷ (run (losses answers (suc n)) w).calls)
      × ((on_ip_event again ip (retry_timer_cb again (run (losses answers (suc n)) w))).state
          ≡ connected)
      × (shown_ip (on_ip_event again ip (retry_timer_cb again (run (losses answers (suc n)) w)))
          ≡ ip)
      × ((on_ip_event again ip (retry_timer_cb again (run (losses answers (suc n)) w))).retries ≡ 0)
run-reconnects answers again ip n w wanted no_reconnect fresh ok =
    let start : IsRetrying 0 w = record {
      wanted = wanted;
      no_reconnect = no_reconnect;
      tries = fresh;
    } in
    let (retrying, shown) = losses_from answers n 0 w start in
    let index : 0 + n ≡ n = omega arith in
    let away : is_connected (run (losses answers (suc n)) w).state ≡ false =
      rw shown (not_connected (ltb (0 + n) 4)) in
    let (called, back, shows, none) =
      timer-reconnects again ip (run (losses answers (suc n)) w) retrying.wanted away ok in
    (rw index at (losses-Arms answers n 0 w start), called, back, shows, none)

-- What a step does for a connection: the call is made and succeeds, or the timer is armed, for 1
-- to 60 seconds.
abbrev pub Tries : Answers → List Call → Type 0
Tries answers calls =
    ((answers connect ≡ true) × ((cs : List Call) × (calls ≡ connect ∷ cs)))
    ⊎ ((d : ℕ) × (1 ≤ d) × (d ≤ 60) × Arms d calls)

connect_or_retry-Tries :
    (answers : Answers) (w : Wifi) → Tries answers (connect_or_retry answers w).calls
unfolding connect_or_retry schedule_retry call
connect_or_retry-Tries answers w = tried (answers connect) refl
  where
    tried :
        (b : Bool)
        → answers connect ≡ b
        → Tries answers (if b then call connect w else schedule_retry (call connect w)).calls
    tried true e = inl (e, (w.calls, refl))
    tried false e =
        let (least, most, _) = delay_s-bounds w.retries in
        inr (delay_s w.retries, least, most, (connect ∷ w.calls, refl))

if_true-Tries :
    (answers : Answers) (b : Bool) (x y : Wifi)
    → b ≡ true
    → Tries answers x.calls
    → Tries answers (if b then x else y).calls
if_true-Tries answers true x y e h = h
if_true-Tries answers false x y e h = absurd (cc)

-- An event on which a device that is told to connect has to do something about it.
abbrev pub Awaited : Event → Wifi → Type 0
Awaited (radio sta_start) w = Unit {0}
Awaited (radio sta_disconnected) w = Unit {0}
Awaited retry_timer w = is_connected w.state ≡ false
Awaited e w = ⊥

lost-Tries :
    (answers : Answers) (w : Wifi) (wanted now ok : Bool)
    → wanted ≡ true
    → w.reconnect_now ≡ now
    → answers connect ≡ ok
    → let w' : Wifi = record w { ip = [] } in
      let v =
        if not wanted
        then record w' { state = off }
        else if now
        then call connect (record w' { reconnect_now = false; retries = 0; state = connecting })
        else schedule_retry w' in
      Tries answers v.calls
      ⊎ ((radio sta_disconnected ≡ radio sta_disconnected)
          × (w.reconnect_now ≡ true)
          × (answers connect ≡ false)
          × (v.state ≡ connecting)
          × (v.calls ≡ connect ∷ w.calls))
unfolding schedule_retry call
lost-Tries answers w true true true wanted now ok = inl (inl (ok, (w.calls, refl)))
lost-Tries answers w true true false wanted now ok = inr (refl, now, ok, refl, refl)
lost-Tries answers w true false ok wanted now _ =
    let (least, most, _) = delay_s-bounds w.retries in
    inl (inr (delay_s w.retries, least, most, (w.calls, refl)))
lost-Tries answers w false now ok wanted _ _ = absurd (cc)

-- A device that is told to connect makes the call with success or arms the timer whenever the radio
-- starts, the connection is lost, or the timer goes off with no connection; but one that is to
-- reconnect at once with new credentials makes the call and, if it fails, arms no timer.
pub step-Tries :
    (answers : Answers) (e : Event) (w : Wifi)
    → w.want_connect ≡ true
    → Awaited e w
    → Tries answers (step answers e w).calls
      ⊎ ((e ≡ radio sta_disconnected)
          × (w.reconnect_now ≡ true)
          × (answers connect ≡ false)
          × ((step answers e w).state ≡ connecting)
          × ((step answers e w).calls ≡ connect ∷ w.calls))
unfolding step on_wifi_event retry_timer_cb
step-Tries answers (radio sta_start) w wanted _ = inl (
    if_true-Tries answers w.want_connect _ w wanted
      (connect_or_retry-Tries answers (record w { state = connecting })))
step-Tries answers retry_timer w wanted away = inl (
    if_true-Tries answers (w.want_connect && not (is_connected w.state)) _ w
      (rw (wanted, away) refl) (connect_or_retry-Tries answers w))
step-Tries answers (radio sta_disconnected) w wanted _ =
    lost-Tries answers w w.want_connect w.reconnect_now (answers connect) wanted refl refl
step-Tries answers (radio other) w wanted f = absurd f
step-Tries answers (got_ip ip) w wanted f = absurd f
step-Tries answers (credentials ssid password) w wanted f = absurd f
