-- ===== src/Wifi/Retry.antt =====
-- The back-off, and what forgetting the network means.
use s3_bme.Base.{
  dec_lt, ℕ, zero, suc, ◌+◌, ◌≤◌, ◌<◌, ◌≡◌, refl, ◌∙◌, arith, true, false, List, [], ◌∷◌, replicate,
  ltb, if◌then◌else◌,
}
use s3_bme.Wifi.{
  off, connecting, failed, Call, connect, Answers, Wifi, sta_start, sta_disconnected, other, Event,
  radio, got_ip, retry_timer, credentials, step, run, delay_s, schedule_retry, call, on_wifi_event,
  on_ip_event, retry_timer_cb, set_credentials,
}

delay_s-big : (r : ℕ) → 6 ≤ r → delay_s r ≡ 60
unfolding delay_s
delay_s-big r h = let test : ltb r 6 ≡ false = ground arith in rw test

delay_s-small : (r : ℕ) → r < 6 → (1 ≤ delay_s r) × (delay_s r ≤ 60) × (delay_s r ≤ delay_s (r + 1))
unfolding delay_s
delay_s-small zero h = omega arith
delay_s-small (suc zero) h = omega arith
delay_s-small (suc (suc zero)) h = omega arith
delay_s-small (suc (suc (suc zero))) h = omega arith
delay_s-small (suc (suc (suc (suc zero)))) h = omega arith
delay_s-small (suc (suc (suc (suc (suc zero))))) h = omega arith
delay_s-small (suc (suc (suc (suc (suc (suc r)))))) h = absurd (omega arith)

-- The delay before a retry is from 1 to 60 seconds, and does not fall as the retries go on.
pub delay_s-bounds : (r : ℕ) → (1 ≤ delay_s r) × (delay_s r ≤ 60) × (delay_s r ≤ delay_s (r + 1))
delay_s-bounds r = elim (dec_lt r 6) [
  | yes small ↦ delay_s-small r small
  | no big ↦ omega (arith, delay_s-big r (omega arith), delay_s-big (r + 1) (omega arith))
]

-- What a lost connection leaves, told to connect and with `n` retries made.
pub record IsRetrying (n : ℕ) (w : Wifi) : Type 0 where
  pub wanted : w.want_connect ≡ true
  pub no_reconnect : w.reconnect_now ≡ false
  pub tries : w.retries ≡ n

pub disconnected :
    (answers : Answers) (n : ℕ) (w : Wifi)
    → IsRetrying n w
    → IsRetrying (n + 1) (step answers (radio sta_disconnected) w)
      × ((step answers (radio sta_disconnected) w).state ≡ (if ltb n 4 then connecting else failed))
unfolding step on_wifi_event schedule_retry call
disconnected answers n w h = ground arith

-- `n` lost connections in a row.
abbrev pub losses : Answers → ℕ → List (Answers × Event)
losses answers n = replicate n (answers, radio sta_disconnected)

pub losses_from :
    (answers : Answers) (left n : ℕ) (w : Wifi)
    → IsRetrying n w
    → IsRetrying (n + suc left) (run (losses answers (suc left)) w)
      × ((run (losses answers (suc left)) w).state
          ≡ (if ltb (n + left) 4 then connecting else failed))
unfolding run
losses_from answers zero n w h =
    let (retrying, shown) = disconnected answers n w h in
    let same : n + 0 ≡ n = omega arith in (retrying, rw same shown)
losses_from answers (suc left) n w h =
    let (retrying, _) = disconnected answers n w h in
    let later =
      losses_from answers left (n + 1) (step answers (radio sta_disconnected) w) retrying in
    let more : n + 1 + left ≡ n + suc left = omega arith in
    let all : n + 1 + suc left ≡ n + suc (suc left) = omega arith in rw (← more, ← all) later

-- A device that is connected and without retries, and is told `n + 1` times of a lost connection with
-- no success in between, shows a failure from the fifth time on, which is the loss itself and four
-- reconnections that failed, and is still told to connect.
pub run-losses :
    (answers : Answers) (n : ℕ) (w : Wifi)
    → w.want_connect ≡ true
    → w.reconnect_now ≡ false
    → w.retries ≡ 0
    → ((run (losses answers (suc n)) w).state ≡ (if ltb n 4 then connecting else failed))
      × ((run (losses answers (suc n)) w).want_connect ≡ true)
      × ((run (losses answers (suc n)) w).retries ≡ suc n)
run-losses answers n w wanted no_reconnect fresh =
    let start : IsRetrying 0 w = record {
      wanted = wanted;
      no_reconnect = no_reconnect;
      tries = fresh;
    } in
    let (retrying, shown) = losses_from answers n 0 w start in
    let index : 0 + n ≡ n = omega arith in
    (rw index at shown, retrying.wanted, omega (arith, retrying.tries))

-- How often `esp_wifi_connect` has been called.
abbrev pub connects : List Call → ℕ
connects [] = 0
connects (connect ∷ cs) = suc (connects cs)
connects (c ∷ cs) = connects cs

-- No new credentials are set.
abbrev pub NoCredentials : List (Answers × Event) → Type 0
NoCredentials [] = Unit {0}
NoCredentials ((answers, credentials ssid password) ∷ es) = ⊥
NoCredentials ((answers, e) ∷ es) = NoCredentials es

-- Told not to connect, the device does not call for a connection on any event of the radio or
-- of the timer.
quiet_step :
    (answers : Answers) (e : Event) (w : Wifi)
    → NoCredentials ((answers, e) ∷ [])
    → w.want_connect ≡ false
    → ((step answers e w).want_connect ≡ false)
      × (connects (step answers e w).calls ≡ connects w.calls)
unfolding step on_wifi_event on_ip_event retry_timer_cb
quiet_step answers (radio sta_start) w ok h = ground arith
quiet_step answers (radio sta_disconnected) w ok h = ground arith
quiet_step answers (radio other) w ok h = ground arith
quiet_step answers (got_ip ip) w ok h = ground arith
quiet_step answers retry_timer w ok h = ground arith
quiet_step answers (credentials ssid password) w ok h = absurd ok

quiet_run :
    (es : List (Answers × Event)) (w : Wifi)
    → NoCredentials es
    → w.want_connect ≡ false
    → connects (run es w).calls ≡ connects w.calls
unfolding run
quiet_run [] w ok h = refl
quiet_run ((answers, radio e) ∷ es) w ok h =
    let (still, same) = quiet_step answers (radio e) w tt h in
    quiet_run es (step answers (radio e) w) ok still ∙ same
quiet_run ((answers, got_ip ip) ∷ es) w ok h =
    let (still, same) = quiet_step answers (got_ip ip) w tt h in
    quiet_run es (step answers (got_ip ip) w) ok still ∙ same
quiet_run ((answers, retry_timer) ∷ es) w ok h =
    let (still, same) = quiet_step answers retry_timer w tt h in
    quiet_run es (step answers retry_timer w) ok still ∙ same
quiet_run ((answers, credentials ssid password) ∷ es) w ok h = absurd ok

forgotten :
    (answers : Answers) (password : List ℕ) (w : Wifi)
    → (set_credentials answers [] password w).0 ≡ true
    → ((set_credentials answers [] password w).1.want_connect ≡ false)
      × ((set_credentials answers [] password w).1.state ≡ off)
      × (connects (set_credentials answers [] password w).1.calls ≡ connects w.calls)
unfolding set_credentials
forgotten answers password w h = ground arith

-- Once the credentials are cleared with success, the device is off, and no sequence of events
-- without new credentials makes it call for a connection again.
pub set_credentials-forgets :
    (answers : Answers) (password : List ℕ) (w : Wifi) (es : List (Answers × Event))
    → (set_credentials answers [] password w).0 ≡ true
    → NoCredentials es
    → ((set_credentials answers [] password w).1.state ≡ off)
      × (connects (run es (set_credentials answers [] password w).1).calls ≡ connects w.calls)
set_credentials-forgets answers password w es done ok =
    let (unwanted, down, same) = forgotten answers password w done in
    (down, quiet_run es (set_credentials answers [] password w).1 ok unwanted ∙ same)
