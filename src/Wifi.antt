-- ===== src/Wifi.antt =====
-- firmware/main/wifi.c: the connection state machine.
-- The ESP-IDF calls are not in the repository: a step is given what they answer, `true` for
-- ESP_OK, and the state keeps the list of the calls made. A step makes each call once at most.
pub mod Start
pub mod Invariant
pub mod Retry
pub mod Progress
mod Tests
use s3_bme.Base.{
  ℕ, ◌+◌, ◌*◌, ◌%◌, ◌^◌, ltb, leb, if◌then◌else◌, ◌&&◌, not, Bool, true, false, Option, none, some,
  List, [], ◌∷◌, ◌++◌, codes, take,
}

-- `wifi_state_t`
pub data WifiState : Type 0 where
  off connecting connected failed : WifiState

-- What `apply_config` fills in of `wifi_config_t`: the places of the ssid and of the password up to
-- a NUL, and whether the network has to have WPA2.
pub record Config : Type 0 where
  pub ssid : List ℕ
  pub password : List ℕ
  pub needs_wpa2 : Bool

-- The calls out of the file, timer delays in microseconds.
pub data Call : Type 0 where
  netif_init event_loop create_sta driver_init store_credentials : Call
  set_storage register_wifi_events register_ip_events timer_create set_mode : Call
  set_config : Config → Call
  start stop connect disconnect sntp_init timer_stop : Call
  timer_start : ℕ → Call

abbrev pub Answers : Type 0
Answers = Call → Bool

-- The static variables, with the calls made so far, the last one first.
pub record Wifi : Type 0 where
  pub state : WifiState
  pub ip : List ℕ
  pub started : Bool
  pub want_connect : Bool
  pub retries : ℕ
  pub sntp_started : Bool
  pub reconnect_now : Bool
  pub calls : List Call

abbrev pub boot : Wifi
boot = record {
  state = off;
  ip = [];
  started = false;
  want_connect = false;
  retries = 0;
  sntp_started = false;
  reconnect_now = false;
  calls = [];
}

abbrev pub is_connected : WifiState → Bool
is_connected connected = true
is_connected s = false

pub call : Call → Wifi → Wifi
call c w = record w { calls = c ∷ w.calls }

-- `delay_s` for a number of retries: 1, 2, 4, 8, 16, 32 and then BACKOFF_MAX_S. The shift is one of
-- 32 bits.
pub delay_s : ℕ → ℕ
delay_s retries =
    let delay = 2 ^ (if ltb retries 6 then retries else 6) % 2 ^ 32 in
    if ltb 60 delay then 60 else delay

pub schedule_retry : Wifi → Wifi
unfolding call
schedule_retry w = call (timer_start (delay_s w.retries * 1000000)) (record w {
  retries = w.retries + 1;
  state = if leb 5 (w.retries + 1) then failed else connecting;
})

-- `if (esp_wifi_connect() != ESP_OK) schedule_retry();`
pub connect_or_retry : Answers → Wifi → Wifi
unfolding call schedule_retry
connect_or_retry answers w =
    if answers connect then call connect w else schedule_retry (call connect w)

pub retry_timer_cb : Answers → Wifi → Wifi
unfolding connect_or_retry
retry_timer_cb answers w =
    if w.want_connect && not (is_connected w.state) then connect_or_retry answers w else w

pub data RadioEvent : Type 0 where
  sta_start sta_disconnected other : RadioEvent

pub on_wifi_event : Answers → RadioEvent → Wifi → Wifi
unfolding connect_or_retry call schedule_retry
on_wifi_event answers sta_start w =
    if w.want_connect then connect_or_retry answers (record w { state = connecting }) else w
on_wifi_event answers sta_disconnected w =
    let w' : Wifi = record w { ip = [] } in
    if not w.want_connect
    then record w' { state = off }
    else if w.reconnect_now
    then call connect (record w' { reconnect_now = false; retries = 0; state = connecting })
    else schedule_retry w'
on_wifi_event answers other w = w

pub start_sntp_once : Answers → Wifi → Wifi
unfolding call
start_sntp_once answers w =
    if w.sntp_started then w else record (call sntp_init w) { sntp_started = answers sntp_init }

-- IP_EVENT_STA_GOT_IP with the address as text.
pub on_ip_event : Answers → List ℕ → Wifi → Wifi
unfolding start_sntp_once
on_ip_event answers ip w =
    start_sntp_once answers (record w { ip = ip; retries = 0; state = connected })

-- `ssid[0] == '\0'`
abbrev pub is_blank : List ℕ → Bool
is_blank [] = true
is_blank (c ∷ cs) = false

-- The call of `apply_config`, with what `strncpy` copies into 32 and into 64 places.
abbrev pub apply_config : List ℕ → List ℕ → Call
apply_config ssid password = set_config (record {
  ssid = take 32 ssid;
  password = take 64 password;
  needs_wpa2 = not (is_blank password);
})

-- `wifi_set_credentials` with an empty ssid, once the keys are erased.
pub forget : Wifi → Wifi
unfolding call
forget w =
    let stopped =
      call timer_stop (record w { want_connect = false; reconnect_now = false; retries = 0 }) in
    let down =
      if w.started
      then call stop (call disconnect (record stopped { started = false }))
      else stopped in
    record down { ip = []; state = off }

-- `wifi_set_credentials` once the configuration is applied.
pub join : Answers → Bool → Wifi → Wifi
unfolding call connect_or_retry schedule_retry
join answers was_connected w =
    let w' : Wifi = record w { retries = 0; want_connect = true; state = connecting } in
    if not w.started
    then record (call start w') { started = answers start }
    else if was_connected
    then (if answers disconnect
        then call disconnect (record w' { reconnect_now = true })
        else schedule_retry (call disconnect (record w' { reconnect_now = false })))
    else connect_or_retry answers w'

pub set_credentials : Answers → List ℕ → List ℕ → Wifi → Bool × Wifi
unfolding call forget join
set_credentials answers ssid password w =
    let stored = call store_credentials w in
    let configured = call (apply_config ssid password) (call timer_stop stored) in
    if not (answers store_credentials)
    then (false, stored)
    else if is_blank ssid
    then (true, forget stored)
    else if answers (apply_config ssid password)
    then (true, join answers (is_connected w.state) configured)
    else (true, configured)

-- `wifi_ip`
pub shown_ip : Wifi → List ℕ
shown_ip w = if is_connected w.state then w.ip else []

-- `wifi_state_name`
pub wifi_state_name : WifiState → List ℕ
wifi_state_name connecting = codes "connecting"
wifi_state_name connected = codes "connected"
wifi_state_name failed = codes "failed"
wifi_state_name off = codes "off"

-- What can happen to the state machine after `wifi_init`.
pub data Event : Type 0 where
  radio : RadioEvent → Event
  got_ip : List ℕ → Event
  retry_timer : Event
  credentials : List ℕ → List ℕ → Event

pub step : Answers → Event → Wifi → Wifi
unfolding on_wifi_event on_ip_event retry_timer_cb set_credentials
step answers (radio e) w = on_wifi_event answers e w
step answers (got_ip ip) w = on_ip_event answers ip w
step answers retry_timer w = retry_timer_cb answers w
step answers (credentials ssid password) w = (set_credentials answers ssid password w).1

-- A sequence of events, each with what the calls answer.
pub run : List (Answers × Event) → Wifi → Wifi
run [] w = w
run ((answers, e) ∷ es) w = run es (step answers e w)
