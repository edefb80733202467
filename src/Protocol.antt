-- ===== src/Protocol.antt =====
-- firmware/main/protocol.c: the commands, one JSON object on a line, and their replies.
-- A reply is the list of the texts that are handed to `write`, in the order of the calls.
pub mod Texts
pub mod Rows
pub mod Log
pub mod Replies
pub mod SetWifi
pub mod Keeps
use s3_bme.Base.{
  ℕ, zero, suc, ◌+◌, ◌-◌, ◌*◌, ◌/◌, ◌%◌, ltb, leb, ◌==◌, if◌then◌else◌, ◌&&◌, ◌||◌, not, Bool, true,
  false, Option, none, some, List, [], ◌∷◌, ◌++◌, length, take, u32, codes, text_eq, put_u, put_02,
  put_bool, concat,
}
use s3_bme.Base.Int.{ℤ, pos, negsuc, pos_part, neg_part, ltb_ℤ}
use s3_bme.Base.Result.{Result, ok, err, hang, M}
use s3_bme.LogRecord.{LogRecord}
use s3_bme.Flash.{Flash}
use s3_bme.LogStore
use s3_bme.LogStore.{Store, count, capacity}
use s3_bme.Bme280
use s3_bme.JsonMini.{get_string, get_uint, has_key}

-- `protocol_ops_t`, over the state `Ctx` behind `ctx` and `store`. The pointer to the store is
-- read by `store` and written through by `put_store`.
pub record Ops (F : Flash) : Type 1 where
  pub Ctx : Type 0
  pub store : Ctx → Store F.Dev
  pub put_store : Store F.Dev → Ctx → Ctx
  pub boot_id : Ctx → ℕ
  pub uptime_s : Ctx → ℕ
  pub time_valid : Ctx → Bool
  pub set_time : ℕ → Ctx → Ctx
  pub read_now : M Ctx Bme280.Reading
  pub sensor_ok : Ctx → Bool
  pub store_ok : Ctx → Bool
  pub interval_s : Ctx → ℕ
  pub set_interval_s : ℕ → M Ctx (Unit {0})
  pub set_wifi : List ℕ → List ℕ → M Ctx (Unit {0})
  pub wifi_state : Ctx → List ℕ
  pub wifi_ip : ℕ → Ctx → List ℕ
  pub time_source : Ctx → List ℕ

-- PROTOCOL_FIRMWARE_VERSION and the bounds of protocol.h; READ_CHUNK.
abbrev pub firmware_version : List ℕ
firmware_version = codes "0.1.0"

abbrev pub max_line : ℕ
max_line = 256

abbrev pub max_limit : ℕ
max_limit = 500

abbrev pub default_limit : ℕ
default_limit = 100

abbrev pub wifi_ssid_max : ℕ
wifi_ssid_max = 32

abbrev pub wifi_pass_max : ℕ
wifi_pass_max = 63

abbrev pub read_chunk : ℕ
read_chunk = 32

-- A command in progress: the state behind `ctx`, and what was handed to `write`.
pub record Conn (Ctx : Type 0) : Type 0 where
  pub ctx : Ctx
  pub out : List (List ℕ)

-- `%d`
unfoldable pub put_d : ℤ → List ℕ
put_d (pos n) = put_u n
put_d (negsuc n) = b'-' ∷ put_u (suc n)

-- The buffer of `emit` has 192 places.
unfoldable pub emit : {Ctx : Type 0} → List ℕ → Conn Ctx → Conn Ctx
emit text c = record c { out = c.out ++ (take 191 text ∷ []) }

abbrev pub error_text : List ℕ → List ℕ
error_text code = concat (codes "{\"ok\":false,\"error\":\"" ∷ code ∷ codes "\"}\n" ∷ [])

unfoldable pub reply_error : {Ctx : Type 0} → List ℕ → Conn Ctx → Conn Ctx
reply_error code = emit (error_text code)

abbrev pub ok_text : List ℕ
ok_text = codes "{\"ok\":true}\n"

-- A temperature in degrees; its negation does not overflow.
unfoldable pub put_temp : ℤ → List ℕ
put_temp t =
    let size = pos_part t + neg_part t in
    (if ltb_ℤ t (pos 0) then codes "-" else [])
    ++ (put_u (size / 100) ++ (b'.' ∷ put_02 (size % 100)))

unfoldable pub reading_text : Bme280.Reading → List ℕ
unfolding put_temp
reading_text r = concat (
    codes "{\"ok\":true,\"temp_c\":"
    ∷ put_temp r.temp_centi
    ∷ codes ",\"hum_pct\":"
    ∷ put_u (r.hum_centi / 100)
    ∷ codes "."
    ∷ put_02 (r.hum_centi % 100)
    ∷ codes ",\"pressure_pa\":"
    ∷ put_u r.pressure_pa
    ∷ codes "}\n"
    ∷ [])

-- One record of `get_log`.
unfoldable pub row : Bool → LogRecord → List ℕ
unfolding put_d
row first r = concat (
    (if first then [] else codes ",")
    ∷ codes "["
    ∷ put_u r.timestamp
    ∷ codes ","
    ∷ put_d r.temp_centi
    ∷ codes ","
    ∷ put_u r.hum_centi
    ∷ codes ","
    ∷ put_u r.pressure_pa
    ∷ codes ","
    ∷ put_u r.flags
    ∷ codes ","
    ∷ put_u r.boot_id
    ∷ codes "]"
    ∷ [])

-- The inner loop of `cmd_get_log`.
unfoldable pub emit_records : {Ctx : Type 0} → Bool → List LogRecord → Conn Ctx → Conn Ctx
emit_records first [] c = c
emit_records first (r ∷ rs) c = emit_records false rs (emit (row first r) c)

-- `first` behind the inner loop.
abbrev pub still_first : Bool → List LogRecord → Bool
still_first first [] = first
still_first first (r ∷ rs) = false

-- What a call that returned `r` goes on with.
abbrev pub on_ok : {A C : Type 0} → Result A → C → C → C
on_ok (ok a) yes_ no_ = yes_
on_ok (err c) yes_ no_ = no_
on_ok hang yes_ no_ = no_

abbrev pub get_or_default : ℕ → Option ℕ → ℕ
get_or_default d none = d
get_or_default d (some n) = n

-- Sixteen rounds of 32 records cover the largest limit.
abbrev pub log_rounds : ℕ
log_rounds = 16

unfoldable pub log_head : ℕ → ℕ → List ℕ
log_head total offset = concat (
    codes "{\"ok\":true,\"total\":"
    ∷ put_u total
    ∷ codes ",\"offset\":"
    ∷ put_u offset
    ∷ codes ",\"records\":["
    ∷ [])

module _ (F : Flash) (O : Ops F) where
  open O use {Ctx}

  pub ping_text : Ctx → List ℕ
  ping_text x = concat (
      codes "{\"ok\":true,\"firmware\":\""
      ∷ firmware_version
      ∷ codes "\",\"boot_id\":"
      ∷ put_u (O.boot_id x)
      ∷ codes ",\"uptime_s\":"
      ∷ put_u (O.uptime_s x)
      ∷ codes ",\"time_valid\":"
      ∷ put_bool (O.time_valid x)
      ∷ codes "}\n"
      ∷ [])

  unfoldable pub cmd_ping : Conn Ctx → Conn Ctx
  unfolding ping_text
  cmd_ping c = emit (ping_text c.ctx) c

  -- The reply of `set_time`.
  pub time_set : Ctx → List ℕ
  time_set x = concat (
      codes "{\"ok\":true,\"boot_id\":"
      ∷ put_u (O.boot_id x)
      ∷ codes ",\"uptime_s\":"
      ∷ put_u (O.uptime_s x)
      ∷ codes "}\n"
      ∷ [])

  -- `set_time`, with the number that was given.
  pub set_time_to : Option ℕ → Conn Ctx → Conn Ctx
  unfolding time_set
  set_time_to none c = reply_error (codes "bad_request") c
  set_time_to (some epoch) c =
      let ctx' = O.set_time epoch c.ctx in emit (time_set ctx') (record c { ctx = ctx' })

  unfoldable pub cmd_set_time : List ℕ → Conn Ctx → Conn Ctx
  unfolding set_time_to
  cmd_set_time line c = set_time_to (get_uint line (codes "epoch")) c

  -- The reply to what `read_now` returned.
  pub show_reading : Result Bme280.Reading → Conn Ctx → Conn Ctx
  show_reading (ok r) c = emit (reading_text r) c
  show_reading (err code) c = reply_error (codes "sensor_error") c
  show_reading hang c = reply_error (codes "sensor_error") c

  unfoldable pub cmd_read_now : Conn Ctx → Conn Ctx
  unfolding show_reading
  cmd_read_now c = let (r, ctx') = O.read_now c.ctx in show_reading r (record c { ctx = ctx' })

  -- The two texts of `get_status`.
  pub status_head : Ctx → List ℕ
  status_head x = concat (
      codes "{\"ok\":true,\"count\":"
      ∷ put_u (count (O.store x))
      ∷ codes ",\"capacity\":"
      ∷ put_u capacity
      ∷ codes ",\"interval_s\":"
      ∷ put_u (O.interval_s x)
      ∷ codes ",\"sensor_ok\":"
      ∷ put_bool (O.sensor_ok x)
      ∷ codes ",\"store_ok\":"
      ∷ put_bool (O.store_ok x)
      ∷ codes ",\"time_valid\":"
      ∷ put_bool (O.time_valid x)
      ∷ codes ",\"boot_id\":"
      ∷ put_u (O.boot_id x)
      ∷ codes ",\"uptime_s\":"
      ∷ put_u (O.uptime_s x)
      ∷ codes ","
      ∷ [])

  pub status_tail : Ctx → List ℕ
  status_tail x = concat (
      codes "\"wifi_state\":\""
      ∷ O.wifi_state x
      ∷ codes "\",\"ip\":\""
      ∷ O.wifi_ip 16 x
      ∷ codes "\",\"time_source\":\""
      ∷ O.time_source x
      ∷ codes "\"}\n"
      ∷ [])

  unfoldable pub cmd_get_status : Conn Ctx → Conn Ctx
  unfolding status_head status_tail
  cmd_get_status c = emit (status_tail c.ctx) (emit (status_head c.ctx) c)

  -- The reply to what `set_wifi` returned.
  pub wifi_set : Result (Unit {0}) → Conn Ctx → Conn Ctx
  wifi_set (ok u) c = emit ok_text c
  wifi_set (err (negsuc zero)) c = reply_error (codes "out_of_range") c
  wifi_set (err (negsuc (suc n))) c = reply_error (codes "store_error") c
  wifi_set (err (pos n)) c = reply_error (codes "store_error") c
  wifi_set hang c = reply_error (codes "store_error") c

  pub call_set_wifi : List ℕ → List ℕ → Conn Ctx → Conn Ctx
  unfolding wifi_set
  call_set_wifi ssid password c =
      let (r, ctx') = O.set_wifi ssid password c.ctx in wifi_set r (record c { ctx = ctx' })

  -- The length of a password that was given.
  pub set_wifi_password : List ℕ → Option (List ℕ) → Conn Ctx → Conn Ctx
  unfolding call_set_wifi
  set_wifi_password ssid none c = reply_error (codes "bad_request") c
  set_wifi_password ssid (some password) c =
      let n = length password in
      if not (n == 0) && (ltb n 8 || ltb wifi_pass_max n)
      then reply_error (codes "out_of_range") c
      else call_set_wifi ssid password c

  pub set_wifi_ssid : List ℕ → Option (List ℕ) → Conn Ctx → Conn Ctx
  unfolding set_wifi_password call_set_wifi
  set_wifi_ssid line none c = reply_error (codes "bad_request") c
  set_wifi_ssid line (some ssid) c =
      if ltb wifi_ssid_max (length ssid)
      then reply_error (codes "out_of_range") c
      else if has_key line (codes "password")
      then set_wifi_password ssid (get_string line (codes "password") max_line) c
      else call_set_wifi ssid [] c

  unfoldable pub cmd_set_wifi : List ℕ → Conn Ctx → Conn Ctx
  unfolding set_wifi_ssid
  cmd_set_wifi line c = set_wifi_ssid line (get_string line (codes "ssid") max_line) c

  -- The loop of `cmd_get_log`, with `left` rounds at most. A read that fails ends it.
  pub log_loop : ℕ → ℕ → ℕ → ℕ → ℕ → Bool → Conn Ctx → Conn Ctx
  log_loop zero offset limit total done first c = c
  log_loop (suc left) offset limit total done first c =
      let want = if ltb (limit - done) read_chunk then limit - done else read_chunk in
      let (r, got) = LogStore.read F (u32 (offset + done)) want (O.store c.ctx) in
      let c' : Conn Ctx = record c { ctx = O.put_store got.store c.ctx } in
      let round =
        on_ok r
          (log_loop left offset limit total (done + read_chunk) (still_first first got.out)
            (emit_records first got.out c'))
          c' in
      if ltb done limit && ltb (u32 (offset + done)) total then round else c

  -- `cmd_get_log`, once the offset and the limit are read.
  pub get_log : ℕ → ℕ → Conn Ctx → Conn Ctx
  unfolding log_loop log_head
  get_log offset limit c =
      let total = count (O.store c.ctx) in
      emit (codes "]}\n")
        (log_loop log_rounds offset limit total 0 true (emit (log_head total offset) c))

  unfoldable pub cmd_get_log : List ℕ → Conn Ctx → Conn Ctx
  unfolding get_log
  cmd_get_log line c =
      let offset = get_or_default 0 (get_uint line (codes "offset")) in
      let limit = get_or_default default_limit (get_uint line (codes "limit")) in
      get_log offset (if ltb max_limit limit then max_limit else limit) c

  unfoldable pub cmd_clear_log : Conn Ctx → Conn Ctx
  cmd_clear_log c =
      let (r, store') = LogStore.clear F (O.store c.ctx) in
      let c' : Conn Ctx = record c { ctx = O.put_store store' c.ctx } in
      on_ok r (emit ok_text c') (reply_error (codes "store_error") c')

  pub call_set_interval : ℕ → Conn Ctx → Conn Ctx
  call_set_interval s c =
      let (r, ctx') = O.set_interval_s s c.ctx in
      let c' : Conn Ctx = record c { ctx = ctx' } in
      on_ok r (emit ok_text c') (reply_error (codes "out_of_range") c')

  -- `set_interval`, with the number that was given.
  pub set_interval_to : Option ℕ → Conn Ctx → Conn Ctx
  unfolding call_set_interval
  set_interval_to none c = reply_error (codes "bad_request") c
  set_interval_to (some s) c = call_set_interval s c

  unfoldable pub cmd_set_interval : List ℕ → Conn Ctx → Conn Ctx
  unfolding set_interval_to
  cmd_set_interval line c = set_interval_to (get_uint line (codes "interval_s")) c

  unfoldable pub dispatch : List ℕ → List ℕ → Conn Ctx → Conn Ctx
  dispatch cmd line c =
      if text_eq cmd (codes "ping")
      then cmd_ping c
      else if text_eq cmd (codes "set_time")
      then cmd_set_time line c
      else if text_eq cmd (codes "read_now")
      then cmd_read_now c
      else if text_eq cmd (codes "get_status")
      then cmd_get_status c
      else if text_eq cmd (codes "get_log")
      then cmd_get_log line c
      else if text_eq cmd (codes "clear_log")
      then cmd_clear_log c
      else if text_eq cmd (codes "set_interval")
      then cmd_set_interval line c
      else if text_eq cmd (codes "set_wifi")
      then cmd_set_wifi line c
      else reply_error (codes "unknown_cmd") c

  pub handle_cmd : Option (List ℕ) → List ℕ → Conn Ctx → Conn Ctx
  unfolding dispatch
  handle_cmd none line c = reply_error (codes "bad_request") c
  handle_cmd (some cmd) line c = dispatch cmd line c

  unfoldable pub handle_line : List ℕ → Conn Ctx → Conn Ctx
  unfolding handle_cmd
  handle_line line c = handle_cmd (get_string line (codes "cmd") 32) line c
