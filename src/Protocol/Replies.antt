-- ===== src/Protocol/Replies.antt =====
-- The replies to the commands that the web bridge lets through: how long they are, and what they
-- keep of the state.
use s3_bme.Base.{
  ℕ, ◌+◌, ◌≤◌, ◌<◌, ◌^◌, ◌≡◌, ◌⊎◌, inl, inr, refl, arith, true, Option, none, some, List, [], ◌∷◌,
  length, take, drop, codes, text_eq,
}
use s3_bme.Base.Length.{length-take-le}
use s3_bme.Base.Maybe.{◌>>=◌}
use s3_bme.Base.Result.{Result, ok, err, hang}
use s3_bme.Bme280
use s3_bme.LogRecord.{LogRecord}
use s3_bme.LogStore.{Store}
use s3_bme.LogStore.Prims.{Same}
use s3_bme.LogStore.Prepare.{Holds}
use s3_bme.Flash.{Flash, IsNor}
use s3_bme.JsonMini.{get_string, get_uint, find_value, uint_at}
use s3_bme.Protocol.{
  Ops, Conn, emit, reply_error, max_limit, get_or_default, log_head, cmd_ping, cmd_read_now,
  show_reading, cmd_get_status, cmd_get_log, get_log, cmd_set_time, dispatch, handle_cmd,
  handle_line, set_time_to, status_head, status_tail, time_set, error_text,
}
use s3_bme.Protocol.Texts.{log_head-length}
use s3_bme.Protocol.Rows.{AllRecords, take-AllRecords, rows, size, size-append, size-rows}
use s3_bme.Protocol.Log.{get_log-Listed, records-drop}

-- A header, 500 rows and the end.
abbrev pub reply_max : ℕ
reply_max = 22571

emit-size :
    {Ctx : Type 0} (text : List ℕ) (c : Conn Ctx) → size (emit text c).out ≤ size c.out + 191
unfolding emit
emit-size text c = omega (arith, size-append c.out (take 191 text ∷ []), length-take-le 191 text)

uint_at-lt : (p : List ℕ) (n : ℕ) → uint_at p ≡ some n → n < 2 ^ 32
unfolding uint_at
uint_at-lt [] n e = cc
uint_at-lt (c ∷ s) n e = ground arith

pub get_uint-lt : (line key : List ℕ) → get_or_default 0 (get_uint line key) < 2 ^ 32
unfolding get_uint
get_uint-lt line key = found_lt (find_value line key)
  where
    or_lt : (p : List ℕ) (o : Option ℕ) → uint_at p ≡ o → get_or_default 0 o < 2 ^ 32
    or_lt p none e = omega arith
    or_lt p (some n) e = uint_at-lt p n e

    found_lt : (o : Option (List ℕ)) → get_or_default 0 (o >>= uint_at) < 2 ^ 32
    found_lt none = omega arith
    found_lt (some p) = or_lt p (uint_at p) refl

module _ (F : Flash) (O : Ops F) where
  -- `set_time` sets the time to a number, or does nothing.
  abbrev pub TimeSet : O.Ctx → Conn O.Ctx → Type 0
  TimeSet x c =
      (size c.out ≤ reply_max) × ((c.ctx ≡ x) ⊎ ((epoch : ℕ) × (c.ctx ≡ O.set_time epoch x)))

  set_time_to-TimeSet :
      (epoch : Option ℕ) (x : O.Ctx)
      → TimeSet x (set_time_to F O epoch (record { ctx = x; out = [] }))
  unfolding set_time_to reply_error emit
  set_time_to-TimeSet none x = (
    omega (
      arith,
      emit-size {Ctx = O.Ctx} (error_text (codes "bad_request")) (record { ctx = x; out = [] }),
    ),
    inl refl,
  )
  set_time_to-TimeSet (some epoch) x =
      (omega (arith, length-take-le 191 (time_set F O (O.set_time epoch x))), inr (epoch, refl))

  -- The command of a line, once it is read.
  pub handle_line-eq :
      (line cmd : List ℕ) (c : Conn O.Ctx)
      → get_string line (codes "cmd") 32 ≡ some cmd
      → handle_line F O line c ≡ dispatch F O cmd line c
  unfolding handle_line handle_cmd
  handle_line-eq line cmd c found = rw found

  pub handle_line-TimeSet :
      (line cmd : List ℕ) (x : O.Ctx)
      → get_string line (codes "cmd") 32 ≡ some cmd
      → cmd ≡ codes "set_time"
      → TimeSet x (handle_line F O line (record { ctx = x; out = [] }))
  unfolding dispatch text_eq cmd_set_time
  handle_line-TimeSet line cmd x found is_set =
      rw (handle_line-eq line cmd (record { ctx = x; out = [] }) found, is_set)
        (set_time_to-TimeSet (get_uint line (codes "epoch")) x)

module _ (F : Flash) (O : Ops F) (Q : O.Ctx → Type 0) where
  -- The state satisfies `Q`, and the reply is not longer than the longest one of `get_log`.
  pub record Served (c : Conn O.Ctx) : Type 0 where
    pub kept : Q c.ctx
    pub fits : size c.out ≤ reply_max

  -- One or two texts fit, whatever they say.
  emit-Served :
      (text : List ℕ) (c : Conn O.Ctx) → Q c.ctx → size c.out ≤ 1000 → Served (emit text c)
  unfolding emit
  emit-Served text c q h = record { kept = q; fits = omega (arith, emit-size text c, h) }

  pub cmd_ping-Served : (x : O.Ctx) → Q x → Served (cmd_ping F O (record { ctx = x; out = [] }))
  unfolding cmd_ping
  cmd_ping-Served x q = emit-Served _ _ q (omega arith)

  pub cmd_get_status-Served :
      (x : O.Ctx) → Q x → Served (cmd_get_status F O (record { ctx = x; out = [] }))
  unfolding cmd_get_status emit
  cmd_get_status-Served x q =
      emit-Served (status_tail F O x) (emit (status_head F O x) (record { ctx = x; out = [] })) q
        (omega (arith, length-take-le 191 (status_head F O x)))

  show_reading-Served :
      (r : Result Bme280.Reading) (x : O.Ctx)
      → Q x
      → Served (show_reading F O r (record { ctx = x; out = [] }))
  unfolding show_reading reply_error
  show_reading-Served (ok r) x q = emit-Served _ _ q (omega arith)
  show_reading-Served (err c) x q = emit-Served _ _ q (omega arith)
  show_reading-Served hang x q = emit-Served _ _ q (omega arith)

  pub cmd_read_now-Served :
      (x : O.Ctx) → Q (O.read_now x).1 → Served (cmd_read_now F O (record { ctx = x; out = [] }))
  unfolding cmd_read_now
  cmd_read_now-Served x q = show_reading-Served (O.read_now x).0 (O.read_now x).1 q

  module _ {Fails : Type 0} (N : IsNor F Fails) (log : List LogRecord)
      (holds : (x : O.Ctx) → Q x → Holds F N (O.store x) log)
      (put_same : (x : O.Ctx) (s : Store F.Dev)
        → Same F N (O.store x) s
        → Q x
        → Q (O.put_store s x)) where
    get_log-Served :
        (offset limit : ℕ) (x : O.Ctx)
        → Q x
        → offset < 2 ^ 32
        → limit ≤ max_limit
        → Served (get_log F O offset limit (record { ctx = x; out = [] }))
    get_log-Served offset limit x q u l =
        let p =
          get_log-Listed F O N log Q holds put_same offset limit (record { ctx = x; out = [] }) q u
            l in
        let head = log_head (length log) offset in
        let listed = take p.n (drop offset log) in
        let all : AllRecords listed =
          take-AllRecords p.n (drop offset log)
            (records-drop F O N log Q holds put_same offset x q) in
        record {
          kept = p.kept;
          fits = rw p.listed (
              omega (
                arith,
                size-append (rows true listed) (codes "]}\n" ∷ []),
                size-rows true listed all,
                length-take-le p.n (drop offset log),
                p.n_le,
                log_head-length (length log) offset,
                l,
              ));
        }

    pub cmd_get_log-Served :
        (line : List ℕ) (x : O.Ctx)
        → Q x
        → Served (cmd_get_log F O line (record { ctx = x; out = [] }))
    unfolding cmd_get_log
    cmd_get_log-Served line x q =
        get_log-Served _ _ x q (get_uint-lt line (codes "offset")) (ground arith)

    -- The four commands that a GET request may use.
    pub handle_line-Served :
        (line cmd : List ℕ) (x : O.Ctx)
        → get_string line (codes "cmd") 32 ≡ some cmd
        → (cmd ≡ codes "ping")
          ⊎ (cmd ≡ codes "read_now")
          ⊎ (cmd ≡ codes "get_status")
          ⊎ (cmd ≡ codes "get_log")
        → Q x
        → Q (O.read_now x).1
        → Served (handle_line F O line (record { ctx = x; out = [] }))
    unfolding dispatch text_eq
    handle_line-Served line cmd x found (inl is_ping) q r =
        rw (handle_line-eq F O line cmd (record { ctx = x; out = [] }) found, is_ping)
          (cmd_ping-Served x q)
    handle_line-Served line cmd x found (inr (inl is_read)) q r =
        rw (handle_line-eq F O line cmd (record { ctx = x; out = [] }) found, is_read)
          (cmd_read_now-Served x r)
    handle_line-Served line cmd x found (inr (inr (inl is_status))) q r =
        rw (handle_line-eq F O line cmd (record { ctx = x; out = [] }) found, is_status)
          (cmd_get_status-Served x q)
    handle_line-Served line cmd x found (inr (inr (inr is_log))) q r =
        rw (handle_line-eq F O line cmd (record { ctx = x; out = [] }) found, is_log)
          (cmd_get_log-Served line x q)
