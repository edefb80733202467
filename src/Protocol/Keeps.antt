-- ===== src/Protocol/Keeps.antt =====
-- What every command keeps, if the operations that the protocol is given keep it.
use s3_bme.Base.{inl, inr, ℕ, ◌^◌, ◌≤◌, ◌<◌, refl, arith, Option, none, some, List, codes, text_eq}
use s3_bme.Base.Result.{Result, ok, err, hang}
use s3_bme.Base.Int.{pos, negsuc}
use s3_bme.Base.{zero, suc}
use s3_bme.Flash.{Flash}
use s3_bme.LogStore
use s3_bme.Bme280
use s3_bme.Protocol.{
  on_ok, Ops, Conn, emit, reply_error, max_limit, get_log, cmd_ping, cmd_set_time, set_time_to,
  cmd_read_now, show_reading, cmd_get_status, cmd_get_log, cmd_clear_log, cmd_set_interval,
  set_interval_to, call_set_interval, cmd_set_wifi, dispatch, handle_cmd, handle_line, wifi_set,
}
use s3_bme.Protocol.SetWifi.{Outcome, by_test, cmd_set_wifi-cases}
use s3_bme.Protocol.Replies.{get_uint-lt}

module _ (F : Flash) (O : Ops F) (Q : O.Ctx → Type 0)
    (after_set_time : (epoch : ℕ) (x : O.Ctx) → Q x → Q (O.set_time epoch x))
    (after_read_now : (x : O.Ctx) → Q x → Q (O.read_now x).1)
    (after_set_interval : (n : ℕ) (x : O.Ctx) → Q x → Q (O.set_interval_s n x).1)
    (after_set_wifi : (ssid password : List ℕ) (x : O.Ctx) → Q x → Q (O.set_wifi ssid password x).1)
    (after_clear : (x : O.Ctx) → Q x → Q (O.put_store (LogStore.clear F (O.store x)).1 x))
    (after_get_log : (offset limit : ℕ) (c : Conn O.Ctx)
      → offset < 2 ^ 32
      → limit ≤ max_limit
      → Q c.ctx
      → Q (get_log F O offset limit c).ctx) where
  reading-keeps :
      (r : Result Bme280.Reading) (c : Conn O.Ctx) → Q c.ctx → Q (show_reading F O r c).ctx
  unfolding show_reading reply_error emit
  reading-keeps (ok r) c q = q
  reading-keeps (err e) c q = q
  reading-keeps hang c q = q

  wifi_set-keeps : (r : Result (Unit {0})) (c : Conn O.Ctx) → Q c.ctx → Q (wifi_set F O r c).ctx
  unfolding wifi_set reply_error emit
  wifi_set-keeps (ok u) c q = q
  wifi_set-keeps (err (negsuc zero)) c q = q
  wifi_set-keeps (err (negsuc (suc n))) c q = q
  wifi_set-keeps (err (pos n)) c q = q
  wifi_set-keeps hang c q = q

  on_ok-keeps :
      {A : Type 0} (r : Result A) (c c' : Conn O.Ctx) → Q c.ctx → Q c'.ctx → Q (on_ok r c c').ctx
  on_ok-keeps (ok a) c c' q q' = q
  on_ok-keeps (err e) c c' q q' = q'
  on_ok-keeps hang c c' q q' = q'

  set_time_to-keeps :
      (epoch : Option ℕ) (c : Conn O.Ctx) → Q c.ctx → Q (set_time_to F O epoch c).ctx
  unfolding set_time_to reply_error emit
  set_time_to-keeps none c q = q
  set_time_to-keeps (some epoch) c q = after_set_time epoch c.ctx q

  set_interval_to-keeps :
      (n : Option ℕ) (c : Conn O.Ctx) → Q c.ctx → Q (set_interval_to F O n c).ctx
  unfolding set_interval_to call_set_interval reply_error emit
  set_interval_to-keeps none c q = q
  set_interval_to-keeps (some n) c q =
      let q' = after_set_interval n c.ctx q in on_ok-keeps (O.set_interval_s n c.ctx).0 _ _ q' q'

  Outcome-keeps : (line : List ℕ) (c c' : Conn O.Ctx) → Q c.ctx → Outcome F O line c c' → Q c'.ctx
  unfolding reply_error emit
  Outcome-keeps line c c' q (inl (inl e)) = rw e q
  Outcome-keeps line c c' q (inl (inr e)) = rw e q
  Outcome-keeps line c c' q (inr called) =
      rw called.called (wifi_set-keeps _ _ (after_set_wifi called.ssid called.password c.ctx q))

  clear_log-keeps : (c : Conn O.Ctx) → Q c.ctx → Q (cmd_clear_log F O c).ctx
  unfolding cmd_clear_log reply_error emit
  clear_log-keeps c q =
      let q' = after_clear c.ctx q in on_ok-keeps (LogStore.clear F (O.store c.ctx)).0 _ _ q' q'

  cmd_get_log-keeps : (line : List ℕ) (c : Conn O.Ctx) → Q c.ctx → Q (cmd_get_log F O line c).ctx
  unfolding cmd_get_log
  cmd_get_log-keeps line c q =
      after_get_log _ _ c (get_uint-lt line (codes "offset")) (ground arith) q

  dispatch-keeps : (cmd line : List ℕ) (c : Conn O.Ctx) → Q c.ctx → Q (dispatch F O cmd line c).ctx
  unfolding dispatch cmd_ping cmd_set_time cmd_read_now cmd_get_status cmd_set_interval cmd_set_wifi
      reply_error emit
  dispatch-keeps cmd line c q =
      let K : Conn O.Ctx → Type 0 = λ c'. Q c'.ctx in
      by_test K (text_eq cmd (codes "ping")) _ _ (λ _. q)
        (λ _.
          by_test K (text_eq cmd (codes "set_time")) _ _ (λ _. set_time_to-keeps _ c q)
            (λ _.
              by_test K (text_eq cmd (codes "read_now")) _ _
                (λ _. reading-keeps (O.read_now c.ctx).0 _ (after_read_now c.ctx q))
                (λ _.
                  by_test K (text_eq cmd (codes "get_status")) _ _ (λ _. q)
                    (λ _.
                      by_test K (text_eq cmd (codes "get_log")) _ _
                        (λ _. cmd_get_log-keeps line c q)
                        (λ _.
                          by_test K (text_eq cmd (codes "clear_log")) _ _ (λ _. clear_log-keeps c q)
                            (λ _.
                              by_test K (text_eq cmd (codes "set_interval")) _ _
                                (λ _. set_interval_to-keeps _ c q)
                                (λ _.
                                  by_test K (text_eq cmd (codes "set_wifi")) _ _
                                    (λ _.
                                      Outcome-keeps line c _ q
                                        (cmd_set_wifi-cases F O line c _ refl))
                                    (λ _. q))))))))

  handle_cmd-keeps :
      (cmd : Option (List ℕ)) (line : List ℕ) (c : Conn O.Ctx)
      → Q c.ctx
      → Q (handle_cmd F O cmd line c).ctx
  unfolding handle_cmd reply_error emit
  handle_cmd-keeps none line c q = q
  handle_cmd-keeps (some cmd) line c q = dispatch-keeps cmd line c q

  pub handle_line-keeps :
      (line : List ℕ) (c : Conn O.Ctx) → Q c.ctx → Q (handle_line F O line c).ctx
  unfolding handle_line
  handle_line-keeps line c q = handle_cmd-keeps _ line c q
