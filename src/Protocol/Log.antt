-- ===== src/Protocol/Log.antt =====
-- What `get_log` prints, against the abstract log of the store.
use mathlib.Core.List.{append-nil, append_assoc}
use s3_bme.Base.{
  ℕ, zero, suc, ◌+◌, ◌-◌, ◌*◌, ◌^◌, ◌<◌, ◌≤◌, ◌≡◌, ◌⊎◌, inl, inr, refl, sym, ◌∙◌, ap, arith, ltb,
  ◌&&◌, Bool, Bool-cases, true, false, List, [], ◌∷◌, ◌++◌, length, take, drop, drop_all,
  get_elem?-drop, u32, codes, dec_lt,
}
use s3_bme.Base.Length.{take_all, drop-drop}
use s3_bme.Base.Result.{Result, ok, err, hang, EnsuresOf}
use s3_bme.LogRecord.{LogRecord}
use s3_bme.Flash.{Flash, IsNor}
use s3_bme.LogStore.{Store, Reading}
use s3_bme.LogStore.Prims.{mem, Same}
use s3_bme.LogStore.Prepare.{Holds, Same-Holds, count_lem}
use s3_bme.LogStore.Read.{read-records}
use s3_bme.Protocol.{
  Ops, Conn, emit_records, still_first, on_ok, read_chunk, log_loop, log_rounds, log_head, get_log,
  max_limit,
}
use s3_bme.Protocol.Texts.{emit-eq, log_head-length}
use s3_bme.Protocol.Rows.{
  AllRecords, records_of, take-AllRecords, rows, rows-append, emit_records-eq, chunk, chunk-take,
}

-- A pointer: what was written through it is read back.
abbrev pub ReadsBack : (F : Flash) → Ops F → Type 0
ReadsBack F O = (s : Store F.Dev) (x : O.Ctx) → O.store (O.put_store s x) ≡ s

module _ (F : Flash) (O : Ops F) {Fails : Type 0} (N : IsNor F Fails) (log : List LogRecord)
    (Q : O.Ctx → Type 0) (holds : (x : O.Ctx) → Q x → Holds F N (O.store x) log)
    (put_same : (x : O.Ctx) (s : Store F.Dev)
      → Same F N (O.store x) s
      → Q x
      → Q (O.put_store s x)) where
  -- The rows of the records from `from` on were printed, `most` of them at most. Fewer are printed
  -- only if the log ends or the flash fails.
  pub record Printed (first : Bool) (from most : ℕ) (c c' : Conn O.Ctx) : Type 0 where
    pub n : ℕ
    pub n_le : n ≤ most
    pub all_or_failed : (n ≡ most) ⊎ Fails
    pub printed : c'.out ≡ c.out ++ rows first (take n (drop from log))
    pub kept : Q c'.ctx

  pub records-drop : (from : ℕ) (x : O.Ctx) → Q x → AllRecords (drop from log)
  records-drop from x q =
      records_of (drop from log)
        (λ k r e. ((holds x q).live (from + k) r (sym (get_elem?-drop from k log) ∙ e)).1)

  -- Nothing is printed where nothing is left.
  nothing :
      (first : Bool) (from most : ℕ) (c : Conn O.Ctx)
      → Q c.ctx
      → take most (drop from log) ≡ []
      → Printed first from most c c
  unfolding rows
  nothing first from most c q e = record {
    n = most;
    n_le = omega arith;
    all_or_failed = inl refl;
    printed = rw (e, rows) (sym (append-nil c.out));
    kept = q;
  }

  -- A chunk in front of what is printed behind it.
  join_chunk :
      (first : Bool) (from most : ℕ) (c c' c'' : Conn O.Ctx) (xs : List LogRecord)
      → xs ≡ take (chunk most) (drop from log)
      → c'.out ≡ c.out ++ rows first xs
      → Printed (still_first first xs) (from + read_chunk) (most - read_chunk) c' c''
      → Printed first from most c c''
  join_chunk first from most c c' c'' xs ex e p = record {
    n = chunk most + p.n;
    n_le = ground (arith, p.n_le);
    all_or_failed = ground (arith, p.all_or_failed, p.n_le);
    printed =
        p.printed
        ∙ rw e (
            append_assoc c.out _ _
            ∙ ap (λ t. c.out ++ t)
                (sym (rows-append first xs (take p.n (drop (from + read_chunk) log)))
                  ∙ ap (rows first) (
                      rw (ex, ← drop-drop from read_chunk log)
                        (chunk-take most p.n (drop from log) p.n_le))));
    kept = p.kept;
  }

  -- One round, once the read has returned; `next` are the rounds behind it.
  read-Printed :
      (first : Bool) (from most : ℕ) (c : Conn O.Ctx) (r : Result (Unit {0})) (got : Reading F.Dev)
      (next : Bool → Conn O.Ctx → Conn O.Ctx)
      → Q c.ctx
      → EnsuresOf
          (λ u t. Same F N (O.store c.ctx) t.store × (t.out ≡ take (chunk most) (drop from log)))
          (λ e t.
            Fails × Same F N (O.store c.ctx) t.store × ((n : ℕ) × (t.out ≡ take n (drop from log))))
          r
          got
      → ((d : Conn O.Ctx)
          → Q d.ctx
          → Printed
              (still_first first got.out)
              (from + read_chunk)
              (most - read_chunk)
              d
              (next (still_first first got.out) d))
      → let c' : Conn O.Ctx = record c { ctx = O.put_store got.store c.ctx } in
        Printed first from most c
          (on_ok r (next (still_first first got.out) (emit_records first got.out c')) c')
  read-Printed first from most c (ok u) got next q (same, e) ih =
      let d : Conn O.Ctx = record c { ctx = O.put_store got.store c.ctx } in
      let all : AllRecords got.out =
        rw e (take-AllRecords (chunk most) (drop from log) (records-drop from c.ctx q)) in
      rw (emit_records-eq first got.out d all) (
        join_chunk first from most c (record d { out = c.out ++ rows first got.out }) _ got.out e
          refl (ih _ (put_same c.ctx got.store same q)))
  read-Printed first from most c (err code) got next q (failed, same, _) ih = record {
    n = 0;
    n_le = omega arith;
    all_or_failed = inr failed;
    printed = unfold rows in sym (append-nil c.out);
    kept = put_same c.ctx got.store same q;
  }
  read-Printed first from most c hang got next q e ih = absurd e

  module _ (offset limit : ℕ) where
    -- The rounds of the loop from `done` on.
    log_loop-Printed :
        (left done : ℕ) (first : Bool) (c : Conn O.Ctx)
        → Q c.ctx
        → limit ≤ done + left * read_chunk
        → offset + done < 2 ^ 32
        → Printed first
            (offset + done)
            (limit - done)
            c
            (log_loop F O left offset limit (length log) done first c)
    unfolding log_loop
    log_loop-Printed zero done first c q h u =
        nothing first (offset + done) (limit - done) c q
          (let none_left : limit - done ≡ 0 = omega arith in rw none_left)
    log_loop-Printed (suc left) done first c q h u =
        elim (Bool-cases (ltb done limit && ltb (u32 (offset + done)) (length log))) [
          | inl more ↦
              let small : u32 (offset + done) ≡ offset + done = omega arith in
              let after : offset + done + read_chunk ≡ offset + (done + read_chunk) = omega arith in
              let fewer : limit - done - read_chunk ≡ limit - (done + read_chunk) = omega arith in
              rw (more, small)
                (read-Printed first (offset + done) (limit - done) c _ _
                  (λ first' d.
                    log_loop F O left offset limit (length log) (done + read_chunk) first' d)
                  q
                  (read-records F N log (offset + done) (chunk (limit - done)) (O.store c.ctx)
                    (holds c.ctx q) u)
                  (λ d qd.
                    rw (after, fewer)
                      (log_loop-Printed left (done + read_chunk) _ d qd (omega arith)
                        (ground (arith, (holds c.ctx q).fits)))))
          | inr stop ↦
              rw stop (nothing first (offset + done) (limit - done) c q (nothing_left stop))
        ]
      where
        nothing_left :
            (ltb done limit && ltb (u32 (offset + done)) (length log)) ≡ false
            → take (limit - done) (drop (offset + done) log) ≡ []
        nothing_left stop = elim (dec_lt done limit) [
          | yes below ↦
              rw (drop_all log (offset + done) (ground arith))
                (take_all (limit - done) [] (omega arith))
          | no past ↦ let none_left : limit - done ≡ 0 = omega arith in rw none_left
        ]

    -- The whole reply: the header with the number of records, rows, and the end.
    pub record Listed (c c' : Conn O.Ctx) : Type 0 where
      pub n : ℕ
      pub n_le : n ≤ limit
      pub all_or_failed : (n ≡ limit) ⊎ Fails
      pub listed :
          c'.out
          ≡ c.out
            ++ (log_head (length log) offset
                ∷ (rows true (take n (drop offset log)) ++ (codes "]}\n" ∷ [])))
      pub kept : Q c'.ctx

    pub get_log-Listed :
        (c : Conn O.Ctx)
        → Q c.ctx
        → offset < 2 ^ 32
        → limit ≤ max_limit
        → Listed c (get_log F O offset limit c)
    unfolding get_log
    get_log-Listed c q u h =
        let head = log_head (length log) offset in
        let c' : Conn O.Ctx = record c { out = c.out ++ (head ∷ []) } in
        let loop = log_loop F O log_rounds offset limit (length log) 0 true in
        let p = log_loop-Printed log_rounds 0 true c' q (omega (arith, h)) (omega (arith, u)) in
        let start : offset + 0 ≡ offset = omega arith in
        let whole : limit - 0 ≡ limit = omega arith in
        let total = count_lem (mem F N (O.store c.ctx)) (O.store c.ctx) log (holds c.ctx q) in
        rw
          (
            total,
            emit-eq head c (omega (arith, log_head-length (length log) offset)),
            emit-eq (codes "]}\n") (loop c') (omega arith),
          )
          (record {
            n = p.n;
            n_le = rw whole at p.n_le;
            all_or_failed = rw whole at p.all_or_failed;
            listed = rw p.printed (
                rw start
                  (append_assoc (c.out ++ (head ∷ [])) _ _ ∙ append_assoc c.out (head ∷ []) _));
            kept = p.kept;
          })

-- `get_log` on a store that stands for `log` replies with the records from the offset on, as many as
-- the limit allows, in a list behind the number of all records, and leaves the log as it was. Fewer
-- are listed only if the flash fails. The limit is at most 500, as `cmd_get_log` makes it.
pub get_log-rows :
    (F : Flash) (O : Ops F) {Fails : Type 0} (N : IsNor F Fails) (log : List LogRecord)
    (offset limit : ℕ) (c : Conn O.Ctx)
    → ReadsBack F O
    → Holds F N (O.store c.ctx) log
    → offset < 2 ^ 32
    → limit ≤ max_limit
    → (n : ℕ) × (n ≤ limit)
      × ((n ≡ limit) ⊎ Fails)
      × ((get_log F O offset limit c).out
          ≡ c.out
            ++ (log_head (length log) offset
                ∷ (rows true (take n (drop offset log)) ++ (codes "]}\n" ∷ []))))
      × Holds F N (O.store (get_log F O offset limit c).ctx) log
get_log-rows F O N log offset limit c back h u l =
    let p =
      get_log-Listed F O N log (λ x. Holds F N (O.store x) log) (λ x q. q)
        (λ x s same q. rw (back s x) (Same-Holds F N log same q)) offset limit c h u l in
    (p.n, p.n_le, p.all_or_failed, p.listed, p.kept)
