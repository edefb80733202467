-- ===== src/LogStore/ReadSlots.antt =====
-- `log_store_read` on a store of which some slots are in use, whatever they hold.
use s3_bme.Base.{
  ℕ, zero, suc, ◌+◌, ◌-◌, ◌%◌, ◌^◌, ◌≤◌, ◌<◌, ◌≡◌, refl, sym, ◌∙◌, arith, List, [], ◌++◌, Option,
  some, none, u32, ltb, dec_lt, true, false, min,
}
use mathlib.Core.List.{append-nil, append_assoc}
use s3_bme.Base.Result.{Result, ok, err, hang, Ensures, EnsuresOf, continue, bind-Ensures, weaken}
use s3_bme.LogRecord.{LogRecord, decode}
use s3_bme.Flash.{Flash, IsNor}
use s3_bme.Flash.Slots.{slot}
use s3_bme.LogStore.{
  Store, Reading, total_slots, capacity, count, read_slot, read_loop, read_one, read, push_decoded,
}
use s3_bme.LogStore.Layout.{behind, Occupies}
use s3_bme.LogStore.Prims.{mem, Same, Same-refl, Same-trans, read_slot-Ensures}

-- The record that a slot holds, if its bytes are those of one.
unfoldable pub record_in : List ℕ → List LogRecord
unfolding push_decoded
record_in buf = push_decoded [] (decode buf)

-- The records in `n` slots from the one that lies `k` behind the tail; other slots are skipped.
unfoldable pub decoded : (ℕ → ℕ) → ℕ → ℕ → ℕ → List LogRecord
decoded f tail k zero = []
decoded f tail k (suc n) = record_in (slot f (behind tail k)) ++ decoded f tail (k + 1) n

push_decoded_lem :
    (out : List LogRecord) (d : Option LogRecord) → push_decoded out d ≡ out ++ push_decoded [] d
unfolding push_decoded
push_decoded_lem out none = sym (append-nil out)
push_decoded_lem out (some rec) = refl

pub count-Occupies :
    {Dev : Type 0} (f : ℕ → ℕ) (s : Store Dev) (size : ℕ)
    → Occupies f s.head s.tail size
    → count s ≡ size
unfolding count
count-Occupies f s size rep = omega (arith, rep.head_at, rep.tail_in, rep.fits)

module _ (F : Flash) {Fails : Type 0} (N : IsNor F Fails) (s : Store F.Dev) (size offset : ℕ)
    (tail_in : s.tail < total_slots) (fits : size ≤ capacity) where
  -- After a read of `n` slots from the one at `from` on, begun with `before` in the buffer.
  pub record ReadSlots (before : List LogRecord) (from n : ℕ) (r : Reading F.Dev) : Type 0 where
    pub same : Same F N s r.store
    pub records : r.out ≡ before ++ decoded (mem F N s) s.tail from n

  -- After a failed read: some of the slots only.
  pub record ReadSome (before : List LogRecord) (from : ℕ) (r : Reading F.Dev) : Type 0 where
    pub failed : Fails
    pub same : Same F N s r.store
    pub records :
        (n : ℕ) × (n ≤ size - from) × (r.out ≡ before ++ decoded (mem F N s) s.tail from n)

  read_one-Ensures :
      (i : ℕ) (r : Reading F.Dev)
      → Same F N s r.store
      → offset + i < size
      → Ensures
          (λ u r'.
            Same F N s r'.store
            × (r'.out ≡ r.out ++ record_in (slot (mem F N s) (behind s.tail (offset + i)))))
          (λ c r'. Fails × Same F N s r'.store × (r'.out ≡ r.out))
          (read_one F offset i r)
  unfolding read_one record_in
  read_one-Ensures i r here within =
      go (read_slot F at r.store).0 (read_slot F at r.store).1
        (read_slot-Ensures F N at r.store (omega arith))
    where
      at : ℕ
      at = u32 (r.store.tail + offset + i) % total_slots

      place : at ≡ behind s.tail (offset + i)
      place = let e = here.same_tail in omega (arith, e)

      go :
          (found : Result (List ℕ)) (t : Store F.Dev)
          → EnsuresOf
              (λ buf t'. (buf ≡ slot (mem F N r.store) at) × Same F N r.store t')
              (λ c t'. Fails × Same F N r.store t')
              found
              t
          → Ensures
              (λ u r'.
                Same F N s r'.store
                × (r'.out
                    ≡ r.out
                      ++ push_decoded [] (decode (slot (mem F N s) (behind s.tail (offset + i))))))
              (λ c r'. Fails × Same F N s r'.store × (r'.out ≡ r.out))
              (continue found
                (λ buf r'. (ok tt, record r' { out = push_decoded r'.out (decode buf) }))
                (record r { store = t }))
      go (ok buf) t (b, same) = (
        Same-trans F N here same,
        rw (b, place, here.same_mem)
            (push_decoded_lem r.out (decode (slot (mem F N s) (behind s.tail (offset + i))))),
      )
      go (err c) t (f, same) = (f, Same-trans F N here same, refl)
      go hang t never = never

  -- One slot more in front of those read.
  join :
      (before : List LogRecord) (i n : ℕ) (out : List LogRecord)
      → out ≡ before ++ record_in (slot (mem F N s) (behind s.tail (offset + i)))
      → out ++ decoded (mem F N s) s.tail (offset + (i + 1)) n
        ≡ before ++ decoded (mem F N s) s.tail (offset + i) (suc n)
  unfolding decoded
  join before i n out e =
      let next : offset + (i + 1) ≡ offset + i + 1 = omega arith in
      rw (e, next)
        (append_assoc before (record_in (slot (mem F N s) (behind s.tail (offset + i))))
          (decoded (mem F N s) s.tail (offset + i + 1) n))

  read_loop-Ensures :
      (left i : ℕ) (r : Reading F.Dev)
      → Same F N s r.store
      → offset + i < 2 ^ 32
      → Ensures
          (λ u r'. ReadSlots r.out (offset + i) (min left (size - (offset + i))) r')
          (λ c r'. ReadSome r.out (offset + i) r')
          (read_loop F offset size left i r)
  unfolding read_loop decoded
  read_loop-Ensures zero i r here h =
      let none_left : min 0 (size - (offset + i)) ≡ 0 = omega arith in
      rw none_left (record { same = here; records = sym (append-nil r.out) })
  read_loop-Ensures (suc left) i r here h = elim (dec_lt (offset + i) size) [
    | no past ↦
        rw (stop past, none_left past) (record { same = here; records = sym (append-nil r.out) })
    | yes within ↦
        rw (go_on within, one_more within)
          (bind-Ensures _ _ _ (read_one F offset i) _ r
            (weaken _ _ _ _ (read_one F offset i) r (read_one-Ensures i r here within) (λ u r' p. p)
              (λ c r' (f, same, out). record {
                failed = f;
                same = same;
                records = (0, omega arith, out ∙ sym (append-nil r.out));
              }))
            (λ u r' (same, out).
              weaken _ _ _ _ (read_loop F offset size left (i + 1)) r'
                (read_loop-Ensures left (i + 1) r' same (omega arith))
                (λ _ t p. record { same = p.same; records = p.records ∙ join r.out i _ r'.out out })
                (λ c t p. record {
                  failed = p.failed;
                  same = p.same;
                  records = (
                    suc p.records.0,
                    omega (arith, p.records.1),
                    p.records.2 ∙ join r.out i p.records.0 r'.out out,
                  );
                })))
  ]
    where
      stop : ¬ (offset + i < size) → ltb (u32 (offset + i)) size ≡ false
      stop past = ground arith

      go_on : offset + i < size → ltb (u32 (offset + i)) size ≡ true
      go_on within = ground arith

      none_left : ¬ (offset + i < size) → min (suc left) (size - (offset + i)) ≡ 0
      none_left past = omega arith

      one_more :
          offset + i < size
          → min (suc left) (size - (offset + i)) ≡ suc (min left (size - (offset + (i + 1))))
      one_more within = omega arith

module _ (F : Flash) {Fails : Type 0} (N : IsNor F Fails) where
  -- `log_store_read` reads the slots in use from `offset` on, `max` of them at most, and skips those
  -- that hold no record.
  pub read-decodes :
      (s : Store F.Dev) (size offset max : ℕ)
      → Occupies (mem F N s) s.head s.tail size
      → offset < 2 ^ 32
      → Ensures
          (λ u r.
            Same F N s r.store
            × (r.out ≡ decoded (mem F N s) s.tail offset (min max (size - offset))))
          (λ c r.
            Fails
            × Same F N s r.store
            × ((n : ℕ) × (n ≤ size - offset) × (r.out ≡ decoded (mem F N s) s.tail offset n)))
          (read F offset max s)
  unfolding read
  read-decodes s size offset max rep h = rw (count-Occupies (mem F N s) s size rep) (
      weaken _ _ _ _ (read_loop F offset size max 0) (record { out = []; store = s })
        (read_loop-Ensures F N s size offset rep.tail_in rep.fits max 0
          (record { out = []; store = s }) (Same-refl F N s) (omega arith))
        (λ u r p. (p.same, rw start at p.records))
        (λ c r p. (p.failed, p.same, rw start at p.records)))
    where
      start : offset + 0 ≡ offset
      start = omega arith
