-- ===== src/LogStore/PowerLoss.antt =====
-- A restart after the power failed in the course of a write of `log_store_append`.
use s3_bme.Base.{
  ℕ, ◌+◌, ◌%◌, ◌^◌, ◌≤◌, ◌<◌, ◌≡◌, ◌≢◌, refl, ◌∙◌, arith, true, false, List, [], ◌∷◌, ◌++◌, some,
  length, get_elem?, get_elem?-lt, get_elem?-some, take, drop, Option, none, ℕ_discrete, inl, inr,
  Bool-cases, min, ◌-◌,
}
use mathlib.Core.List.{append-nil}
use s3_bme.Base.Result.{Ensures, weaken, weaken_of}
use s3_bme.LogRecord.{LogRecord, is_empty, decode}
use s3_bme.LogRecord.Codec.{encode-not_empty}
use s3_bme.Flash.{Flash, IsNor}
use s3_bme.Flash.Slots.{slot, IsFree}
use s3_bme.LogStore.{Store, total_slots, capacity, init, read, push_decoded}
use s3_bme.LogStore.Layout.{behind, Represents, Occupies}
use s3_bme.LogStore.Prims.{mem, Same}
use s3_bme.LogStore.Restart.{Restored, init-Restored, Restored-Occupies}
use s3_bme.LogStore.ReadSlots.{record_in, decoded, read-decodes}
use s3_bme.LogStore.ReadLog.{decoded-log, decoded-log_last}
use s3_bme.LogStore.Read.{record_in-encode}

-- An erased slot holds no record.
record_in-IsFree : (buf : List ℕ) → is_empty buf ≡ true → record_in buf ≡ []
unfolding record_in decode push_decoded
record_in-IsFree buf e = rw e

length-record_in : (buf : List ℕ) → length (record_in buf) ≤ 1
unfolding record_in
length-record_in buf = one (decode buf)
  where
    one : (d : Option LogRecord) → length (push_decoded [] d) ≤ 1
    one none = omega arith
    one (some r) = omega arith

module _ (f g : ℕ → ℕ) (head tail : ℕ) (log : List LogRecord) (rep : Represents f head tail log)
    (short : length log < capacity) (others : (i : ℕ) → i ≢ head → slot g i ≡ slot f i) where
  other_place : (k : ℕ) → k < total_slots → k ≢ length log → behind tail k ≢ head
  other_place k h ne e = ne (omega (arith, rep.head_at, rep.tail_in))

  taken_still : (k : ℕ) → k < length log → is_empty (slot g (behind tail k)) ≡ false
  taken_still k h =
      rw (others (behind tail k) (other_place k (omega arith) (omega arith)))
        (let (r, e) = get_elem?-some log k h in rw (rep.live k r e).0 (encode-not_empty r))

  IsFree-still : (k : ℕ) → length log < k → k < total_slots → IsFree g (behind tail k)
  IsFree-still k p q =
      rw (others (behind tail k) (other_place k q (omega arith))) (rep.free k (omega arith) q)

  live_still :
      (k : ℕ) (r : LogRecord)
      → get_elem? log k ≡ some r
      → record_in (slot g (behind tail k)) ≡ r ∷ []
  live_still k r e =
      let (stored, v) = rep.live k r e in
      let within : k < length log = get_elem?-lt log k r e in
      record_in-encode (slot g (behind tail k)) r
        (others (behind tail k) (other_place k (omega arith) (omega arith)) ∙ stored) v

  -- Nothing was written to the slot at the head, or nothing that shows.
  unwritten : IsFree g head → Occupies g head tail (length log)
  unwritten e = record {
    tail_in = rep.tail_in;
    aligned = rep.aligned;
    head_at = rep.head_at;
    fits = rep.fits;
    taken = λ k h seen. taken_still k h;
    free = λ k p q seen. elim (ℕ_discrete k (length log)) [
      | yes here ↦ rw (here, ← rep.head_at) e
      | no there ↦ IsFree-still k (omega arith) q
    ];
  }

  -- The slot at the head is in use now.
  written :
      is_empty (slot g head) ≡ false → Occupies g ((head + 1) % total_slots) tail (length log + 1)
  written e = record {
    tail_in = rep.tail_in;
    aligned = rep.aligned;
    head_at = omega (arith, rep.head_at);
    fits = omega arith;
    taken = λ k h seen. elim (ℕ_discrete k (length log)) [
      | yes here ↦ rw (here, ← rep.head_at) e
      | no there ↦ taken_still k (omega arith)
    ];
    free = λ k p q seen. IsFree-still k (omega arith) q;
  }

module _ (F : Flash) {Fails : Type 0} (N : IsNor F Fails) where
  -- What reading the store returns, from any offset on.
  abbrev pub Shows : Store F.Dev → List LogRecord → Type 0
  Shows t records =
      (offset max : ℕ)
      → offset < 2 ^ 32
      → Ensures (λ u r. Same F N t r.store × (r.out ≡ take max (drop offset records)))
          (λ c r. Fails) (read F offset max t)

  Shows-of :
      (t : Store F.Dev) (size : ℕ) (records : List LogRecord)
      → Occupies (mem F N t) t.head t.tail size
      → ((offset max : ℕ)
          → decoded (mem F N t) t.tail offset (min max (size - offset))
            ≡ take max (drop offset records))
      → Shows t records
  Shows-of t size records occ all offset max h =
      weaken_of _ _ _ _ (read F offset max t).0 (read F offset max t).1
        (read-decodes F N t size offset max occ h) (λ u r (same, out). (same, out ∙ all offset max))
        (λ c r (fails, _, _). fails)

  module _ (s : Store F.Dev) (f : ℕ → ℕ) (head tail : ℕ) (log : List LogRecord)
      (rep : Represents f head tail log) (short : length log < capacity)
      (others : (i : ℕ) → i ≢ head → slot (mem F N s) i ≡ slot f i) where
    live_after :
        (t : Store F.Dev) (new_head size : ℕ)
        → length log ≤ size
        → Restored F N s new_head tail size t
        → (k : ℕ) (r : LogRecord) → get_elem? log k ≡ some r
        → record_in (slot (mem F N t) (behind t.tail k)) ≡ r ∷ []
    live_after t new_head size le restored k r e = elim restored.positions [
      | inl (heads, tails) ↦
          rw (restored.same_mem, tails)
            (live_still f (mem F N s) head tail log rep short others k r e)
      | inr (none_used, heads, tails) ↦ absurd (omega (arith, get_elem?-lt log k r e))
    ]

    -- The power failed in the course of a write at the head, which may have left anything in that
    -- slot, whatever the positions in memory are now. `log_store_init` finds all records of the log,
    -- and behind them at most the one that the slot at the head holds if its bytes are valid; it
    -- does not change the flash, and only a failing flash can make it return an error.
    pub init-Shows :
        Ensures
          (λ u t. (mem F N t ≡ mem F N s) × Shows t (log ++ record_in (slot (mem F N s) head)))
          (λ c t. Fails)
          (init F s)
    init-Shows = elim (Bool-cases (is_empty (slot (mem F N s) head))) [
      | inl empty ↦
          let occ = unwritten f (mem F N s) head tail log rep short others empty in
          weaken _ _ _ _ (init F) s (init-Restored F N s head tail (length log) occ)
            (λ u t restored. (
              restored.same_mem,
              rw (record_in-IsFree (slot (mem F N s) head) empty, append-nil log)
                  (Shows-of t (length log) log
                    (Restored-Occupies F N s t head tail (length log) occ restored)
                    (decoded-log (mem F N t) t.tail log
                      (live_after t head (length log) (omega arith) restored))),
            ))
            (λ c t fails. fails)
      | inr used ↦
          let occ = written f (mem F N s) head tail log rep short others used in
          weaken _ _ _ _ (init F) s
            (init-Restored F N s ((head + 1) % total_slots) tail (length log + 1) occ)
            (λ u t restored. (
              restored.same_mem,
              Shows-of t (length log + 1) (log ++ record_in (slot (mem F N s) head))
                  (Restored-Occupies F N s t ((head + 1) % total_slots) tail (length log + 1) occ
                    restored)
                  (λ offset max.
                    decoded-log_last (mem F N t) t.tail log
                      (live_after t ((head + 1) % total_slots) (length log + 1) (omega arith)
                        restored)
                      offset max (record_in (slot (mem F N s) head)) (last_slot t restored)
                      (length-record_in (slot (mem F N s) head))),
            ))
            (λ c t fails. fails)
    ]
      where
        last_slot :
            (t : Store F.Dev)
            → Restored F N s ((head + 1) % total_slots) tail (length log + 1) t
            → record_in (slot (mem F N s) head)
              ≡ record_in (slot (mem F N t) (behind t.tail (length log)))
        last_slot t restored = elim restored.positions [
          | inl (heads, tails) ↦ rw (restored.same_mem, tails, ← rep.head_at) refl
          | inr (none_used, heads, tails) ↦ absurd (omega arith)
        ]
