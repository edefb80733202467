-- ===== src/LogStore/Append.antt =====
-- `log_store_append` against the abstract log.
use s3_bme.Base.{
  ℕ, ◌+◌, ◌*◌, ◌/◌, ◌%◌, ◌<◌, ◌≡◌, ◌≢◌, refl, sym, ◌∙◌, arith, List, [], ◌∷◌, ◌++◌, length, u32,
  get_elem?-append_left, get_elem?-append_last, length-append, get_elem?-lt, ◌==◌, false,
  ℕ_discrete, dec_lt,
}
use s3_bme.Base.Result.{Ensures, bind-Ensures, weaken}
use s3_bme.LogRecord.{LogRecord, IsRecord, encode}
use s3_bme.Flash.{Flash, IsNor}
use s3_bme.Flash.Slots.{slot, IsFree}
use s3_bme.LogStore.{
  Store, total_slots, slots_per_sector, capacity, prepare_sector, write_head, append, on_flash,
}
use s3_bme.LogStore.Layout.{behind, Represents, make_room, push}
use s3_bme.LogStore.Prims.{SlotTouched, mem, SlotWritten, write_flash-Ensures}
use s3_bme.LogStore.Prepare.{Holds, AppendFailed, prepare-Ensures}
use s3_bme.LogStore.Room.{next_sector, length-room}

-- One more record at the head.
Represents-append :
    (f g : ℕ → ℕ) (head tail : ℕ) (log : List LogRecord) (rec : LogRecord)
    → Represents f head tail log
    → length log < capacity
    → IsRecord rec
    → slot g head ≡ encode rec
    → ((j : ℕ) → head ≢ j → slot g j ≡ slot f j)
    → Represents g ((head + 1) % total_slots) tail (log ++ (rec ∷ []))
Represents-append f g head tail log rec rep short v stored others = record {
  tail_in = rep.tail_in;
  aligned = rep.aligned;
  head_at = omega (arith, rep.head_at, length-append log (rec ∷ []));
  fits = omega (arith, length-append log (rec ∷ []));
  live = λ k r e. elim (dec_lt k (length log)) [
    | yes old ↦
        let (at, w) = rep.live k r (sym (get_elem?-append_left log (rec ∷ []) k old) ∙ e) in
        (others (behind tail k) (omega (arith, rep.head_at)) ∙ at, w)
    | no new ↦
        let here : k ≡ length log =
          omega (arith, get_elem?-lt (log ++ (rec ∷ [])) k r e, length-append log (rec ∷ [])) in
        let same : rec ≡ r = cc (sym (get_elem?-append_last log rec k here) ∙ e) in
        rw (here, ← rep.head_at, ← same) (stored, v)
  ];
  free = λ k p q.
      let longer = length-append log (rec ∷ []) in
      rw (others (behind tail k) (omega (arith, rep.head_at))) (rep.free k (omega arith) q);
}

module _ (F : Flash) {Fails : Type 0} (N : IsNor F Fails) where
  module _ (s : Store F.Dev) (log rest : List LogRecord) (rec : LogRecord) (v : IsRecord rec)
      (t : Store F.Dev) (heads : t.head ≡ s.head) (room_made : rest ≡ make_room log)
      (rep : Holds F N t rest) (short : length rest < capacity) where
    -- The records stay where they are when the write at the head fails.
    write_failed :
        (t' : Store F.Dev) → Fails → SlotTouched F N t.head t t' → AppendFailed F N s t' log
    write_failed t' f touched = record {
      failed = f;
      same_head = touched.same_head ∙ heads;
      kept = rw (← room_made) (λ k r e. (
        behind t.tail k,
        touched.outside (behind t.tail k) (omega (arith, rep.head_at, get_elem?-lt rest k r e))
            ∙ (rep.live k r e).0,
      ));
    }

    write_head-Ensures :
        Ensures
          (λ u t'. (t'.head ≡ (s.head + 1) % total_slots) × Holds F N t' (rest ++ (rec ∷ [])))
          (λ c t'. AppendFailed F N s t' log)
          (write_head F rec t)
    unfolding write_head
    write_head-Ensures =
        bind-Ensures (λ u t'. SlotWritten F N t.head rec t t') _ _
          (on_flash F (F.write (u32 (t.head * 16)) (encode rec))) _ t
          (weaken _ _ _ _ (on_flash F (F.write (u32 (t.head * 16)) (encode rec))) t
            (write_flash-Ensures F N t.head rec t (omega (arith, rep.head_at)) v vacant)
            (λ u t' w. w) (λ c t' (f, touched). write_failed t' f touched))
          (λ u t' w.
            rw (w.same_head, w.same_tail, heads)
              (
                refl,
                rw heads at (
                    Represents-append (mem F N t) (mem F N t') t.head t.tail rest rec rep short v
                      w.inside w.outside),
              ))
      where
        vacant : IsFree (mem F N t) t.head
        vacant = rw rep.head_at (rep.free (length rest) (omega arith) (omega arith))

  make_room_inside :
      (s : Store F.Dev) (log : List LogRecord)
      → Holds F N s log
      → s.head % slots_per_sector ≢ 0
      → (length log < capacity) × (log ≡ make_room log)
  unfolding make_room
  make_room_inside s log rep ne =
      let short : length log < capacity = omega (arith, rep.head_at, rep.aligned, rep.fits) in
      (short, ground arith)

  -- At the start of a sector the sector ahead may hold anything: `log_store_append` erases it and
  -- pushes the record all the same.
  pub append-mends :
      (s : Store F.Dev) (f : ℕ → ℕ) (log : List LogRecord) (rec : LogRecord)
      → Represents f s.head s.tail log
      → s.head % slots_per_sector ≡ 0
      → ((i : ℕ) → i / slots_per_sector ≢ next_sector s.head → slot (mem F N s) i ≡ slot f i)
      → IsRecord rec
      → Ensures
          (λ u t. (t.head ≡ (s.head + 1) % total_slots) × Holds F N t (push rec log))
          (λ c t. AppendFailed F N s t log)
          (append F rec s)
  unfolding append push
  append-mends s f log rec rep start beside v = rw start (
      bind-Ensures (λ u t. (t.head ≡ s.head) × Holds F N t (make_room log)) _ _
        (prepare_sector F (s.head / slots_per_sector)) _ s
        (prepare-Ensures F N s f log rep start beside)
        (λ u t (h, held).
          write_head-Ensures s log (make_room log) rec v t h refl held
            (omega (arith, length-room f s.head s.tail log rep start))))

  -- The head moves on by one slot.
  pub append-steps :
      (s : Store F.Dev) (log : List LogRecord) (rec : LogRecord)
      → Holds F N s log
      → IsRecord rec
      → Ensures
          (λ u t. (t.head ≡ (s.head + 1) % total_slots) × Holds F N t (push rec log))
          (λ c t. AppendFailed F N s t log)
          (append F rec s)
  unfolding append push
  append-steps s log rec rep v = elim (ℕ_discrete (s.head % slots_per_sector) 0) [
    | yes start ↦ append-mends s (mem F N s) log rec rep start (λ i ne. refl) v
    | no inner ↦
        let (short, same) = make_room_inside s log rep inner in
        rw (not_zero inner, ← same) (write_head-Ensures s log log rec v s refl same rep short)
  ]
    where
      not_zero : s.head % slots_per_sector ≢ 0 → (s.head % slots_per_sector == 0) ≡ false
      not_zero ne = ground arith

  -- `log_store_append` on a store that stands for `log` leaves a store that stands for the log
  -- with the record pushed, the oldest sector dropped first if the log is at its capacity. If a
  -- flash operation fails, the head is where it was and each record that `make_room` keeps is
  -- still on the flash.
  pub append-refines :
      (s : Store F.Dev) (log : List LogRecord) (rec : LogRecord)
      → Holds F N s log
      → IsRecord rec
      → Ensures
          (λ u t. Holds F N t (push rec log))
          (λ c t. AppendFailed F N s t log)
          (append F rec s)
  append-refines s log rec rep v =
      weaken _ _ _ _ (append F rec) s (append-steps s log rec rep v) (λ u t (_, held). held)
        (λ c t p. p)
