-- ===== src/LogStore/EraseRestart.antt =====
-- `log_store_init`, `log_store_read` and `log_store_append` after the power failed in the course of
-- `log_store_append` erasing the sector ahead.
use s3_bme.Base.{
  ℕ, ◌+◌, ◌-◌, ◌*◌, ◌/◌, ◌%◌, ◌≤◌, ◌<◌, ◌≡◌, ◌≢◌, ◌⊎◌, refl, sym, ◌∙◌, ap, arith, false, List, ◌++◌,
  length, dec_lt, inl, inr, Bool-cases, min, length-drop,
}
use s3_bme.Base.Result.{Ensures, weaken, weaken_of, bind-Ensures, ◌>>=◌}
use s3_bme.LogRecord.{LogRecord, IsRecord, is_empty}
use s3_bme.Flash.{Flash, IsNor}
use s3_bme.Flash.Slots.{slot, IsFree}
use s3_bme.LogStore.{Store, slots_per_sector, capacity, init, read, append}
use s3_bme.LogStore.Layout.{behind, Represents, Occupies, make_room, push}
use s3_bme.LogStore.Prims.{mem, Same}
use s3_bme.LogStore.Room.{next_sector}
use s3_bme.LogStore.Prepare.{Holds}
use s3_bme.LogStore.Append.{append-mends}
use s3_bme.LogStore.Restart.{Restored, init-Restored}
use s3_bme.LogStore.ReadSlots.{decoded, read-decodes}
use s3_bme.LogStore.EraseLoss.{
  make_room_full, make_room_short, wiped, wiped_outside, with_room, room_left, decoded-kept,
  blank_ahead, used_ahead, decoded-left,
}

-- Room made twice is room made once.
make_room-make_room :
    (log : List LogRecord)
    → length (make_room log) + slots_per_sector ≤ capacity
    → make_room (make_room log) ≡ make_room log
make_room-make_room log h = make_room_short (make_room log) (omega arith)

length-make_room :
    (log : List LogRecord)
    → length log ≡ capacity
    → slots_per_sector + length (make_room log) ≡ capacity
length-make_room log full =
    let cut = ap length (make_room_full log full) ∙ length-drop slots_per_sector log in
    omega (arith, cut)

module _ (F : Flash) {Fails : Type 0} (N : IsNor F Fails) where
  -- A store whose records are those of `log` with room made and perhaps, in front of them, what is
  -- left of the oldest sector; the next `log_store_append` erases what is in the way.
  record Mendable (left : List LogRecord) (t : Store F.Dev) (log : List LogRecord) : Type 0 where
    wanted : ℕ → ℕ
    records : List LogRecord
    stands : Represents wanted t.head t.tail records
    at_start : t.head % slots_per_sector ≡ 0
    beside :
        (i : ℕ) → i / slots_per_sector ≢ next_sector t.head → slot (mem F N t) i ≡ slot wanted i
    same_room : make_room records ≡ make_room log
    in_use : Occupies (mem F N t) t.head t.tail (length records)
    shown :
        (decoded (mem F N t) t.tail 0 (length records) ≡ make_room log)
        ⊎ (decoded (mem F N t) t.tail 0 (length records) ≡ left ++ make_room log)

  module _ (s : Store F.Dev) (f : ℕ → ℕ) (head tail : ℕ) (log : List LogRecord)
      (rep : Represents f head tail log) (at_start : head % slots_per_sector ≡ 0)
      (from_zero : length log ≡ 0 → head ≡ 0)
      (outside : (i : ℕ) → i / slots_per_sector ≢ next_sector head → slot (mem F N s) i ≡ slot f i)
      (spare : length log < capacity
        → IsFree (mem F N s) (next_sector head * slots_per_sector)) where
    placed :
        (t : Store F.Dev) (tail' size : ℕ)
        → (size ≡ 0 → (head ≡ 0) × (tail' ≡ 0))
        → Restored F N s head tail' size t
        → (t.head ≡ head) × (t.tail ≡ tail')
    placed t tail' size zero restored = elim restored.positions [
      | inl same ↦ same
      | inr (none_used, heads, tails) ↦
          let (h, e) = zero none_used in (heads ∙ sym h, tails ∙ sym e)
    ]

    Restored-blank :
        (t : Store F.Dev) (tail' : ℕ)
        → Represents (wiped (mem F N s) (next_sector head)) head tail' (make_room log)
        → IsFree (mem F N s) (next_sector head * slots_per_sector)
        → (length (make_room log) ≡ 0 → (head ≡ 0) × (tail' ≡ 0))
        → Restored F N s head tail' (length (make_room log)) t
        → Mendable (decoded (mem F N s) tail 0 slots_per_sector) t log
    Restored-blank t tail' rep' first zero restored =
        let (heads, tails) = placed t tail' (length (make_room log)) zero restored in
        record {
          wanted = wiped (mem F N s) (next_sector head);
          records = make_room log;
          stands = rw (heads, tails) rep';
          at_start = rw heads at_start;
          beside =
              rw (heads, restored.same_mem)
                (λ i ne. sym (wiped_outside (mem F N s) (next_sector head) i ne));
          same_room =
              make_room-make_room log (room_left f (mem F N s) head tail log rep at_start outside);
          in_use =
              rw (heads, tails, restored.same_mem)
                (blank_ahead f (mem F N s) head tail log rep at_start outside tail' rep' first);
          shown = inl (
              rw (tails, restored.same_mem)
                (decoded-kept f (mem F N s) head tail log rep at_start outside tail' rep'));
        }

    Restored-used :
        (t : Store F.Dev)
        → length log ≡ capacity
        → is_empty (slot (mem F N s) (next_sector head * slots_per_sector)) ≡ false
        → Restored F N s head tail (length log) t
        → Mendable (decoded (mem F N s) tail 0 slots_per_sector) t log
    Restored-used t full used restored =
        let (heads, tails) = placed t tail (length log) (λ none. absurd (omega arith)) restored in
        record {
          wanted = f;
          records = log;
          stands = rw (heads, tails) rep;
          at_start = rw heads at_start;
          beside = rw (heads, restored.same_mem) outside;
          same_room = refl;
          in_use =
              rw (heads, tails, restored.same_mem)
                (used_ahead f (mem F N s) head tail log rep at_start outside full used);
          shown = inr (
              rw (tails, restored.same_mem)
                (decoded-left f (mem F N s) head tail log rep at_start outside full used));
        }

    init_blank :
        (tail' : ℕ)
        → (length log ≡ capacity → tail' ≡ behind tail slots_per_sector)
        → (length log < capacity → tail' ≡ tail)
        → (length (make_room log) ≡ 0 → (head ≡ 0) × (tail' ≡ 0))
        → IsFree (mem F N s) (next_sector head * slots_per_sector)
        → Ensures
            (λ u t. Mendable (decoded (mem F N s) tail 0 slots_per_sector) t log)
            (λ c t. Fails)
            (init F s)
    init_blank tail' if_full if_short zero first =
        let rep' =
          with_room f (mem F N s) head tail log rep at_start outside tail' if_full if_short in
        weaken _ _ _ _ (init F) s
          (init-Restored F N s head tail' (length (make_room log))
            (blank_ahead f (mem F N s) head tail log rep at_start outside tail' rep' first))
          (λ u t restored. Restored-blank t tail' rep' first zero restored) (λ c t fails. fails)

    init-Mendable :
        Ensures
          (λ u t. Mendable (decoded (mem F N s) tail 0 slots_per_sector) t log)
          (λ c t. Fails)
          (init F s)
    init-Mendable = elim (dec_lt (length log) capacity) [
      | yes short ↦
          init_blank tail (λ full. absurd (omega arith)) (λ _. refl)
            (λ none.
              let empty : length log ≡ 0 = sym (ap length (make_room_short log short)) ∙ none in
              let zero : head ≡ 0 = from_zero empty in
              (zero, omega (arith, rep.head_at, rep.tail_in)))
            (spare short)
      | no long ↦
          let full : length log ≡ capacity = omega (arith, rep.fits) in
          elim (Bool-cases (is_empty (slot (mem F N s) (next_sector head * slots_per_sector)))) [
            | inl first ↦
                init_blank (behind tail slots_per_sector) (λ _. refl) (λ short. absurd (long short))
                  (λ none. absurd (omega (arith, none, full, length-make_room log full))) first
            | inr used ↦
                weaken _ _ _ _ (init F) s
                  (init-Restored F N s head tail (length log)
                    (used_ahead f (mem F N s) head tail log rep at_start outside full used))
                  (λ u t restored. Restored-used t full used restored) (λ c t fails. fails)
          ]
    ]

  read-Mendable :
      (left : List LogRecord) (t : Store F.Dev) (log : List LogRecord) (max : ℕ)
      → capacity ≤ max
      → Mendable left t log
      → Ensures
          (λ u r. Same F N t r.store × ((r.out ≡ make_room log) ⊎ (r.out ≡ left ++ make_room log)))
          (λ c r. Fails)
          (read F 0 max t)
  read-Mendable left t log max enough m =
      let all : min max (length m.records - 0) ≡ length m.records = omega (arith, m.in_use.fits) in
      weaken_of _ _ _ _ (read F 0 max t).0 (read F 0 max t).1
        (read-decodes F N t (length m.records) 0 max m.in_use (omega arith))
        (λ u r (same, out).
          let read_all = out ∙ ap (decoded (mem F N t) t.tail 0) all in
          (same, elim m.shown [ inl e ↦ inl (read_all ∙ e) | inr e ↦ inr (read_all ∙ e) ]))
        (λ c r (fails, _, _). fails)

  append-Mendable :
      (left : List LogRecord) (t : Store F.Dev) (log : List LogRecord) (rec : LogRecord)
      → IsRecord rec
      → Mendable left t log
      → Ensures (λ u t'. Holds F N t' (push rec log)) (λ c t'. Fails) (append F rec t)
  unfolding push
  append-Mendable left t log rec v m = rw m.same_room at (
      weaken _ _ _ _ (append F rec) t
        (append-mends F N t m.wanted m.records rec m.stands m.at_start m.beside v)
        (λ u t' (_, held). held) (λ c t' p. p.failed))

  -- The store stood for `log` with the head at the start of a sector, and the power failed in the
  -- course of the erase of the sector ahead, which may have left anything in that sector; only if
  -- the sector was erased before, because the log was not at its capacity, its first slot still
  -- is. An empty log lies at the start of the flash. Whatever the positions in memory are now, after
  -- `log_store_init` a read of the whole store returns the records of `make_room log` in order,
  -- either alone or behind those that the oldest sector still holds, and the next `log_store_append` leaves a
  -- store that stands for the log with the record pushed, as if the power had not failed. Only a
  -- failing flash can make one of the calls return an error.
  pub restart-pushes :
      (s : Store F.Dev) (f : ℕ → ℕ) (head tail : ℕ) (log : List LogRecord) (max : ℕ)
      (rec : LogRecord)
      → Represents f head tail log
      → head % slots_per_sector ≡ 0
      → (length log ≡ 0 → head ≡ 0)
      → ((i : ℕ) → i / slots_per_sector ≢ next_sector head → slot (mem F N s) i ≡ slot f i)
      → (length log < capacity → IsFree (mem F N s) (next_sector head * slots_per_sector))
      → capacity ≤ max
      → IsRecord rec
      → Ensures
          (λ u t.
            Ensures
              (λ _ r.
                Same F N t r.store
                × ((r.out ≡ make_room log)
                    ⊎ (r.out ≡ decoded (mem F N s) tail 0 slots_per_sector ++ make_room log)))
              (λ c r. Fails)
              (read F 0 max t))
          (λ c t. Fails)
          (init F s)
        × Ensures
            (λ u t. Holds F N t (push rec log))
            (λ c t. Fails)
            ((init F >>= λ _. append F rec) s)
  restart-pushes s f head tail log max rec rep start zero outside spare enough v =
      let left : List LogRecord = decoded (mem F N s) tail 0 slots_per_sector in
      let started = init-Mendable s f head tail log rep start zero outside spare in
      (
        weaken _ _ _ _ (init F) s started (λ u t m. read-Mendable left t log max enough m)
            (λ c t fails. fails),
        bind-Ensures (λ u t. Mendable left t log) _ _ (init F) (λ _. append F rec) s started
            (λ u t m. append-Mendable left t log rec v m),
      )
