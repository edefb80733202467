-- ===== src/LogStore/Prepare.antt =====
-- What `log_store_append` does at the start of a sector.
use mathlib.Core.Path.{subst}
use s3_bme.Base.{
  Bool, ℕ, ◌+◌, ◌*◌, ◌/◌, ◌%◌, ◌<◌, ◌≡◌, ◌≢◌, refl, ◌∙◌, arith, List, length, u32, ltb, leb, true,
  false, ap, dec_lt, ◌&&◌,
}
use s3_bme.Base.Result.{Ensures, bind-Ensures, weaken}
use s3_bme.LogRecord.{LogRecord, is_empty}
use s3_bme.Flash.{Flash, IsNor}
use s3_bme.Flash.Slots.{slot}
use s3_bme.LogStore.{
  Store, count, slots_per_sector, capacity, move_tail, erase_sector, prepare_sector, on_flash,
  sector_is_erased,
}
use s3_bme.LogStore.Layout.{behind, Represents, make_room}
use s3_bme.LogStore.Prims.{mem, Same, SectorErased, sector_is_erased-Ensures, erase_flash-Ensures}
use s3_bme.LogStore.Room.{Kept, room-Kept, next_sector, room}

-- The count of a store is the number of records that it stands for.
pub count_lem :
    {Dev : Type 0} (f : ℕ → ℕ) (s : Store Dev) (log : List LogRecord)
    → Represents f s.head s.tail log
    → count s ≡ length log
unfolding count
count_lem f s log rep = omega (arith, rep.head_at, rep.tail_in, rep.fits)

module _ (F : Flash) {Fails : Type 0} (N : IsNor F Fails) where
  abbrev pub Holds : Store F.Dev → List LogRecord → Type 0
  Holds s log = Represents (mem F N s) s.head s.tail log

  -- What leaves the flash and the positions as they are keeps what the store stands for.
  pub Same-Holds :
      {s t : Store F.Dev} (log : List LogRecord) → Same F N s t → Holds s log → Holds t log
  Same-Holds log same rep = rw (same.same_head, same.same_tail, same.same_mem) rep

  tail_test : Store F.Dev → Bool
  tail_test t =
      ltb 0 (count t)
      && (leb (u32 (next_sector t.head * slots_per_sector)) t.tail
          && ltb t.tail (u32 (u32 (next_sector t.head * slots_per_sector) + slots_per_sector)))

  -- The tail lies in the sector ahead of the head exactly when the log is at its capacity.
  module _ (f : ℕ → ℕ) (t : Store F.Dev) (log : List LogRecord)
      (rep : Represents f t.head t.tail log) (start : t.head % slots_per_sector ≡ 0) where
    tail_test_full : length log ≡ capacity → tail_test t ≡ true
    unfolding tail_test
    tail_test_full full =
        rw (count_lem f t log rep) (ground (arith, rep.head_at, rep.aligned, rep.tail_in))

    tail_test_short : length log < capacity → tail_test t ≡ false
    unfolding tail_test
    tail_test_short short =
        rw (count_lem f t log rep) (ground (arith, rep.head_at, rep.aligned, rep.tail_in))

    pub move_tail-Ensures :
        Ensures
          (λ u t'.
            (t'.head ≡ t.head)
            × (mem F N t' ≡ mem F N t)
            × (length log ≡ capacity → t'.tail ≡ behind t.tail slots_per_sector)
            × (length log < capacity → t'.tail ≡ t.tail))
          (λ c t'. ⊥)
          (move_tail F (next_sector t.head) t)
    unfolding move_tail tail_test
    move_tail-Ensures = elim (dec_lt (length log) capacity) [
      | yes short ↦ rw (tail_test_short short) (refl, refl, λ full. absurd (omega arith), λ _. refl)
      | no long ↦ rw (tail_test_full (omega (arith, rep.fits))) (
        refl,
        refl,
        λ full. omega (arith, rep.head_at, rep.aligned, rep.tail_in),
        λ short. absurd (omega arith),
      )
    ]

  -- What a failed append leaves: the head as it was, and every record that the log keeps when
  -- room is made for a new one.
  pub record AppendFailed (s t : Store F.Dev) (log : List LogRecord) : Type 0 where
    pub failed : Fails
    pub same_head : t.head ≡ s.head
    pub kept : Kept (mem F N t) (make_room log)

  -- The head is at the start of a sector, and but for the sector ahead, which may hold anything, the
  -- flash is as `f`, which stands for the log.
  module _ (s : Store F.Dev) (f : ℕ → ℕ) (log : List LogRecord)
      (rep : Represents f s.head s.tail log) (start : s.head % slots_per_sector ≡ 0)
      (beside : (i : ℕ)
        → i / slots_per_sector ≢ next_sector s.head
        → slot (mem F N s) i ≡ slot f i) where
    beside-Same :
        (t : Store F.Dev)
        → Same F N s t
        → (i : ℕ) → i / slots_per_sector ≢ next_sector s.head
        → slot (mem F N t) i ≡ slot f i
    beside-Same t same i ne = ap (λ m. slot m i) same.same_mem ∙ beside i ne

    -- From the erased sector on: the tail moves if it has to, and the flash stands for the log
    -- with room made.
    moved :
        (t : Store F.Dev)
        → Same F N s t
        → (t' : Store F.Dev) → SectorErased F N (next_sector s.head) t t'
        → Ensures
            (λ u t''. (t''.head ≡ s.head) × Holds t'' (make_room log))
            (λ c t''. AppendFailed s t'' log)
            (move_tail F (next_sector s.head) t')
    moved t same t' e =
        subst
          (λ h.
            Ensures (λ u t''. (t''.head ≡ s.head) × Holds t'' (make_room log))
              (λ c t''. AppendFailed s t'' log) (move_tail F (next_sector h) t'))
          heads
          (weaken _ _ _ _ (move_tail F (next_sector t'.head)) t'
            (move_tail-Ensures f t' log (rw (heads, tails) rep) (rw heads start))
            (λ u t'' (h, m, full, short). (
              h ∙ heads,
              rw (h ∙ heads) (
                  room f (mem F N t'') s.head s.tail t''.tail log rep start
                    (λ i p. rw m (e.inside i p))
                    (λ i ne. ap (λ m'. slot m' i) m ∙ (e.outside i ne ∙ beside-Same t same i ne))
                    (λ p. full p ∙ ap (λ x. behind x slots_per_sector) tails)
                    (λ p. short p ∙ tails)),
            ))
            (λ c t'' never. absurd never))
      where
        heads : t'.head ≡ s.head
        heads = e.same_head ∙ same.same_head

        tails : t'.tail ≡ s.tail
        tails = e.same_tail ∙ same.same_tail

    erase_next-Ensures :
        (t : Store F.Dev)
        → Same F N s t
        → Ensures
            (λ u t'. (t'.head ≡ s.head) × Holds t' (make_room log))
            (λ c t'. AppendFailed s t' log)
            (erase_sector F (next_sector s.head) t)
    unfolding erase_sector
    erase_next-Ensures t same =
        bind-Ensures (λ u t'. SectorErased F N (next_sector s.head) t t') _ _
          (on_flash F (F.erase_sector (next_sector s.head))) _ t
          (weaken _ _ _ _ (on_flash F (F.erase_sector (next_sector s.head))) t
            (erase_flash-Ensures F N (next_sector s.head) t (omega arith)) (λ u t' e. e)
            (λ c t' (fails, touched). record {
              failed = fails;
              same_head = touched.same_head ∙ same.same_head;
              kept =
                  room-Kept f (mem F N t') s.head s.tail log rep start
                    (λ i ne. touched.outside i ne ∙ beside-Same t same i ne);
            }))
          (λ u t' e. moved t same t' e)

    -- The sector ahead is erased, and the tail has left it.
    pub prepare-Ensures :
        Ensures
          (λ u t. (t.head ≡ s.head) × Holds t (make_room log))
          (λ c t. AppendFailed s t log)
          (prepare_sector F (s.head / slots_per_sector) s)
    unfolding prepare_sector
    prepare-Ensures =
        bind-Ensures (λ e t. (e ≡ true) × Same F N s t) _ _
          (sector_is_erased F (s.head / slots_per_sector)) _ s
          (weaken _ _ _ _ (sector_is_erased F (s.head / slots_per_sector)) s
            (sector_is_erased-Ensures F N (s.head / slots_per_sector) s
              (omega (arith, rep.head_at)))
            (λ e t (q, same). (q ∙ blank, same))
            (λ c t (fails, same). record {
              failed = fails;
              same_head = same.same_head;
              kept =
                  room-Kept f (mem F N t) s.head s.tail log rep start
                    (λ i ne. beside-Same t same i ne);
            }))
          (λ e t (q, same). rw q (erase_next-Ensures t same))
      where
        blank : is_empty (slot (mem F N s) (s.head / slots_per_sector * slots_per_sector)) ≡ true
        blank =
            let other : s.head / slots_per_sector * slots_per_sector / slots_per_sector
                ≢ next_sector s.head =
              omega (arith, rep.head_at) in
            let index : s.head / slots_per_sector * slots_per_sector ≡ behind s.tail (length log) =
              omega (arith, rep.head_at) in
            rw (beside _ other, index)
              (rep.free (length log) (omega arith) (omega (arith, rep.fits)))
