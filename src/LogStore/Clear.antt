-- ===== src/LogStore/Clear.antt =====
-- `log_store_clear`.
use s3_bme.Base.{ℕ, zero, suc, ◌+◌, ◌/◌, ◌%◌, ◌<◌, ◌≡◌, refl, ◌∙◌, arith, [], ℕ_discrete}
use s3_bme.Base.Result.{Ensures, bind-Ensures, weaken}
use s3_bme.Flash.{Flash, IsNor, sectors}
use s3_bme.Flash.Slots.{IsFree}
use s3_bme.LogStore.{Store, total_slots, slots_per_sector, on_flash, clear_loop, clear}
use s3_bme.LogStore.Layout.{behind, Represents}
use s3_bme.LogStore.Prims.{mem, SectorErased, erase_flash-Ensures}
use s3_bme.LogStore.Prepare.{Holds}

-- An erased flash stands for the empty log, wherever an aligned head and tail meet.
pub blank-Represents :
    (f : ℕ → ℕ) (at : ℕ)
    → at < total_slots
    → at % slots_per_sector ≡ 0
    → ((i : ℕ) → i < total_slots → IsFree f i)
    → Represents f at at []
blank-Represents f at h a free = record {
  tail_in = h;
  aligned = a;
  head_at = omega arith;
  fits = omega arith;
  live = λ k r e. cc;
  free = λ k p q. free (behind at k) (omega arith);
}

module _ (F : Flash) {Fails : Type 0} (N : IsNor F Fails) where
  -- The slots of the sectors below `n` are free.
  abbrev ClearedBelow : ℕ → Store F.Dev → Type 0
  ClearedBelow n t = (i : ℕ) → i / slots_per_sector < n → IsFree (mem F N t) i

  cleared_next :
      (n : ℕ) (s t : Store F.Dev)
      → ClearedBelow n s
      → SectorErased F N n s t
      → ClearedBelow (n + 1) t
  cleared_next n s t done e i h = elim (ℕ_discrete (i / slots_per_sector) n) [
    | yes here ↦ e.inside i here
    | no other ↦ rw (e.outside i other) (done i (omega arith))
  ]

  clear_loop-Ensures :
      (left i : ℕ) (s : Store F.Dev)
      → i + left ≡ sectors
      → ClearedBelow i s
      → Ensures
          (λ u t. ClearedBelow sectors t)
          (λ c t. Fails × (t.head ≡ s.head) × (t.tail ≡ s.tail))
          (clear_loop F left i s)
  unfolding clear_loop
  clear_loop-Ensures zero i s e done = let all : i ≡ sectors = omega arith in rw all at done
  clear_loop-Ensures (suc left) i s e done =
      bind-Ensures (λ u t. SectorErased F N i s t) _ _ (on_flash F (F.erase_sector i)) _ s
        (weaken _ _ _ _ (on_flash F (F.erase_sector i)) s
          (erase_flash-Ensures F N i s (omega arith)) (λ u t p. p)
          (λ c t (f, p). (f, p.same_head, p.same_tail)))
        (λ u t p.
          weaken _ _ _ _ (clear_loop F left (i + 1)) t
            (clear_loop-Ensures left (i + 1) t (omega arith) (cleared_next i s t done p))
            (λ _ t' q. q) (λ c t' (f, h, tl). (f, h ∙ p.same_head, tl ∙ p.same_tail)))

  -- `log_store_clear` leaves an erased flash that stands for the empty log, whatever was there
  -- before. If the flash fails, head and tail are as they were.
  pub clear-empty :
      (s : Store F.Dev)
      → Ensures
          (λ u t. Holds F N t [])
          (λ c t. Fails × (t.head ≡ s.head) × (t.tail ≡ s.tail))
          (clear F s)
  unfolding clear
  clear-empty s =
      bind-Ensures (λ u t. ClearedBelow sectors t) _ _ (clear_loop F sectors 0) _ s
        (clear_loop-Ensures sectors 0 s refl (λ i h. absurd (omega arith)))
        (λ u t done.
          blank-Represents (mem F N t) 0 (omega arith) refl (λ i h. done i (omega arith)))
