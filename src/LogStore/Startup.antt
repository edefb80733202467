-- ===== src/LogStore/Startup.antt =====
-- `log_store_init` on a flash of which nothing is known.
use s3_bme.Base.{
  ℕ, zero, suc, ◌+◌, ◌-◌, ◌*◌, ◌%◌, ◌≤◌, ◌<◌, ◌≡◌, ◌⊎◌, inl, inr, refl, sym, ◌∙◌, ap, arith, Bool,
  true, false, if◌then◌else◌, [], get_or, ==_ne, ℕ_discrete,
}
use s3_bme.Base.Result.{ok, Ensures, bind-Ensures, weaken}
use s3_bme.LogRecord.{is_empty}
use s3_bme.Flash.{Flash, IsNor, sectors}
use s3_bme.Flash.Slots.{slot}
use s3_bme.LogStore.{
  Store, total_slots, slots_per_sector, err_corrupt, read_slot, scan_head, scan_sectors, recover,
  init, find_start, find_end,
}
use s3_bme.LogStore.Prims.{mem, read_slot-Ensures}
use s3_bme.LogStore.Scan.{
  blank_at, flags, count_true, get_or-flags, some_unset, some_set, all_flags, no_flags,
  scan_sectors-Ensures,
}
use s3_bme.LogStore.Runs.{find_start-starts, find_end-ends}

from_zero : (f : ℕ → ℕ) (i : ℕ) {b : Bool} → blank_at f (0 + i) ≡ b → blank_at f i ≡ b
from_zero f i e = let here : 0 + i ≡ i = omega arith in rw here at e

module _ (F : Flash) {Fails : Type 0} (N : IsNor F Fails) (f : ℕ → ℕ) where
  -- The flash is as it was, the tail is `q`, and the slot at the head reads as empty.
  record IsReady (q : ℕ) (t : Store F.Dev) : Type 0 where
    same : mem F N t ≡ f
    tail_at : t.tail ≡ q
    head_in : t.head < total_slots
    vacant : is_empty (slot f t.head) ≡ true

  scan_head-IsReady :
      (q left i : ℕ) (s : Store F.Dev)
      → i + left ≤ total_slots
      → IsReady q s
      → Ensures (λ u t. IsReady q t) (λ c t. Fails) (scan_head F left i s)
  unfolding scan_head
  scan_head-IsReady q zero i s h ready = ready
  scan_head-IsReady q (suc left) i s h ready =
      bind-Ensures (λ buf t. (buf ≡ slot f i) × IsReady q t) _ _ (read_slot F i) _ s
        (weaken _ _ _ _ (read_slot F i) s (read_slot-Ensures F N i s (omega arith))
          (λ buf t (e, kept). (
            rw (← ready.same) e,
            record {
              same = kept.same_mem ∙ ready.same;
              tail_at = kept.same_tail ∙ ready.tail_at;
              head_in = rw kept.same_head ready.head_in;
              vacant = rw kept.same_head ready.vacant;
            },
          ))
          (λ c t (fails, _). fails))
        (λ buf t (e, ready'). rw e (
          found (is_empty (slot f i)) t refl ready'
            (scan_head-IsReady q left (i + 1) t (omega arith) ready')))
    where
      found :
          (b : Bool) (t : Store F.Dev)
          → is_empty (slot f i) ≡ b
          → IsReady q t
          → Ensures (λ u t'. IsReady q t') (λ c t'. Fails) (scan_head F left (i + 1) t)
          → Ensures
              (λ u t'. IsReady q t')
              (λ c t'. Fails)
              ((if b then (λ s. (ok tt, record s { head = i })) else scan_head F left (i + 1)) t)
      found true t p ready' rest = record {
        same = ready'.same;
        tail_at = ready'.tail_at;
        head_in = omega arith;
        vacant = p;
      }
      found false t p ready' rest = rest

  array_at : (i : ℕ) → i < sectors → get_or (flags f 0 sectors) i false ≡ blank_at f i
  array_at i h = get_or-flags f sectors 0 i h ∙ ap (blank_at f) (omega arith)

  -- The positions after a start: nothing is found, or the tail is at the start of a sector whose
  -- first slot is not empty.
  pub record IsStarted (t : Store F.Dev) : Type 0 where
    pub same : mem F N t ≡ f
    pub head_in : t.head < total_slots
    pub vacant : is_empty (slot f t.head) ≡ true
    pub oldest :
        ((t.head ≡ 0) × (t.tail ≡ 0) × ((i : ℕ) → i < sectors → blank_at f i ≡ true))
        ⊎ ((k : ℕ) × (k < sectors) × (t.tail ≡ k * slots_per_sector) × (blank_at f k ≡ false))

  -- The positions that a start `p` and an end `r` of the run give.
  recover_from :
      (p r : ℕ) (s : Store F.Dev)
      → find_start (flags f 0 sectors) sectors 0 ≡ p
      → find_end (flags f 0 sectors) sectors p ≡ ok r
      → p < sectors
      → blank_at f p ≡ true
      → blank_at f ((r + 1) % sectors) ≡ false
      → mem F N s ≡ f
      → Ensures (λ u t. IsStarted t) (λ c t. Fails) (recover F (flags f 0 sectors) s)
  unfolding recover
  recover_from p r s starts ends hp set unset same =
      rw (starts, ends)
        (weaken (λ u t. IsReady ((r + 1) % sectors * slots_per_sector) t) _ _ _
          (scan_head F slots_per_sector ((p + sectors - 1) % sectors * slots_per_sector)) s'
          (scan_head-IsReady ((r + 1) % sectors * slots_per_sector) slots_per_sector
            ((p + sectors - 1) % sectors * slots_per_sector) s' (omega arith)
            (record {
              same = same;
              tail_at = refl;
              head_in = omega arith;
              vacant = rw head_at set;
            }))
          (λ u t ready. record {
            same = ready.same;
            head_in = ready.head_in;
            vacant = ready.vacant;
            oldest = inr ((r + 1) % sectors, omega arith, ready.tail_at, unset);
          })
          (λ c t fails. fails))
    where
      s' : Store F.Dev
      s' = record s {
        head = p * slots_per_sector % total_slots;
        tail = (r + 1) % sectors * slots_per_sector;
      }

      head_at : p * slots_per_sector % total_slots ≡ p * slots_per_sector
      head_at = omega arith

  recover-IsStarted :
      (i j : ℕ) (s : Store F.Dev)
      → i < sectors
      → j < sectors
      → blank_at f i ≡ true
      → blank_at f j ≡ false
      → mem F N s ≡ f
      → Ensures (λ u t. IsStarted t) (λ c t. Fails) (recover F (flags f 0 sectors) s)
  recover-IsStarted i j s hi hj set unset same =
      let (at_start, start_in) =
        find_start-starts (flags f 0 sectors) i j hi hj (array_at i hi ∙ set)
          (array_at j hj ∙ unset) in
      let (r, ends, inside, next) =
        find_end-ends (flags f 0 sectors) j sectors (find_start (flags f 0 sectors) sectors 0) hj
          (array_at j hj ∙ unset) start_in (omega arith) in
      recover_from (find_start (flags f 0 sectors) sectors 0) r s refl ends start_in
        (sym (array_at (find_start (flags f 0 sectors) sectors 0) start_in) ∙ at_start)
        (sym (array_at ((r + 1) % sectors) (omega arith)) ∙ next) same

module _ (F : Flash) {Fails : Type 0} (N : IsNor F Fails) where
  -- `log_store_init` ends on every flash, whatever it holds, and does not change it. It returns
  -- LOG_STORE_ERR_CORRUPT only if no sector is erased, as its first slot tells, and another error
  -- only if the flash fails. Otherwise the slot at the head reads as empty, so nothing is written
  -- over, and the tail is at the start of a sector whose first slot is not empty, or head and tail
  -- are 0 and every sector is erased.
  pub init-IsStarted :
      (s : Store F.Dev)
      → Ensures
          (λ u t. IsStarted F N (mem F N s) t)
          (λ c t.
            Fails ⊎ ((c ≡ err_corrupt) × ((i : ℕ) → i < sectors → blank_at (mem F N s) i ≡ false)))
          (init F s)
  unfolding init
  init-IsStarted s =
      bind-Ensures _ _ _ (scan_sectors F sectors 0 (record { erased = []; n_erased = 0 })) _
        (record s { head = 0; tail = 0 })
        (weaken _ _ _ _ (scan_sectors F sectors 0 (record { erased = []; n_erased = 0 }))
          (record s { head = 0; tail = 0 })
          (scan_sectors-Ensures F N sectors 0 (record { erased = []; n_erased = 0 })
            (record s { head = 0; tail = 0 }) (omega arith))
          (λ r t p. p) (λ c t (fails, _). inl fails))
        (λ found t (same, erased, n).
          let total : found.n_erased ≡ count_true (flags (mem F N s) 0 sectors) =
            omega (arith, n) in
          elim (ℕ_discrete (count_true (flags (mem F N s) 0 sectors)) sectors) [
            | yes all ↦
                rw (total, all)
                  (record {
                    same = same.same_mem;
                    head_in = rw same.same_head (omega arith);
                    vacant = rw same.same_head (set_at all 0 (omega arith));
                    oldest = inl (same.same_head, same.same_tail, set_at all);
                  })
            | no not_all ↦ elim (ℕ_discrete (count_true (flags (mem F N s) 0 sectors)) 0) [
              | yes none ↦ rw (total, none) (inr (refl, unset_at none))
              | no some ↦
                  let (i, hi, set) = some_set (mem F N s) sectors 0 some in
                  let (j, hj, unset) = some_unset (mem F N s) sectors 0 not_all in
                  rw (total, ==_ne _ sectors not_all, ==_ne _ 0 some, erased)
                    (weaken _ _ _ _ (recover F (flags (mem F N s) 0 sectors)) t
                      (recover-IsStarted F N (mem F N s) i j t hi hj (from_zero _ i set)
                        (from_zero _ j unset) same.same_mem)
                      (λ u t' p. p) (λ c t' fails. inl fails))
            ]
          ])
    where
      set_at :
          count_true (flags (mem F N s) 0 sectors) ≡ sectors
          → (i : ℕ) → i < sectors
          → blank_at (mem F N s) i ≡ true
      set_at all i h = from_zero _ i (all_flags (mem F N s) sectors 0 i all h)

      unset_at :
          count_true (flags (mem F N s) 0 sectors) ≡ 0
          → (i : ℕ) → i < sectors
          → blank_at (mem F N s) i ≡ false
      unset_at none i h = from_zero _ i (no_flags (mem F N s) sectors 0 i none h)
