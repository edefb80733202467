-- ===== src/LogStore/Restart.antt =====
-- `log_store_init` on a flash with some slots in use, whatever they hold.
use s3_bme.Base.{
  ℕ, zero, suc, ◌+◌, ◌-◌, ◌*◌, ◌%◌, ◌≤◌, ◌<◌, ◌≡◌, ◌≢◌, ◌⊎◌, inl, inr, refl, sym, ◌∙◌, arith, true,
  false, [], ◌==◌, ==_ne, ℕ_discrete, dec_lt,
}
use s3_bme.Base.Result.{Ensures, bind-Ensures, weaken}
use s3_bme.LogRecord.{is_empty}
use s3_bme.Flash.{Flash, IsNor, sectors}
use s3_bme.Flash.Slots.{slot, IsFree}
use s3_bme.LogStore.{
  Store, Found, total_slots, slots_per_sector, read_slot, scan_head, scan_sectors, recover, init,
}
use s3_bme.LogStore.Layout.{behind, Occupies}
use s3_bme.LogStore.Prims.{mem, read_slot-Ensures}
use s3_bme.LogStore.Scan.{count_all, flags, count_true, scan_sectors-Ensures}
use s3_bme.LogStore.Image.{
  first, array, not_full_of_data, empty_of_all, start, find_start_log, find_end_log, rank,
  head_sector_slot,
}

module _ (F : Flash) {Fails : Type 0} (N : IsNor F Fails) (f : ℕ → ℕ) (head tail : ℕ) (size : ℕ)
    (rep : Occupies f head tail size) (some_data : 0 < size) where
  -- The scan of the head sector, begun at its slot `m`, stops at the head.
  scan_head-Ensures :
      (left m : ℕ) (s : Store F.Dev)
      → m + left ≡ slots_per_sector
      → rank f head tail size rep some_data m ≤ size
      → mem F N s ≡ f
      → s.head ≡ start f head tail size rep some_data * slots_per_sector % total_slots
      → Ensures
          (λ u t. (mem F N t ≡ f) × (t.tail ≡ s.tail) × (t.head ≡ head))
          (λ c t. Fails)
          (scan_head F left
            ((start f head tail size rep some_data + sectors - 1) % sectors * slots_per_sector + m)
            s)
  unfolding scan_head
  scan_head-Ensures zero m s e low same at =
      (same, refl, omega (arith, rep.head_at, rep.tail_in, rep.aligned))
  scan_head-Ensures (suc left) m s e low same at =
      bind-Ensures _ _ _ (read_slot F at_slot) _ s
        (weaken _ _ _ _ (read_slot F at_slot) s (read_slot-Ensures F N at_slot s (omega arith))
          (λ buf t p. p) (λ c t (fails, _). fails))
        (λ buf t (b, kept). elim (dec_lt (rank f head tail size rep some_data m) (size)) [
          | yes inside ↦
              rw (b, taken inside, next)
                (weaken _ _ _ _ (scan_head F left (base + (m + 1))) t
                  (scan_head-Ensures left (m + 1) t (omega arith) (omega arith)
                    (kept.same_mem ∙ same) (kept.same_head ∙ at))
                  (λ _ t' (same', tails, heads). (same', tails ∙ kept.same_tail, heads))
                  (λ c t' fails. fails))
          | no here ↦ rw (b, vacant here) (kept.same_mem ∙ same, kept.same_tail, found here)
        ])
    where
      base : ℕ
      base = (start f head tail size rep some_data + sectors - 1) % sectors * slots_per_sector

      at_slot : ℕ
      at_slot = base + m

      next : at_slot + 1 ≡ base + (m + 1)
      next = omega arith

      place : at_slot ≡ behind tail (rank f head tail size rep some_data m)
      place = head_sector_slot f head tail size rep some_data m (omega arith)

      taken :
          rank f head tail size rep some_data m < size → is_empty (slot (mem F N s) at_slot) ≡ false
      taken inside = rw (same, place) (rep.taken _ inside (inr (omega arith)))

      at_end :
          ¬ (rank f head tail size rep some_data m < size)
          → rank f head tail size rep some_data m ≡ size
      at_end here = omega arith

      vacant :
          ¬ (rank f head tail size rep some_data m < size)
          → is_empty (slot (mem F N s) at_slot) ≡ true
      vacant here =
          rw (same, place, at_end here)
            (rep.free size (omega arith) (omega (arith, rep.fits)) (inr refl))

      found : ¬ (rank f head tail size rep some_data m < size) → at_slot ≡ head
      found here = rw (place, at_end here) (sym rep.head_at)

  recover-Ensures :
      (s : Store F.Dev)
      → mem F N s ≡ f
      → Ensures
          (λ u t. (mem F N t ≡ f) × (t.head ≡ head) × (t.tail ≡ tail))
          (λ c t. Fails)
          (recover F (array f head tail size rep) s)
  unfolding recover
  recover-Ensures s same =
      rw
        (find_start_log f head tail size rep some_data, find_end_log f head tail size rep some_data)
        (weaken _ _ _ _ (scan_head F slots_per_sector base) s'
          (rw base_zero at (scan_head-Ensures slots_per_sector 0 s' refl (omega arith) same refl))
          (λ u t (same', tails, heads). (same', heads, tails ∙ tail_back)) (λ c t fails. fails))
    where
      base : ℕ
      base = (start f head tail size rep some_data + sectors - 1) % sectors * slots_per_sector

      base_zero : base + 0 ≡ base
      base_zero = omega arith

      s' : Store F.Dev
      s' = record s {
        head = start f head tail size rep some_data * slots_per_sector % total_slots;
        tail =
            ((first f head tail size rep + sectors - 1) % sectors + 1) % sectors * slots_per_sector;
      }

      tail_back : s'.tail ≡ tail
      tail_back = omega (arith, rep.tail_in, rep.aligned)

-- If none is in use, the first slot of each sector is erased.
first-IsFree :
    (f : ℕ → ℕ) (head tail size : ℕ)
    → Occupies f head tail size
    → size ≡ 0
    → (i : ℕ) → i < total_slots
    → i % slots_per_sector ≡ 0
    → IsFree f i
first-IsFree f head tail size rep e i h a =
    let k : ℕ = (i + total_slots - tail) % total_slots in
    let there : i ≡ behind tail k = omega (arith, rep.tail_in) in
    rw there
      (rep.free k (omega arith) (omega arith) (inl (omega (arith, rep.aligned, rep.tail_in))))

module _ (F : Flash) {Fails : Type 0} (N : IsNor F Fails) where
  -- After a start: the flash is as it was, and the positions are those of the slots in use, or 0
  -- if none is.
  pub record Restored (s : Store F.Dev) (head tail size : ℕ) (t : Store F.Dev) : Type 0 where
    pub same_mem : mem F N t ≡ mem F N s
    pub positions : ((t.head ≡ head) × (t.tail ≡ tail)) ⊎ ((size ≡ 0) × (t.head ≡ 0) × (t.tail ≡ 0))

  -- `log_store_init` finds the slots in use, whatever they hold and whatever the positions were.
  pub init-Restored :
      (s : Store F.Dev) (head tail size : ℕ)
      → Occupies (mem F N s) head tail size
      → Ensures (λ u t. Restored s head tail size t) (λ c t. Fails) (init F s)
  unfolding init
  init-Restored s head tail size rep =
      bind-Ensures _ _ _ (scan_sectors F sectors 0 (record { erased = []; n_erased = 0 })) _
        (record s { head = 0; tail = 0 })
        (weaken _ _ _ _ (scan_sectors F sectors 0 (record { erased = []; n_erased = 0 }))
          (record s { head = 0; tail = 0 })
          (scan_sectors-Ensures F N sectors 0 (record { erased = []; n_erased = 0 })
            (record s { head = 0; tail = 0 }) (omega arith))
          (λ r t p. p) (λ c t (fails, _). fails))
        (λ found t (same, erased, n).
          elim (ℕ_discrete (count_true (flags (mem F N s) 0 sectors)) sectors) [
            | yes all ↦ rw (is_all found n all) (record {
              same_mem = same.same_mem;
              positions =
                  inr (
                    empty_of_all (mem F N s) head tail size rep all,
                    same.same_head,
                    same.same_tail,
                  );
            })
            | no not_all ↦
                rw (is_not_all found n not_all, is_not_none found n, erased)
                  (weaken _ _ _ _ (recover F (array (mem F N s) head tail size rep)) t
                    (recover-Ensures F N (mem F N s) head tail size rep (has_data not_all) t
                      same.same_mem)
                    (λ u t' (same', heads, tails). record {
                      same_mem = same';
                      positions = inl (heads, tails);
                    })
                    (λ c t' fails. fails))
          ])
    where
      total :
          (found : Found)
          → found.n_erased ≡ 0 + count_true (flags (mem F N s) 0 sectors)
          → found.n_erased ≡ count_true (flags (mem F N s) 0 sectors)
      total found n = omega (arith, n)

      is_all :
          (found : Found)
          → found.n_erased ≡ 0 + count_true (flags (mem F N s) 0 sectors)
          → count_true (flags (mem F N s) 0 sectors) ≡ sectors
          → (found.n_erased == sectors) ≡ true
      is_all found n all = rw (total found n, all)

      is_not_all :
          (found : Found)
          → found.n_erased ≡ 0 + count_true (flags (mem F N s) 0 sectors)
          → count_true (flags (mem F N s) 0 sectors) ≢ sectors
          → (found.n_erased == sectors) ≡ false
      is_not_all found n ne = rw (total found n) (==_ne _ sectors ne)

      is_not_none :
          (found : Found)
          → found.n_erased ≡ 0 + count_true (flags (mem F N s) 0 sectors)
          → (found.n_erased == 0) ≡ false
      is_not_none found n =
          rw (total found n) (==_ne _ 0 (not_full_of_data (mem F N s) head tail size rep))

      has_data : count_true (flags (mem F N s) 0 sectors) ≢ sectors → 0 < size
      has_data ne = elim (ℕ_discrete size 0) [
        | yes e ↦ absurd (
            ne (
              count_all (mem F N s) sectors 0 (λ i p q.
                first-IsFree (mem F N s) head tail size rep e (i * slots_per_sector) (omega arith)
                  (omega arith))))
        | no some_data ↦ omega arith
      ]

  -- The store after a start has the same number of slots in use.
  pub Restored-Occupies :
      (s t : Store F.Dev) (head tail size : ℕ)
      → Occupies (mem F N s) head tail size
      → Restored s head tail size t
      → Occupies (mem F N t) t.head t.tail size
  Restored-Occupies s t head tail size rep r = elim r.positions [
    | inl (heads, tails) ↦ rw (r.same_mem, heads, tails) rep
    | inr (none, heads, tails) ↦
        rw (r.same_mem, heads, tails)
          (record {
            tail_in = omega arith;
            aligned = refl;
            head_at = omega arith;
            fits = rep.fits;
            taken = λ k h seen. absurd (omega arith);
            free = λ k p q seen.
                first-IsFree (mem F N s) head tail size rep none (behind 0 k) (omega arith)
                  (elim seen [ inl a ↦ omega arith | inr a ↦ omega arith ]);
          })
  ]
