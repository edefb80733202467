-- ===== src/LogStore/Scan.antt =====
-- The loops of `log_store_init` over the flash.
use s3_bme.Base.{
  ℕ, zero, suc, ◌+◌, ◌*◌, ◌≤◌, ◌<◌, ◌≡◌, ◌≢◌, refl, ◌∙◌, ap, sym, arith, Bool, true, false, List,
  [], ◌∷◌, ◌++◌, get_or, if◌then◌else◌,
}
use mathlib.Core.List.{append-nil, append_assoc}
use s3_bme.Base.Result.{Ensures, bind-Ensures, weaken}
use s3_bme.LogRecord.{is_empty}
use s3_bme.Flash.{Flash, IsNor, sectors}
use s3_bme.Flash.Slots.{slot}
use s3_bme.LogStore.{Store, Found, slots_per_sector, sector_is_erased, scan_sectors}
use s3_bme.LogStore.Prims.{mem, Same, Same-refl, Same-trans, sector_is_erased-Ensures}

-- The first slot of sector `i` reads as erased.
abbrev pub blank_at : (ℕ → ℕ) → ℕ → Bool
blank_at f i = is_empty (slot f (i * slots_per_sector))

pub flags : (ℕ → ℕ) → ℕ → ℕ → List Bool
flags f i zero = []
flags f i (suc n) = blank_at f i ∷ flags f (i + 1) n

pub count_true : List Bool → ℕ
count_true [] = 0
count_true (b ∷ bs) = if b then count_true bs + 1 else count_true bs

pub get_or-flags :
    (f : ℕ → ℕ) (n j i : ℕ) → i < n → get_or (flags f j n) i false ≡ blank_at f (j + i)
unfolding flags count_true
get_or-flags f zero j i h = absurd (omega arith)
get_or-flags f (suc n) j zero h = ap (blank_at f) (omega arith)
get_or-flags f (suc n) j (suc i) h =
    get_or-flags f n (j + 1) i (omega arith) ∙ ap (blank_at f) (omega arith)

pub count_true-le : (f : ℕ → ℕ) (n j : ℕ) → count_true (flags f j n) ≤ n
unfolding flags count_true
count_true-le f zero j = omega arith
count_true-le f (suc n) j = ground (arith, count_true-le f n (j + 1))

all_first :
    (f : ℕ → ℕ) (n j : ℕ)
    → count_true (flags f j (suc n)) ≡ suc n
    → (blank_at f j ≡ true) × (count_true (flags f (j + 1) n) ≡ n)
unfolding flags count_true
all_first f n j e = ground (arith, count_true-le f n (j + 1))

none_first :
    (f : ℕ → ℕ) (n j : ℕ)
    → count_true (flags f j (suc n)) ≡ 0
    → (blank_at f j ≡ false) × (count_true (flags f (j + 1) n) ≡ 0)
unfolding flags count_true
none_first f n j e = ground arith

-- All flags are set if the count is the length; none is, if it is 0.
pub all_flags :
    (f : ℕ → ℕ) (n j i : ℕ) → count_true (flags f j n) ≡ n → i < n → blank_at f (j + i) ≡ true
all_flags f zero j i e h = absurd (omega arith)
all_flags f (suc n) j zero e h = let here : j + 0 ≡ j = omega arith in rw here (all_first f n j e).0
all_flags f (suc n) j (suc i) e h =
    let there : j + suc i ≡ j + 1 + i = omega arith in
    rw there (all_flags f n (j + 1) i (all_first f n j e).1 (omega arith))

pub no_flags :
    (f : ℕ → ℕ) (n j i : ℕ) → count_true (flags f j n) ≡ 0 → i < n → blank_at f (j + i) ≡ false
no_flags f zero j i e h = absurd (omega arith)
no_flags f (suc n) j zero e h = let here : j + 0 ≡ j = omega arith in rw here (none_first f n j e).0
no_flags f (suc n) j (suc i) e h =
    let there : j + suc i ≡ j + 1 + i = omega arith in
    rw there (no_flags f n (j + 1) i (none_first f n j e).1 (omega arith))

pub count_all :
    (f : ℕ → ℕ) (n j : ℕ)
    → ((i : ℕ) → j ≤ i → i < j + n → blank_at f i ≡ true)
    → count_true (flags f j n) ≡ n
unfolding flags count_true
count_all f zero j h = refl
count_all f (suc n) j h =
    rw (h j (omega arith) (omega arith))
      (omega (arith, count_all f n (j + 1) (λ i p q. h i (omega arith) (omega arith))))

-- A number of flags other than all of them leaves one that is not set; one other than 0, one that is.
pub some_unset :
    (f : ℕ → ℕ) (n j : ℕ)
    → count_true (flags f j n) ≢ n
    → (i : ℕ) × (i < n) × (blank_at f (j + i) ≡ false)
unfolding flags count_true
some_unset f zero j ne = absurd (ne refl)
some_unset f (suc n) j ne = go (blank_at f j) refl (some_unset f n (j + 1))
  where
    go :
        (b : Bool)
        → blank_at f j ≡ b
        → (count_true (flags f (j + 1) n) ≢ n
            → (i : ℕ) × (i < n) × (blank_at f (j + 1 + i) ≡ false))
        → (i : ℕ) × (i < suc n) × (blank_at f (j + i) ≡ false)
    go false e rest = (0, omega arith, ap (blank_at f) (omega arith) ∙ e)
    go true e rest =
        let (i, h, p) = rest (λ all. ne (rw (e, all) (omega arith))) in
        (suc i, omega arith, ap (blank_at f) (omega arith) ∙ p)

pub some_set :
    (f : ℕ → ℕ) (n j : ℕ)
    → count_true (flags f j n) ≢ 0
    → (i : ℕ) × (i < n) × (blank_at f (j + i) ≡ true)
unfolding flags count_true
some_set f zero j ne = absurd (ne refl)
some_set f (suc n) j ne = go (blank_at f j) refl (some_set f n (j + 1))
  where
    go :
        (b : Bool)
        → blank_at f j ≡ b
        → (count_true (flags f (j + 1) n) ≢ 0 → (i : ℕ) × (i < n) × (blank_at f (j + 1 + i) ≡ true))
        → (i : ℕ) × (i < suc n) × (blank_at f (j + i) ≡ true)
    go true e rest = (0, omega arith, ap (blank_at f) (omega arith) ∙ e)
    go false e rest =
        let (i, h, p) = rest (λ none. ne (rw (e, none) refl)) in
        (suc i, omega arith, ap (blank_at f) (omega arith) ∙ p)

count_step : (b : Bool) (n c : ℕ) → (if b then n + 1 else n) + c ≡ n + (if b then c + 1 else c)
count_step true n c = omega arith
count_step false n c = omega arith

module _ (F : Flash) {Fails : Type 0} (N : IsNor F Fails) where
  pub scan_sectors-Ensures :
      (left i : ℕ) (found : Found) (s : Store F.Dev)
      → i + left ≤ sectors
      → Ensures
          (λ r t.
            Same F N s t
            × (r.erased ≡ found.erased ++ flags (mem F N s) i left)
            × (r.n_erased ≡ found.n_erased + count_true (flags (mem F N s) i left)))
          (λ c t. Fails × Same F N s t)
          (scan_sectors F left i found s)
  unfolding scan_sectors flags count_true
  scan_sectors-Ensures zero i found s h =
      (Same-refl F N s, sym (append-nil found.erased), omega arith)
  scan_sectors-Ensures (suc left) i found s h =
      bind-Ensures _ _ _ (sector_is_erased F i) _ s (sector_is_erased-Ensures F N i s (omega arith))
        (λ e t (q, same).
          weaken _ _ _ _ (scan_sectors F left (i + 1) _) t
            (scan_sectors-Ensures left (i + 1) _ t (omega arith))
            (λ r t' (same', flags', n'). (
              Same-trans F N same same',
              rw (same.same_mem, q) at flags'
                  ∙ append_assoc found.erased (blank_at (mem F N s) i ∷ [])
                      (flags (mem F N s) (i + 1) left),
              rw (same.same_mem, q) at n' ∙ count_step (blank_at (mem F N s) i) found.n_erased _,
            ))
            (λ c t' (f, same'). (f, Same-trans F N same same')))
