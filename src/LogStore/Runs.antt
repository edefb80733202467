-- ===== src/LogStore/Runs.antt =====
-- The searches of `log_store_init` in an array of erased sectors of which nothing is known.
use s3_bme.Base.{
  ℕ, zero, suc, ◌+◌, ◌-◌, ◌%◌, ◌≤◌, ◌<◌, ◌≡◌, ◌⊎◌, inl, inr, refl, sym, ◌∙◌, arith, Bool, true,
  false, not, ◌&&◌, if◌then◌else◌, List, get_or, ℕ_discrete,
}
use mathlib.Core.Bool.{false≢true}
use s3_bme.Base.Result.{ok}
use s3_bme.Flash.{sectors}
use s3_bme.LogStore.{find_start, find_end}
use s3_bme.LogStore.Search.{starts_run}

find_start-cases :
    (erased : List Bool) (left i : ℕ)
    → ((starts_run erased (find_start erased left i) ≡ true)
        × (find_start erased left i < i + left))
      ⊎ ((j : ℕ) → i ≤ j → j < i + left → starts_run erased j ≡ false)
unfolding find_start
find_start-cases erased zero i = inr (λ j lo hi. absurd (omega arith))
find_start-cases erased (suc left) i =
    go (starts_run erased i) refl (find_start-cases erased left (i + 1))
  where
    go :
        (b : Bool)
        → starts_run erased i ≡ b
        → (((starts_run erased (find_start erased left (i + 1)) ≡ true)
              × (find_start erased left (i + 1) < i + 1 + left))
            ⊎ ((j : ℕ) → i + 1 ≤ j → j < i + 1 + left → starts_run erased j ≡ false))
        → ((starts_run erased (if b then i else find_start erased left (i + 1)) ≡ true)
            × ((if b then i else find_start erased left (i + 1)) < i + suc left))
          ⊎ ((j : ℕ) → i ≤ j → j < i + suc left → starts_run erased j ≡ false)
    go true e _ = inl (e, omega arith)
    go false e rest = elim rest [
      | inl (found, inside) ↦ inl (found, omega arith)
      | inr none ↦ inr (λ j lo hi. elim (ℕ_discrete i j) [
        | yes here ↦ rw (← here) e
        | no later ↦ none j (omega arith) (omega arith)
      ])
    ]

-- Without a start, a sector that is erased makes those before it erased too, around the ring.
all_before :
    (erased : List Bool) (i d : ℕ)
    → ((j : ℕ) → 0 ≤ j → j < 0 + sectors → starts_run erased j ≡ false)
    → i < sectors
    → d < sectors
    → get_or erased i false ≡ true
    → get_or erased ((i + sectors - d) % sectors) false ≡ true
all_before erased i zero none h l set =
    let here : (i + sectors - 0) % sectors ≡ i = omega arith in rw here set
all_before erased i (suc d) none h l set =
    let k : ℕ = (i + sectors - d) % sectors in
    let next : (i + sectors - suc d) % sectors ≡ (k + sectors - 1) % sectors = omega arith in
    let later : get_or erased k false ≡ true = all_before erased i d none h (omega arith) set in
    let no_start : starts_run erased k ≡ false = none k (omega arith) (omega arith) in
    rw next (both (get_or erased k false) _ later no_start)
  where
    both : (a b : Bool) → a ≡ true → (a && not b) ≡ false → b ≡ true
    both true true e p = refl
    both true false e p = absurd (false≢true (sym p))
    both false b e p = absurd (false≢true e)

-- A sector that is erased and one that is not make a start.
pub find_start-starts :
    (erased : List Bool) (i j : ℕ)
    → i < sectors
    → j < sectors
    → get_or erased i false ≡ true
    → get_or erased j false ≡ false
    → (get_or erased (find_start erased sectors 0) false ≡ true)
      × (find_start erased sectors 0 < sectors)
find_start-starts erased i j hi hj set unset = elim (find_start-cases erased sectors 0) [
  | inl (found, inside) ↦
      (first (get_or erased (find_start erased sectors 0) false) _ found, omega arith)
  | inr none ↦
      let d : ℕ = (i + sectors - j) % sectors in
      let there : (i + sectors - d) % sectors ≡ j = omega arith in
      absurd
        (false≢true (sym unset ∙ rw there at (all_before erased i d none hi (omega arith) set)))
]
  where
    first : (a b : Bool) → (a && b) ≡ true → a ≡ true
    first true b p = refl
    first false b p = p

-- The run of erased sectors ends in front of one that is not.
pub find_end-ends :
    (erased : List Bool) (j fuel e : ℕ)
    → j < sectors
    → get_or erased j false ≡ false
    → e < sectors
    → (j + sectors - 1 - e) % sectors < fuel
    → (r : ℕ) × (find_end erased fuel e ≡ ok r)
      × (r < sectors)
      × (get_or erased ((r + 1) % sectors) false ≡ false)
unfolding find_end
find_end-ends erased j zero e hj unset he h = absurd (omega arith)
find_end-ends erased j (suc fuel) e hj unset he h =
    go (get_or erased ((e + 1) % sectors) false) refl
      (λ k l. find_end-ends erased j fuel ((e + 1) % sectors) hj unset k l)
  where
    go :
        (b : Bool)
        → get_or erased ((e + 1) % sectors) false ≡ b
        → ((e + 1) % sectors < sectors
            → (j + sectors - 1 - (e + 1) % sectors) % sectors < fuel
            → (r : ℕ) × (find_end erased fuel ((e + 1) % sectors) ≡ ok r)
              × (r < sectors)
              × (get_or erased ((r + 1) % sectors) false ≡ false))
        → (r : ℕ) × ((if b then find_end erased fuel ((e + 1) % sectors) else ok e) ≡ ok r)
          × (r < sectors)
          × (get_or erased ((r + 1) % sectors) false ≡ false)
    go false p _ = (e, refl, he, p)
    go true p rest = elim (ℕ_discrete j ((e + 1) % sectors)) [
      | yes here ↦ absurd (false≢true (sym unset ∙ rw (← here) at p))
      | no later ↦ rest (omega arith) (omega arith)
    ]
