-- ===== src/LogStore/Search.antt =====
-- The searches of `log_store_init` in its array of erased sectors.
use s3_bme.Base.{
  ℕ, zero, suc, ◌+◌, ◌-◌, ◌%◌, ◌≤◌, ◌<◌, ◌≡◌, ◌≢◌, arith, Bool, true, false, not, ◌&&◌, List,
  get_or, ℕ_discrete, dec_lt,
}
use s3_bme.Base.Result.{ok}
use s3_bme.Flash.{sectors}
use s3_bme.LogStore.{find_start, find_end}

-- Sector `i` is erased and the one before it is not.
abbrev pub starts_run : List Bool → ℕ → Bool
starts_run erased i =
    get_or erased i false && not (get_or erased ((i + sectors - 1) % sectors) false)

pub find_start_first :
    (erased : List Bool) (left i p : ℕ)
    → i ≤ p
    → p < i + left
    → starts_run erased p ≡ true
    → ((j : ℕ) → j < p → starts_run erased j ≡ false)
    → find_start erased left i ≡ p
unfolding find_start
find_start_first erased zero i p lo hi at before = absurd (omega arith)
find_start_first erased (suc left) i p lo hi at before = elim (ℕ_discrete i p) [
  | yes here ↦ rw (here, at)
  | no not_yet ↦
      rw (before i (omega arith))
        (find_start_first erased left (i + 1) p (omega arith) (omega arith) at before)
]

-- The array of a log whose `used` sectors lie from sector `first` on.
module _ (erased : List Bool) (first used : ℕ) (first_in : first < sectors) (some_used : 1 ≤ used)
    (some_free : used < sectors)
    (data_at : (i : ℕ)
      → i < sectors
      → (i + sectors - first) % sectors < used
      → get_or erased i false ≡ false)
    (free_at : (i : ℕ)
      → i < sectors
      → used ≤ (i + sectors - first) % sectors
      → get_or erased i false ≡ true) where
  abbrev pub run_start : ℕ
  run_start = (first + used) % sectors

  starts_nowhere_else : (j : ℕ) → j < sectors → j ≢ run_start → starts_run erased j ≡ false
  starts_nowhere_else j h ne = elim (dec_lt ((j + sectors - first) % sectors) used) [
    | yes used_j ↦ rw (data_at j h used_j)
    | no free_j ↦ rw (
      free_at j h (omega arith),
      free_at ((j + sectors - 1) % sectors) (omega arith) (omega arith),
    )
  ]

  -- The run of erased sectors begins behind the last sector used.
  pub find_start_lem : find_start erased sectors 0 ≡ run_start
  find_start_lem =
      find_start_first erased sectors 0 run_start (omega arith) (omega arith) at
        (λ j h. starts_nowhere_else j (omega arith) (omega arith))
    where
      at : starts_run erased run_start ≡ true
      at = rw (
        free_at run_start (omega arith) (omega arith),
        data_at ((run_start + sectors - 1) % sectors) (omega arith) (omega arith),
      )

  -- The run ends in front of the first sector used.
  pub find_end_lem :
      (fuel e : ℕ)
      → e < sectors
      → used ≤ (e + sectors - first) % sectors
      → sectors ≤ fuel + (e + sectors - first) % sectors
      → find_end erased fuel e ≡ ok ((first + sectors - 1) % sectors)
  unfolding find_end
  find_end_lem zero e h u f = absurd (omega arith)
  find_end_lem (suc fuel) e h u f = elim (ℕ_discrete ((e + sectors - first) % sectors) 127) [
    | yes last ↦
        let here : e ≡ (first + sectors - 1) % sectors = omega arith in
        rw (data_at ((e + 1) % sectors) (omega arith) (omega arith)) (rw here)
    | no more ↦
        rw (free_at ((e + 1) % sectors) (omega arith) (omega arith))
          (find_end_lem fuel ((e + 1) % sectors) (omega arith) (omega arith) (omega arith))
  ]
