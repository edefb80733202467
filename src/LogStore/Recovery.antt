-- ===== src/LogStore/Recovery.antt =====
-- `log_store_init` on a flash that stands for a log.
use s3_bme.Base.{ℕ, ◌+◌, ◌-◌, ◌%◌, ◌≡◌, ◌<◌, inl, inr, refl, arith, List, [], ◌∷◌, length}
use s3_bme.Base.Result.{Ensures, weaken}
use s3_bme.LogRecord.{LogRecord}
use s3_bme.Flash.{Flash, IsNor}
use s3_bme.Flash.Slots.{IsFree}
use s3_bme.LogStore.{Store, total_slots, init}
use s3_bme.LogStore.Layout.{behind, Represents, Represents-Occupies}
use s3_bme.LogStore.Prims.{mem}
use s3_bme.LogStore.Prepare.{Holds}
use s3_bme.LogStore.Clear.{blank-Represents}
use s3_bme.LogStore.Restart.{Restored, init-Restored}

nil_of_length : (log : List LogRecord) → length log ≡ 0 → log ≡ []
nil_of_length [] e = refl
nil_of_length (r ∷ log) e = absurd (omega arith)

-- A flash without records stands for the empty log with both positions at 0 too.
pub rewound :
    (f : ℕ → ℕ) (head tail : ℕ) (log : List LogRecord)
    → Represents f head tail log
    → length log ≡ 0
    → Represents f 0 0 log
rewound f head tail log rep e =
    let free : (i : ℕ) → i < total_slots → IsFree f i = λ i h.
      let k : ℕ = (i + total_slots - tail) % total_slots in
      let there : i ≡ behind tail k = omega (arith, rep.tail_in) in
      rw there (rep.free k (omega arith) (omega arith)) in
    rw (nil_of_length log e) (blank-Represents f 0 (omega arith) refl free)

module _ (F : Flash) {Fails : Type 0} (N : IsNor F Fails) where
  pub Restored-Holds :
      (s t : Store F.Dev) (head tail : ℕ) (log : List LogRecord)
      → Represents (mem F N s) head tail log
      → Restored F N s head tail (length log) t
      → Holds F N t log
  Restored-Holds s t head tail log rep r = elim r.positions [
    | inl (heads, tails) ↦ rw (r.same_mem, heads, tails) rep
    | inr (none, heads, tails) ↦
        rw (r.same_mem, heads, tails) (rewound (mem F N s) head tail log rep none)
  ]

  -- `log_store_init` on a flash that stands for a log, whatever the positions held before, ends
  -- with head and tail such that the store stands for the same log; only a failing flash can
  -- make it return an error.
  pub init-recovers :
      (s : Store F.Dev) (head tail : ℕ) (log : List LogRecord)
      → Represents (mem F N s) head tail log
      → Ensures (λ u t. Holds F N t log) (λ c t. Fails) (init F s)
  init-recovers s head tail log rep =
      weaken _ _ _ _ (init F) s
        (init-Restored F N s head tail (length log) (Represents-Occupies log rep))
        (λ u t r. Restored-Holds s t head tail log rep r) (λ c t fails. fails)
