-- ===== src/LogStore/ReadLog.antt =====
-- The records that the slots in use hold, where the first of them hold those of a list.
use s3_bme.Base.{
  ℕ, zero, suc, ◌+◌, ◌-◌, ◌≤◌, ◌≡◌, refl, sym, ◌∙◌, ap, arith, some, List, [], ◌∷◌, ◌++◌, length,
  get_elem?, take, drop, drop-at, drop_all, get_elem?-some, take_all, take-append_left,
  drop-append_left, take-min, length-drop, length-append, dec_lt, min,
}
use mathlib.Core.List.{append-nil, append_assoc}
use s3_bme.LogRecord.{LogRecord}
use s3_bme.Flash.Slots.{slot}
use s3_bme.LogStore.Layout.{behind}
use s3_bme.LogStore.ReadSlots.{decoded, record_in}

-- `m` slots, and `n` more.
pub decoded-add :
    (f : ℕ → ℕ) (tail k m n : ℕ)
    → decoded f tail k (m + n) ≡ decoded f tail k m ++ decoded f tail (k + m) n
unfolding decoded
decoded-add f tail k zero n = let (e, g) : (0 + n ≡ n) × (k + 0 ≡ k) = omega arith in rw (e, g)
decoded-add f tail k (suc m) n =
    let (e, g) : (suc m + n ≡ suc (m + n)) × (k + suc m ≡ k + 1 + m) = omega arith in
    rw (e, g, decoded-add f tail (k + 1) m n)
      (sym (
        append_assoc (record_in (slot f (behind tail k))) (decoded f tail (k + 1) m)
          (decoded f tail (k + 1 + m) n)))

module _ (f : ℕ → ℕ) (tail : ℕ) (log : List LogRecord)
    (live : (k : ℕ) (r : LogRecord)
      → get_elem? log k ≡ some r
      → record_in (slot f (behind tail k)) ≡ r ∷ []) where
  pub decoded-take : (k n : ℕ) → k + n ≤ length log → decoded f tail k n ≡ take n (drop k log)
  unfolding decoded
  decoded-take k zero h = refl
  decoded-take k (suc n) h =
      let (r, e) = get_elem?-some log k (omega arith) in
      let next : k + 1 ≡ suc k = omega arith in
      rw (live k r e, drop-at log k r e, next)
        (ap (λ rs. r ∷ rs) (decoded-take (suc k) n (omega arith)))

  -- All slots in use hold a record of the list.
  pub decoded-log :
      (offset max : ℕ)
      → decoded f tail offset (min max (length log - offset)) ≡ take max (drop offset log)
  unfolding decoded
  decoded-log offset max = elim (dec_lt offset (length log)) [
    | yes inside ↦
        decoded-take offset (min max (length log - offset)) (omega arith)
        ∙ (ap (λ m. take m (drop offset log)) (ap (min max) (sym (length-drop offset log)))
            ∙ take-min max (drop offset log))
    | no past ↦
        let empty : min max (length log - offset) ≡ 0 = omega arith in
        rw (empty, drop_all log offset (omega arith)) (sym (take_all max [] (omega arith)))
  ]

  -- One slot more is in use, which may hold a record.
  pub decoded-log_last :
      (offset max : ℕ) (last : List LogRecord)
      → last ≡ record_in (slot f (behind tail (length log)))
      → length last ≤ 1
      → decoded f tail offset (min max (length log + 1 - offset))
        ≡ take max (drop offset (log ++ last))
  unfolding decoded
  decoded-log_last offset max last e one = elim (dec_lt (length log) (offset + max)) [
    | no short ↦
        let (whole, inside) : (min max (length log + 1 - offset) ≡ max) × (offset ≤ length log) =
          omega arith in
        rw (whole, drop-append_left offset log last inside)
          (decoded-take offset max (omega arith)
            ∙ sym (
                take-append_left max (drop offset log) last
                  (omega (arith, length-drop offset log))))
    | yes long ↦ elim (dec_lt (length log) offset) [
      | yes past ↦
          let empty : min max (length log + 1 - offset) ≡ 0 = omega arith in
          rw (empty, drop_all (log ++ last) offset (omega (arith, length-append log last)))
            (sym (take_all max [] (omega arith)))
      | no inside ↦
          let count : min max (length log + 1 - offset) ≡ length log - offset + 1 = omega arith in
          let there : offset + (length log - offset) ≡ length log = omega arith in
          rw
            (
              count,
              drop-append_left offset log last (omega arith),
              decoded-add f tail offset (length log - offset) 1,
              decoded-take offset (length log - offset) (omega arith),
              there,
              ← e,
              take_all (length log - offset) (drop offset log)
                  (omega (arith, length-drop offset log)),
              append-nil last,
            )
            (sym (
              take_all max (drop offset log ++ last)
                (omega (arith, length-drop offset log, length-append (drop offset log) last))))
    ]
  ]
