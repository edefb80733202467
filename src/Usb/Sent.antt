-- ===== src/Usb/Sent.antt =====
-- What `usb_write` sends, on a driver that takes bytes in order.
use s3_bme.Base.{
  ℕ, zero, suc, ◌≤◌, ◌≡◌, ◌≢◌, inl, inr, refl, sym, ◌∙◌, ap, arith, false, Bool-cases, ◌==◌, ==_ne,
  concat, List, [], ◌∷◌, ◌++◌, length, length-drop, take, drop,
}
use mathlib.Core.List.{append-nil, append_assoc}
use s3_bme.Usb.{Usb, write_loop, usb_write, usb_write_all}

-- The driver takes the first bytes that it is handed; `sent d` is all that it has taken.
pub record TakesInOrder (U : Usb) (sent : U.Dev → List ℕ) : Type 0 where
  pub sent_lem :
      (bytes : List ℕ) (d : U.Dev)
      → sent (U.write_bytes bytes d).1 ≡ sent d ++ take (U.write_bytes bytes d).0 bytes

-- It takes one byte at least whenever there is one, as it does while a host reads.
abbrev pub IsRead : Usb → Type 0
IsRead U = (c : ℕ) (bytes : List ℕ) (d : U.Dev) → (U.write_bytes (c ∷ bytes) d).0 ≢ 0

take-drop : {A : Type 0} (n : ℕ) (xs : List A) → take n xs ++ drop n xs ≡ xs
take-drop zero xs = refl
take-drop (suc n) [] = refl
take-drop (suc n) (x ∷ xs) = ap (λ ys. x ∷ ys) (take-drop n xs)

module _ (U : Usb) (sent : U.Dev → List ℕ) (T : TakesInOrder U sent) where
  -- What was taken and what is left make up the data, and something is left only if there is no fuel
  -- or the driver took nothing.
  pub write_loop-Sent :
      (fuel : ℕ) (bytes : List ℕ) (d : U.Dev)
      → (taken : List ℕ) × (sent (write_loop U fuel bytes d).1 ≡ sent d ++ taken)
        × (taken ++ (write_loop U fuel bytes d).0 ≡ bytes)
  unfolding write_loop
  write_loop-Sent fuel [] d = ([], sym (append-nil (sent d)), refl)
  write_loop-Sent zero (c ∷ bytes) d = ([], sym (append-nil (sent d)), refl)
  write_loop-Sent (suc fuel) (c ∷ bytes) d =
      let n = (U.write_bytes (c ∷ bytes) d).0 in
      let d' = (U.write_bytes (c ∷ bytes) d).1 in
      elim (Bool-cases (n == 0)) [
        | inl none ↦
            let zero_taken : n ≡ 0 = ground arith in
            (take n (c ∷ bytes), rw none (T.sent_lem (c ∷ bytes) d), rw (none, zero_taken) refl)
        | inr some ↦
            let (taken, e, whole) = write_loop-Sent fuel (drop n (c ∷ bytes)) d' in
            (
              take n (c ∷ bytes) ++ taken,
              rw some (
                  e
                  ∙ (ap (λ s. s ++ taken) (T.sent_lem (c ∷ bytes) d)
                      ∙ append_assoc (sent d) (take n (c ∷ bytes)) taken)),
              rw some (
                  append_assoc (take n (c ∷ bytes)) taken _
                  ∙ (ap (λ s. take n (c ∷ bytes) ++ s) whole ∙ take-drop n (c ∷ bytes))),
            )
      ]

  module _ (reads : IsRead U) where
    -- While a host reads, nothing is left.
    write_loop-all :
        (fuel : ℕ) (bytes : List ℕ) (d : U.Dev)
        → length bytes ≤ fuel
        → (write_loop U fuel bytes d).0 ≡ []
    unfolding write_loop
    write_loop-all fuel [] d h = refl
    write_loop-all zero (c ∷ bytes) d h = absurd (omega arith)
    write_loop-all (suc fuel) (c ∷ bytes) d h =
        let n = (U.write_bytes (c ∷ bytes) d).0 in
        let some : (n == 0) ≡ false = ==_ne n 0 (reads c bytes d) in
        rw some (
          write_loop-all fuel (drop n (c ∷ bytes)) (U.write_bytes (c ∷ bytes) d).1
            (omega (arith, length-drop n (c ∷ bytes), h, reads c bytes d)))

    usb_write-sent : (bytes : List ℕ) (d : U.Dev) → sent (usb_write U bytes d) ≡ sent d ++ bytes
    unfolding usb_write
    usb_write-sent bytes d =
        let (taken, e, whole) = write_loop-Sent (length bytes) bytes d in
        let all : taken ≡ bytes =
          sym (append-nil taken)
          ∙ (ap (λ s. taken ++ s) (sym (write_loop-all (length bytes) bytes d (omega arith)))
              ∙ whole) in
        e ∙ ap (λ s. sent d ++ s) all

    -- While a host reads, so that the driver takes a byte at least whenever there is one, the texts of
    -- a reply are sent whole and in their order, however few bytes the driver takes at a time.
    pub usb_write_all-sent :
        (texts : List (List ℕ)) (d : U.Dev)
        → sent (usb_write_all U texts d) ≡ sent d ++ concat texts
    unfolding usb_write_all
    usb_write_all-sent [] d = sym (append-nil (sent d))
    usb_write_all-sent (text ∷ texts) d =
        usb_write_all-sent texts (usb_write U text d)
        ∙ (ap (λ s. s ++ concat texts) (usb_write-sent text d)
            ∙ append_assoc (sent d) text (concat texts))
