-- ===== src/Protocol/Rows.antt =====
-- The rows of `get_log`, and the chunks that the records are read in.
use mathlib.Core.List.{append-nil, append_assoc}
use s3_bme.Base.{
  ℕ, zero, suc, ◌+◌, ◌-◌, ◌*◌, ◌≤◌, ◌≡◌, inl, inr, refl, ◌∙◌, ap, arith, ltb, if◌then◌else◌, Bool,
  Bool-cases, false, some, List, [], ◌∷◌, ◌++◌, length, get_elem?, take, drop,
}
use s3_bme.Base.Length.{take-append-drop}
use s3_bme.LogRecord.{LogRecord, IsRecord}
use s3_bme.Protocol.{Conn, row, emit_records, still_first, read_chunk}
use s3_bme.Protocol.Texts.{row-length, emit-eq}

-- Every record of a list has its values in range.
abbrev pub AllRecords : List LogRecord → Type 0
AllRecords [] = Unit {0}
AllRecords (r ∷ rs) = IsRecord r × AllRecords rs

pub records_of :
    (rs : List LogRecord)
    → ((k : ℕ) (r : LogRecord) → get_elem? rs k ≡ some r → IsRecord r)
    → AllRecords rs
records_of [] h = tt
records_of (r ∷ rs) h = (h 0 r refl, records_of rs (λ k s e. h (suc k) s e))

pub take-AllRecords : (n : ℕ) (rs : List LogRecord) → AllRecords rs → AllRecords (take n rs)
take-AllRecords zero rs h = tt
take-AllRecords (suc n) [] h = tt
take-AllRecords (suc n) (r ∷ rs) (hr, h) = (hr, take-AllRecords n rs h)

-- The rows of some records, with commas between them.
unfoldable pub rows : Bool → List LogRecord → List (List ℕ)
rows first [] = []
rows first (r ∷ rs) = row first r ∷ rows false rs

pub rows-append :
    (first : Bool) (xs ys : List LogRecord)
    → rows first (xs ++ ys) ≡ rows first xs ++ rows (still_first first xs) ys
unfolding rows
rows-append first [] ys = refl
rows-append first (x ∷ xs) ys = ap (λ t. row first x ∷ t) (rows-append false xs ys ∙ still xs)
  where
    still :
        (zs : List LogRecord)
        → rows false zs ++ rows (still_first false zs) ys ≡ rows false zs ++ rows false ys
    still [] = refl
    still (z ∷ zs) = refl

pub emit_records-eq :
    {Ctx : Type 0} (first : Bool) (rs : List LogRecord) (c : Conn Ctx)
    → AllRecords rs
    → emit_records first rs c ≡ record c { out = c.out ++ rows first rs }
unfolding emit_records rows
emit_records-eq first [] c h = rw append-nil
emit_records-eq first (r ∷ rs) c (hr, h) =
    rw (emit-eq (row first r) c (omega (arith, row-length first r hr))) (
      emit_records-eq false rs (record c { out = c.out ++ (row first r ∷ []) }) h ∙ rw append_assoc)

-- The size of the next chunk.
abbrev pub chunk : ℕ → ℕ
chunk most = if ltb most read_chunk then most else read_chunk

-- A chunk, and records behind it, if the chunk is a whole one.
pub chunk-take :
    (most n : ℕ) (rs : List LogRecord)
    → n ≤ most - read_chunk
    → take (chunk most) rs ++ take n (drop read_chunk rs) ≡ take (chunk most + n) rs
chunk-take most n rs h = elim (Bool-cases (ltb most read_chunk)) [
  | inl last ↦
      let none_left : n ≡ 0 = ground arith in
      let same : most + 0 ≡ most = omega arith in
      rw (last, none_left, same) (append-nil (take most rs))
  | inr whole ↦ rw whole (take-append-drop read_chunk n rs)
]

-- The number of characters in some texts.
abbrev pub size : List (List ℕ) → ℕ
size [] = 0
size (s ∷ ss) = length s + size ss

pub size-append : (ss ts : List (List ℕ)) → size (ss ++ ts) ≡ size ss + size ts
size-append [] ts = omega arith
size-append (s ∷ ss) ts = omega (arith, size-append ss ts)

pub size-rows :
    (first : Bool) (rs : List LogRecord) → AllRecords rs → size (rows first rs) ≤ 45 * length rs
unfolding rows
size-rows first [] h = omega arith
size-rows first (r ∷ rs) (hr, h) = omega (arith, row-length first r hr, size-rows false rs h)
