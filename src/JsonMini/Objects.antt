-- ===== src/JsonMini/Objects.antt =====
-- The flat JSON objects that the reader of firmware/main/json-mini.c is for: what they hold, and how
-- they are written. Every text is given with what follows it.
use s3_bme.Base.{
  ℕ, ◌≡◌, ◌≢◌, ltb, ◌==◌, ◌||◌, ◌^◌, if◌then◌else◌, true, Option, none, some, List, [], ◌∷◌, ◌++◌,
  length, all, is_digit, read_dec, text_eq,
}

pub data Value : Type 0 where
  text : List ℕ → Value
  number : List ℕ → Value

abbrev pub Field : Type 0
Field = List ℕ × Value

-- A text between quotes, with `\` in front of each quote and each `\`.
unfoldable pub escaped : List ℕ → List ℕ → List ℕ
escaped [] rest = rest
escaped (c ∷ s) rest =
    if c == b'"' || c == b'\\' then b'\\' ∷ c ∷ escaped s rest else c ∷ escaped s rest

unfoldable pub value_text : Value → List ℕ → List ℕ
unfolding escaped
value_text (text v) rest = b'"' ∷ escaped v (b'"' ∷ rest)
value_text (number ds) rest = ds ++ rest

unfoldable pub field_text : Field → List ℕ → List ℕ
unfolding value_text
field_text (key, v) rest = b'"' ∷ (key ++ (b'"' ∷ b':' ∷ value_text v rest))

-- The fields behind the first one.
unfoldable pub more_text : List Field → List ℕ
unfolding field_text
more_text [] = b'}' ∷ []
more_text (f ∷ fs) = b',' ∷ field_text f (more_text fs)

unfoldable pub object_text : List Field → List ℕ
unfolding field_text more_text
object_text [] = b'{' ∷ b'}' ∷ []
object_text (f ∷ fs) = b'{' ∷ field_text f (more_text fs)

-- A key has none of the characters that the notation uses.
abbrev pub IsKeyChar : ℕ → Type 0
IsKeyChar c = (c ≢ b'"') × (c ≢ b'\\') × (c ≢ b':') × (c ≢ b',') × (c ≢ b'}')

abbrev pub All : (ℕ → Type 0) → List ℕ → Type 0
All P [] = Unit {0}
All P (c ∷ s) = P c × All P s

abbrev pub IsKey : List ℕ → Type 0
IsKey [] = ⊥
IsKey (c ∷ s) = All IsKeyChar (c ∷ s)

abbrev pub IsValue : Value → Type 0
IsValue (text v) = Unit {0}
IsValue (number []) = ⊥
IsValue (number (d ∷ ds)) = all is_digit (d ∷ ds) ≡ true

abbrev pub IsObject : List Field → Type 0
IsObject [] = Unit {0}
IsObject ((key, v) ∷ fs) = IsKey key × IsValue v × IsObject fs

-- The first value of a key.
unfoldable pub lookup : List ℕ → List Field → Option Value
unfolding text_eq
lookup key [] = none
lookup key ((k, v) ∷ fs) = if text_eq k key then some v else lookup key fs

-- What each accessor is to return for the value of a key.
unfoldable pub text_of : ℕ → Option Value → Option (List ℕ)
text_of out_len none = none
text_of out_len (some (number ds)) = none
text_of out_len (some (text v)) = if ltb (length v) out_len then some v else none

unfoldable pub uint_of : Option Value → Option ℕ
unfolding read_dec
uint_of none = none
uint_of (some (text v)) = none
uint_of (some (number ds)) = if ltb (read_dec ds 0) (2 ^ 32) then some (read_dec ds 0) else none
