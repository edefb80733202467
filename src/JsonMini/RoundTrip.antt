-- ===== src/JsonMini/RoundTrip.antt =====
-- The accessors of json-mini.c read back what a flat object holds.
use s3_bme.Base.{
  ℕ, suc, ◌+◌, ◌-◌, ◌*◌, ◌<◌, ◌≡◌, inl, inr, refl, ◌∙◌, arith, ltb, leb, ◌==◌, ◌||◌, if◌then◌else◌,
  Bool-cases, true, false, Option, none, some, List, [], ◌∷◌, ◌++◌, length, length-append, all,
  is_digit, read_dec, text_eq,
}
use s3_bme.Base.Maybe.{◌>>=◌, is_some}
use s3_bme.JsonMini.{
  find_value, read_string, string_at, uint_at, keep, get_string, get_uint, has_key,
}
use s3_bme.JsonMini.Objects.{
  Value, text, number, Field, escaped, value_text, more_text, object_text, IsKey, IsValue, IsObject,
  lookup, text_of, uint_of,
}
use s3_bme.JsonMini.Search.{EndsValue, more_text-EndsValue}
use s3_bme.JsonMini.Fields.{found_text, find_from-object_text}

read_string_plain :
    (out_len n c : ℕ) (s : List ℕ)
    → (c == b'"') ≡ false
    → (c == b'\\') ≡ false
    → read_string out_len n (c ∷ s) ≡ keep out_len n c (read_string out_len (n + 1) s)
unfolding read_string
read_string_plain out_len n c [] p q = ground arith
read_string_plain out_len n c (d ∷ s) p q = rw (p, q)

read_string_slash :
    (out_len n d : ℕ) (s : List ℕ)
    → (d == b'"' || d == b'\\') ≡ true
    → read_string out_len n (b'\\' ∷ d ∷ s) ≡ keep out_len n d (read_string out_len (n + 1) s)
unfolding read_string
read_string_slash out_len n d s h = rw h

-- A character is kept if the rest of the text fits behind it.
kept :
    (out_len n c : ℕ) (v : List ℕ) (rest : Option (List ℕ))
    → (n + 1 < out_len → rest ≡ (if ltb (n + 1 + length v) out_len then some v else none))
    → keep out_len n c rest ≡ (if ltb (n + suc (length v)) out_len then some (c ∷ v) else none)
kept out_len n c v rest h = elim (Bool-cases (leb out_len (n + 1))) [
  | inl full ↦ rw full (ground arith)
  | inr room ↦ rw (room, h (ground arith)) (ground arith)
]

-- The loop of `json_mini_get_string` undoes the escapes, if the text fits the buffer.
read_string-escaped :
    (out_len n : ℕ) (v rest : List ℕ)
    → n < out_len
    → read_string out_len n (escaped v (b'"' ∷ rest))
      ≡ (if ltb (n + length v) out_len then some v else none)
unfolding escaped
read_string-escaped out_len n [] [] h = unfold read_string in ground arith
read_string-escaped out_len n [] (d ∷ s) h = unfold read_string in ground arith
read_string-escaped out_len n (c ∷ v) rest h = elim (Bool-cases (c == b'"' || c == b'\\')) [
  | inl special ↦ rw special (
      read_string_slash out_len n c _ special
      ∙ kept out_len n c v _ (read_string-escaped out_len (n + 1) v rest))
  | inr plain ↦ rw plain (
      read_string_plain out_len n c _ (ground arith) (ground arith)
      ∙ kept out_len n c v _ (read_string-escaped out_len (n + 1) v rest))
]

-- A number ends where something else than a digit stands.
read_dec-append :
    (ds rest : List ℕ) (acc : ℕ)
    → all is_digit ds ≡ true
    → EndsValue rest
    → read_dec (ds ++ rest) acc ≡ read_dec ds acc
unfolding read_dec
read_dec-append [] [] acc d e = absurd e
read_dec-append [] (c ∷ s) acc d e = ground arith
read_dec-append (c ∷ ds) rest acc d e =
    ground (arith, read_dec-append ds rest (acc * 10 + (c - b'0')) (ground arith) e)

-- What each accessor makes of the value that was found.
string_at-value_text :
    (out_len : ℕ) (v : Value) (rest : List ℕ)
    → 0 < out_len
    → IsValue v
    → string_at out_len (value_text v rest) ≡ text_of out_len (some v)
unfolding string_at value_text text_of
string_at-value_text out_len (text v) rest h _ =
    read_string-escaped out_len 0 v rest h ∙ ground arith
string_at-value_text out_len (number []) rest h w = absurd w
string_at-value_text out_len (number (c ∷ ds)) rest h w = ground arith

uint_at-value_text :
    (v : Value) (rest : List ℕ)
    → IsValue v
    → EndsValue rest
    → uint_at (value_text v rest) ≡ uint_of (some v)
unfolding uint_at value_text uint_of
uint_at-value_text (text v) rest w e = ground arith
uint_at-value_text (number []) rest w e = absurd w
uint_at-value_text (number (c ∷ ds)) rest w e = ground (arith, read_dec-append (c ∷ ds) rest 0 w e)

-- The text that was found is that of the value that the key stands for.
string-found_text :
    (key : List ℕ) (out_len : ℕ) (fs : List Field)
    → 0 < out_len
    → IsObject fs
    → (found_text key fs >>= string_at out_len) ≡ text_of out_len (lookup key fs)
unfolding found_text lookup text_of
string-found_text key out_len [] h o = refl
string-found_text key out_len ((k, v) ∷ fs) h (_, w, o) = elim (Bool-cases (text_eq k key)) [
  | inl same ↦ rw same (string_at-value_text out_len v (more_text fs) h w)
  | inr other ↦ rw other (string-found_text key out_len fs h o)
]

uint-found_text :
    (key : List ℕ) (fs : List Field)
    → IsObject fs
    → (found_text key fs >>= uint_at) ≡ uint_of (lookup key fs)
unfolding found_text lookup uint_of
uint-found_text key [] o = refl
uint-found_text key ((k, v) ∷ fs) (_, w, o) = elim (Bool-cases (text_eq k key)) [
  | inl same ↦ rw same (uint_at-value_text v (more_text fs) w (more_text-EndsValue fs))
  | inr other ↦ rw other (uint-found_text key fs o)
]

is_some-found_text :
    (key : List ℕ) (fs : List Field) → is_some (found_text key fs) ≡ is_some (lookup key fs)
unfolding found_text lookup
is_some-found_text key [] = refl
is_some-found_text key ((k, v) ∷ fs) = ground (arith, is_some-found_text key fs)

module _ (key : List ℕ) (short : length key < 38) (k : IsKey key) (fs : List Field)
    (o : IsObject fs) where
  find_value-object_text : find_value (object_text fs) key ≡ found_text key fs
  unfolding find_value
  find_value-object_text =
      ground (arith, length-append key (b'"' ∷ []), find_from-object_text key fs k o)

  -- On the text of a flat object, whatever its values hold, the three accessors return what the
  -- first field with the key holds: a string if it fits the buffer with its NUL, a number if it is
  -- below 2 ^ 32, and whether there is such a field. The key is at most 37 characters long.
  pub get_string-object_text :
      (out_len : ℕ)
      → 0 < out_len
      → (get_string (object_text fs) key out_len ≡ text_of out_len (lookup key fs))
        × (get_uint (object_text fs) key ≡ uint_of (lookup key fs))
        × (has_key (object_text fs) key ≡ is_some (lookup key fs))
  unfolding get_string get_uint has_key
  get_string-object_text out_len h = (
    rw find_value-object_text (string-found_text key out_len fs h o),
    rw find_value-object_text (uint-found_text key fs o),
    rw find_value-object_text (is_some-found_text key fs),
  )
