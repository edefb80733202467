-- ===== src/JsonMini/Fields.antt =====
-- The search in an object finds the first field with the key.
use s3_bme.Base.{
  ℕ, ◌≡◌, ◌≢◌, inl, inr, refl, ◌∙◌, ap, arith, ◌==◌, if◌then◌else◌, Bool-cases, Option, none, some,
  List, [], ◌∷◌, ◌++◌, text_eq, text_eq-eq, text_eq_refl,
}
use s3_bme.JsonMini.{strip_prefix, skip_spaces, after_colon, value_here, find_from, quoted}
use s3_bme.JsonMini.Objects.{
  Value, text, number, Field, escaped, value_text, field_text, more_text, object_text, IsKeyChar,
  All, IsKey, IsValue, IsObject,
}
use s3_bme.JsonMini.Search.{
  EndsValue, more_text-EndsValue, pass_char, pass_text, pass_quote, pass_closing, pass_in_text,
  IsKeyChar-All, digits-All,
}

-- The value of a field, as text, is passed over.
find_from-escaped :
    (key v rest : List ℕ)
    → IsKey key
    → EndsValue rest
    → find_from (quoted key) (escaped v (b'"' ∷ rest)) ≡ find_from (quoted key) rest
unfolding escaped
find_from-escaped key [] [] h e = absurd e
find_from-escaped key [] (c ∷ s) h e = pass_closing key c s h (inr e)
find_from-escaped key (c ∷ v) rest h e = elim (Bool-cases (c == b'"')) [
  | inl quote ↦
      let is_quote : c ≡ b'"' = ground arith in
      rw is_quote (
        pass_char key b'\\' _ (omega arith)
        ∙ pass_in_text key v rest h e
        ∙ find_from-escaped key v rest h e)
  | inr plain ↦ elim (Bool-cases (c == b'\\')) [
    | inl slash ↦
        let is_slash : c ≡ b'\\' = ground arith in
        rw is_slash (
          pass_char key b'\\' _ (omega arith)
          ∙ pass_char key b'\\' _ (omega arith)
          ∙ find_from-escaped key v rest h e)
    | inr other ↦
        rw (plain, other) (pass_char key c _ (ground arith) ∙ find_from-escaped key v rest h e)
  ]
]

find_from-value_text :
    (key : List ℕ) (v : Value) (rest : List ℕ)
    → IsKey key
    → IsValue v
    → EndsValue rest
    → find_from (quoted key) (value_text v rest) ≡ find_from (quoted key) rest
unfolding value_text
find_from-value_text key (text v) rest h _ e =
    pass_in_text key v rest h e ∙ find_from-escaped key v rest h e
find_from-value_text key (number []) rest h d e = absurd d
find_from-value_text key (number (c ∷ ds)) rest h d e =
    pass_text key (c ∷ ds) rest (digits-All (c ∷ ds) d)

strip_prefix_self :
    (key rest : List ℕ) → strip_prefix (key ++ (b'"' ∷ [])) (key ++ (b'"' ∷ rest)) ≡ some rest
unfolding strip_prefix
strip_prefix_self [] rest = refl
strip_prefix_self (c ∷ s) rest = ground (arith, strip_prefix_self s rest)

strip_prefix_other :
    (key k rest : List ℕ)
    → All IsKeyChar key
    → All IsKeyChar k
    → k ≢ key
    → strip_prefix (key ++ (b'"' ∷ [])) (k ++ (b'"' ∷ rest)) ≡ none
unfolding strip_prefix
strip_prefix_other [] [] rest h g ne = absurd (ne refl)
strip_prefix_other [] (d ∷ k) rest h g ne = ground arith
strip_prefix_other (c ∷ key) [] rest h g ne = ground arith
strip_prefix_other (c ∷ key) (d ∷ k) rest (hc, h) (gd, g) ne = elim (Bool-cases (c == d)) [
  | inl same ↦
      let e : c ≡ d = ground arith in
      rw same (strip_prefix_other key k rest h g (λ eq. ne (cc (e, eq))))
  | inr other ↦ rw other
]

IsKey-All : (key : List ℕ) → IsKey key → All IsKeyChar key
IsKey-All [] h = absurd h
IsKey-All (c ∷ s) h = h

-- No space stands in front of a value.
skip_spaces-value_text :
    (v : Value) (rest : List ℕ) → IsValue v → skip_spaces (value_text v rest) ≡ value_text v rest
unfolding skip_spaces value_text
skip_spaces-value_text (text v) rest h = refl
skip_spaces-value_text (number []) rest h = absurd h
skip_spaces-value_text (number (c ∷ ds)) rest h = ground arith

find_from-field_hit :
    (key : List ℕ) (v : Value) (rest : List ℕ)
    → IsValue v
    → find_from (quoted key) (field_text (key, v) rest) ≡ some (value_text v rest)
unfolding find_from value_here after_colon skip_spaces strip_prefix field_text
find_from-field_hit key v rest h =
    ground
      (arith, strip_prefix_self key (b':' ∷ value_text v rest), skip_spaces-value_text v rest h)

find_from-field_miss :
    (key k : List ℕ) (v : Value) (rest : List ℕ)
    → IsKey key
    → IsKey k
    → IsValue v
    → EndsValue rest
    → k ≢ key
    → find_from (quoted key) (field_text (k, v) rest) ≡ find_from (quoted key) rest
unfolding field_text
find_from-field_miss key k v rest h g w e ne =
    pass_quote key _ (strip_prefix_other key k _ (IsKey-All key h) (IsKey-All k g) ne)
    ∙ pass_text key k _ (IsKeyChar-All k (IsKey-All k g))
    ∙ pass_closing key b':' _ h (inl refl)
    ∙ pass_char key b':' _ (omega arith)
    ∙ find_from-value_text key v rest h w e

-- The text that a found value begins, with all that stands behind it.
unfoldable pub found_text : List ℕ → List Field → Option (List ℕ)
found_text key [] = none
found_text key ((k, v) ∷ fs) =
    if text_eq k key then some (value_text v (more_text fs)) else found_text key fs

find_from-field :
    (key k : List ℕ) (v : Value) (fs : List Field)
    → IsKey key
    → IsObject ((k, v) ∷ fs)
    → find_from (quoted key) (more_text fs) ≡ found_text key fs
    → find_from (quoted key) (field_text (k, v) (more_text fs)) ≡ found_text key ((k, v) ∷ fs)
unfolding found_text
find_from-field key k v fs h (g, w, _) later = elim (Bool-cases (text_eq k key)) [
  | inl same ↦
      let e : k ≡ key = text_eq-eq k key same in
      rw same (rw e (find_from-field_hit key v (more_text fs) w))
  | inr other ↦
      let ne : k ≢ key = λ e. cc (ap (λ (x : List ℕ). text_eq x key) e, text_eq_refl key, other) in
      rw other (find_from-field_miss key k v _ h g w (more_text-EndsValue fs) ne ∙ later)
]

find_from-more_text :
    (key : List ℕ) (fs : List Field)
    → IsKey key
    → IsObject fs
    → find_from (quoted key) (more_text fs) ≡ found_text key fs
unfolding more_text found_text find_from
find_from-more_text key [] h o = pass_char key b'}' [] (omega arith)
find_from-more_text key ((k, v) ∷ fs) h (g, w, o) =
    pass_char key b',' (field_text (k, v) (more_text fs)) (omega arith)
    ∙ find_from-field key k v fs h (g, w, o) (find_from-more_text key fs h o)

pub find_from-object_text :
    (key : List ℕ) (fs : List Field)
    → IsKey key
    → IsObject fs
    → find_from (quoted key) (object_text fs) ≡ found_text key fs
unfolding object_text found_text find_from
find_from-object_text key [] h o =
    pass_char key b'{' (b'}' ∷ []) (omega arith) ∙ pass_char key b'}' [] (omega arith)
find_from-object_text key ((k, v) ∷ fs) h (g, w, o) =
    pass_char key b'{' (field_text (k, v) (more_text fs)) (omega arith)
    ∙ find_from-field key k v fs h (g, w, o) (find_from-more_text key fs h o)
