-- ===== src/JsonMini/Search.antt =====
-- The search for a key goes past all that is not the key of a field.
use s3_bme.Base.{
  ℕ, ◌≡◌, ◌≢◌, ◌⊎◌, inl, inr, refl, ◌∙◌, arith, true, none, some, List, [], ◌∷◌, ◌++◌, all,
  is_digit,
}
use s3_bme.JsonMini.{strip_prefix, skip_spaces, after_colon, value_here, find_from, quoted}
use s3_bme.JsonMini.Objects.{Field, escaped, more_text, IsKeyChar, All, IsKey}

-- What stands behind a value: a comma or the closing brace.
abbrev pub EndsValue : List ℕ → Type 0
EndsValue [] = ⊥
EndsValue (c ∷ s) = (c ≡ b',') ⊎ (c ≡ b'}')

pub more_text-EndsValue : (fs : List Field) → EndsValue (more_text fs)
unfolding more_text
more_text-EndsValue [] = inr refl
more_text-EndsValue (f ∷ fs) = inl refl

pass :
    (pat : List ℕ) (c : ℕ) (s : List ℕ)
    → value_here pat (c ∷ s) ≡ none
    → find_from pat (c ∷ s) ≡ find_from pat s
unfolding find_from
pass pat c s h = rw (h, find_from)

-- Only a quote can begin a key.
pub pass_char :
    (key : List ℕ) (c : ℕ) (s : List ℕ)
    → c ≢ b'"'
    → find_from (quoted key) (c ∷ s) ≡ find_from (quoted key) s
pass_char key c s h = pass (quoted key) c s (unfold value_here strip_prefix in ground arith)

pub pass_text :
    (key s rest : List ℕ)
    → All (λ c. c ≢ b'"') s
    → find_from (quoted key) (s ++ rest) ≡ find_from (quoted key) rest
pass_text key [] rest h = refl
pass_text key (c ∷ s) rest (hc, hs) = pass_char key c (s ++ rest) hc ∙ pass_text key s rest hs

pub IsKeyChar-All : (s : List ℕ) → All IsKeyChar s → All (λ c. c ≢ b'"') s
IsKeyChar-All [] h = tt
IsKeyChar-All (c ∷ s) (hc, hs) = (hc.0, IsKeyChar-All s hs)

pub digits-All : (s : List ℕ) → all is_digit s ≡ true → All (λ c. c ≢ b'"') s
digits-All [] h = tt
digits-All (c ∷ s) h = (ground arith, digits-All s (ground arith))

-- A quote in front of something else than the key: the search goes on behind it.
pub pass_quote :
    (key s : List ℕ)
    → strip_prefix (key ++ (b'"' ∷ [])) s ≡ none
    → find_from (quoted key) (b'"' ∷ s) ≡ find_from (quoted key) s
pass_quote key s h = pass (quoted key) b'"' s (unfold value_here strip_prefix in ground (arith, h))

-- The quote behind a text is in front of a colon, a comma or a brace.
pub pass_closing :
    (key : List ℕ) (c : ℕ) (s : List ℕ)
    → IsKey key
    → (c ≡ b':') ⊎ (c ≡ b',') ⊎ (c ≡ b'}')
    → find_from (quoted key) (b'"' ∷ c ∷ s) ≡ find_from (quoted key) (c ∷ s)
pass_closing [] c s h e = absurd h
pass_closing (k ∷ ks) c s h e = pass_quote (k ∷ ks) (c ∷ s) (unfold strip_prefix in ground arith)

-- In a text between quotes the key can only match up to the closing quote.
strip_prefix-escaped :
    (key v rest : List ℕ)
    → All IsKeyChar key
    → (strip_prefix (key ++ (b'"' ∷ [])) (escaped v (b'"' ∷ rest)) ≡ none)
      ⊎ (strip_prefix (key ++ (b'"' ∷ [])) (escaped v (b'"' ∷ rest)) ≡ some rest)
unfolding strip_prefix escaped
strip_prefix-escaped [] [] rest h = inr refl
strip_prefix-escaped [] (c ∷ v) rest h = inl (ground arith)
strip_prefix-escaped (k ∷ ks) [] rest h = inl (ground arith)
strip_prefix-escaped (k ∷ ks) (c ∷ v) rest (hk, hs) =
    ground (arith, strip_prefix-escaped ks v rest hs)

ends_no_colon : (rest : List ℕ) → EndsValue rest → after_colon (skip_spaces rest) ≡ none
unfolding after_colon skip_spaces
ends_no_colon [] h = absurd h
ends_no_colon (c ∷ s) h = ground arith

-- A quote in a text, or in front of it.
pub pass_in_text :
    (key v rest : List ℕ)
    → IsKey key
    → EndsValue rest
    → find_from (quoted key) (b'"' ∷ escaped v (b'"' ∷ rest))
      ≡ find_from (quoted key) (escaped v (b'"' ∷ rest))
pass_in_text [] v rest h e = absurd h
pass_in_text (k ∷ ks) v rest h e = pass (quoted (k ∷ ks)) b'"' _ (
    unfold value_here strip_prefix in
    ground (arith, strip_prefix-escaped (k ∷ ks) v rest h, ends_no_colon rest e))
