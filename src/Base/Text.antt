-- ===== src/Base/Text.antt =====
-- C strings as lists of the codes before the NUL, and the parts of the C library on them.
use Prim.Native.Char.{code}
use Prim.Native.Nat.{ℕ, zero, suc, ◌+◌, ◌-◌, ◌*◌, ◌/◌, ◌%◌}
use Prim.Native.String.{String}
use mathlib.Core.Bool.{Bool, true, false, ◌&&◌}
use mathlib.Core.List.{List, [], ◌∷◌, ◌++◌}
use mathlib.Core.Path.{◌≡◌, refl}
use native.Mathlib.Omega.{arith}
use s3_bme.Base.Tests.{ltb, leb, ◌==◌, if◌then◌else◌}

-- The codes of an ASCII literal.
abbrev pub codes : String → List ℕ
codes String.[] = []
codes (String.◌∷◌ c s) = code c ∷ codes s

-- `strcmp(s, t) == 0`
unfoldable pub text_eq : List ℕ → List ℕ → Bool
text_eq [] [] = true
text_eq [] (d ∷ t) = false
text_eq (c ∷ s) [] = false
text_eq (c ∷ s) (d ∷ t) = if c == d then text_eq s t else false

pub text_eq-eq : (s t : List ℕ) → text_eq s t ≡ true → s ≡ t
unfolding text_eq
text_eq-eq [] [] h = refl
text_eq-eq [] (d ∷ t) h = cc
text_eq-eq (c ∷ s) [] h = cc
text_eq-eq (c ∷ s) (d ∷ t) h = ground (arith, text_eq-eq s t)

pub text_eq_refl : (s : List ℕ) → text_eq s s ≡ true
unfolding text_eq
text_eq_refl [] = refl
text_eq_refl (c ∷ s) = ground (arith, text_eq_refl s)

-- The string in an array: what stands before the first NUL.
unfoldable pub c_string : List ℕ → List ℕ
c_string [] = []
c_string (c ∷ s) = if c == 0 then [] else c ∷ c_string s

-- `isdigit` in the C locale.
abbrev pub is_digit : ℕ → Bool
is_digit c = leb b'0' c && leb c b'9'

abbrev pub all : (ℕ → Bool) → List ℕ → Bool
all ok [] = true
all ok (c ∷ s) = ok c && all ok s

-- The number that `strtoul` reads in base 10, `acc` being what it has read.
unfoldable pub read_dec : List ℕ → ℕ → ℕ
read_dec [] acc = acc
read_dec (c ∷ s) acc =
    let more = read_dec s (acc * 10 + (c - b'0')) in if is_digit c then more else acc

-- `%u` and `%lu`, on a number of at most `left` digits.
unfoldable pub digits : ℕ → ℕ → List ℕ
digits zero n = []
digits (suc left) n =
    let more = digits left (n / 10) in
    if ltb n 10 then (b'0' + n) ∷ [] else more ++ ((b'0' + n % 10) ∷ [])

-- A `uint32_t` has ten digits at most.
abbrev pub put_u : ℕ → List ℕ
put_u n = digits 10 n

-- `%02lu` of a number below 100.
abbrev pub put_02 : ℕ → List ℕ
put_02 n = (b'0' + n / 10) ∷ (b'0' + n % 10) ∷ []

-- `b ? "true" : "false"`
abbrev pub put_bool : Bool → List ℕ
put_bool true = codes "true"
put_bool false = codes "false"

-- The text that a format string and its arguments give.
abbrev pub concat : List (List ℕ) → List ℕ
concat [] = []
concat (s ∷ ss) = s ++ concat ss
