-- ===== src/Base/Result.antt =====
-- Calls that return an `int` code and change a state: the result, the monad and its triples.
use mathlib.Core.Path.{◌≡◌, refl}
use mathlib.Core.Bool.{Bool, true, false}
use s3_bme.Base.Int.{ℤ}

-- `ok` is the code 0, `err` another code, and `hang` a loop that did not end.
pub data Result (A : Type 0) : Type 0 where
  ok : A → Result A
  err : ℤ → Result A
  hang : Result A

-- A call from state `S`: the state after it is kept on errors too.
abbrev pub M : Type 0 → Type 0 → Type 0
M S A = S → Result A × S

abbrev pub pure : {S A : Type 0} → A → M S A
pure a s = (ok a, s)

abbrev pub fail : {S A : Type 0} → ℤ → M S A
fail c s = (err c, s)

-- `int rc = ...; if (rc) return rc;` in front of the rest of a function.
abbrev pub continue : {S A B : Type 0} → Result A → (A → M S B) → M S B
continue (ok a) f s = f a s
continue (err c) f s = (err c, s)
continue hang f s = (hang, s)

-- `... == ESP_OK`
abbrev pub is_done : {A : Type 0} → Result A → Bool
is_done (ok a) = true
is_done (err c) = false
is_done hang = false

-- `... == ESP_OK ? 0 : code`
abbrev pub or_code : {A : Type 0} → ℤ → Result A → Result A
or_code code (ok a) = ok a
or_code code (err c) = err code
or_code code hang = hang

abbrev pub with_code : {S A : Type 0} → ℤ → M S A → M S A
with_code code m s = let (r, t) = m s in (or_code code r, t)

infixl 5 ◌>>=◌ ◌>>◌
abbrev pub ◌>>=◌ : {S A B : Type 0} → M S A → (A → M S B) → M S B
◌>>=◌ m f s = let (r, t) = m s in continue r f t

abbrev pub ◌>>◌ : {S B : Type 0} → M S (Unit {0}) → M S B → M S B
m >> k = m >>= λ _. k

abbrev pub get : {S : Type 0} → M S S
get s = (ok s, s)

abbrev pub put : {S : Type 0} → S → M S (Unit {0})
put t s = (ok tt, t)

-- The call ends; `P` holds of what it returns, or `E` of the error code, and the state left.
abbrev pub EnsuresOf : {S A : Type 0} → (A → S → Type 0) → (ℤ → S → Type 0) → Result A → S → Type 0
EnsuresOf P E (ok a) s = P a s
EnsuresOf P E (err c) s = E c s
EnsuresOf P E hang s = ⊥

abbrev pub Ensures : {S A : Type 0} → (A → S → Type 0) → (ℤ → S → Type 0) → Result A × S → Type 0
Ensures P E out = EnsuresOf P E out.0 out.1

continue-Ensures :
    {S A B : Type 0} (P : A → S → Type 0) (Q : B → S → Type 0) (E : ℤ → S → Type 0) (r : Result A)
    (s : S) (f : A → M S B)
    → EnsuresOf P E r s
    → ((a : A) (t : S) → P a t → Ensures Q E (f a t))
    → Ensures Q E (continue r f s)
continue-Ensures P Q E (ok a) s f h k = k a s h
continue-Ensures P Q E (err c) s f h k = h
continue-Ensures P Q E hang s f h k = h

-- The rule for a call followed by the rest of the function.
pub bind-Ensures :
    {S A B : Type 0} (P : A → S → Type 0) (Q : B → S → Type 0) (E : ℤ → S → Type 0) (m : M S A)
    (f : A → M S B) (s : S)
    → Ensures P E (m s)
    → ((a : A) (t : S) → P a t → Ensures Q E (f a t))
    → Ensures Q E ((m >>= f) s)
bind-Ensures P Q E m f s h k = continue-Ensures P Q E (m s).0 (m s).1 f h k

pub weaken_of :
    {S A : Type 0} (P Q : A → S → Type 0) (E F : ℤ → S → Type 0) (r : Result A) (s : S)
    → EnsuresOf P E r s
    → ((a : A) (t : S) → P a t → Q a t)
    → ((c : ℤ) (t : S) → E c t → F c t)
    → EnsuresOf Q F r s
weaken_of P Q E F (ok a) s h p e = p a s h
weaken_of P Q E F (err c) s h p e = e c s h
weaken_of P Q E F hang s h p e = h

-- A weaker conclusion, about the result or about the error.
pub weaken :
    {S A : Type 0} (P Q : A → S → Type 0) (E F : ℤ → S → Type 0) (m : M S A) (s : S)
    → Ensures P E (m s)
    → ((a : A) (t : S) → P a t → Q a t)
    → ((c : ℤ) (t : S) → E c t → F c t)
    → Ensures Q F (m s)
weaken P Q E F m s = weaken_of P Q E F (m s).0 (m s).1

coded_of :
    {S A : Type 0} (P : A → S → Type 0) (E : ℤ → S → Type 0) (code : ℤ) (r : Result A) (s : S)
    → EnsuresOf P E r s
    → EnsuresOf P (λ c t. (c ≡ code) × ((d : ℤ) × E d t)) (or_code code r) s
coded_of P E code (ok a) s h = h
coded_of P E code (err c) s h = (refl, (c, h))
coded_of P E code hang s h = h

-- The rule for a call whose error code is replaced by one.
pub with_code-Ensures :
    {S A : Type 0} (P : A → S → Type 0) (E : ℤ → S → Type 0) (code : ℤ) (m : M S A) (s : S)
    → Ensures P E (m s)
    → Ensures P (λ c t. (c ≡ code) × ((d : ℤ) × E d t)) (with_code code m s)
with_code-Ensures P E code m s h = coded_of P E code (m s).0 (m s).1 h

continue-keeps :
    {S A B : Type 0} (Q : S → Type 0) (r : Result A) (s : S) (f : A → M S B)
    → Q s
    → ((a : A) (t : S) → Q t → Q (f a t).1)
    → Q (continue r f s).1
continue-keeps Q (ok a) s f h k = k a s h
continue-keeps Q (err c) s f h k = h
continue-keeps Q hang s f h k = h

-- What each of two calls keeps of the state, whatever it returns, both keep.
pub bind-keeps :
    {S A B : Type 0} (Q : S → Type 0) (m : M S A) (f : A → M S B) (s : S)
    → Q (m s).1
    → ((a : A) (t : S) → Q t → Q (f a t).1)
    → Q ((m >>= f) s).1
bind-keeps Q m f s h k = continue-keeps Q (m s).0 (m s).1 f h k
