-- ===== src/Base/Int32.antt =====
-- `int32_t` arithmetic, with the wrap-around written out, and the shifts of signed integers.
use Prim.Native.Nat.{ℕ, ◌/◌, ◌^◌, bit_or}
use s3_bme.Base.Int.{ℤ, pos, negsuc, ◌+ℤ◌, ◌-ℤ◌, ◌*ℤ◌, to_u32, to_i32}

abbrev pub i32 : ℤ → ℤ
i32 z = to_i32 (to_u32 z)

infixl 65 ◌⊕◌ ◌⊖◌
infixl 70 ◌⊗◌
unfoldable pub ◌⊕◌ : ℤ → ℤ → ℤ
unfolding ◌+ℤ◌
a ⊕ b = i32 (a +ℤ b)

unfoldable pub ◌⊖◌ : ℤ → ℤ → ℤ
unfolding ◌-ℤ◌
a ⊖ b = i32 (a -ℤ b)

unfoldable pub ◌⊗◌ : ℤ → ℤ → ℤ
unfolding ◌*ℤ◌
a ⊗ b = i32 (a *ℤ b)

-- `a << k` and the arithmetic shift `a >> k`, which rounds down.
unfoldable pub shl : ℤ → ℕ → ℤ
unfolding ◌*ℤ◌
shl a k = i32 (a *ℤ pos (2 ^ k))

unfoldable pub shr : ℤ → ℕ → ℤ
shr (pos n) k = pos (n / 2 ^ k)
shr (negsuc n) k = negsuc (n / 2 ^ k)

-- `a | b` on the bit patterns.
unfoldable pub or_int : ℤ → ℤ → ℤ
or_int a b = to_i32 (bit_or (to_u32 a) (to_u32 b))
