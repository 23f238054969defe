-- ===== src/Prelude/Int.antt =====
-- Signed integers over the native numbers, under the library's names, and Go's int64 as the ones in
-- its range: arithmetic wraps by `to_int64`.
use Prim.Native.Nat.{ℕ, suc, ◌+◌, ◌-◌, ◌*◌, ◌≤◌, ◌<◌, ◌%◌}
use mathlib.Core.Path.{◌≡◌, ap}
use mathlib.Core.Logic.{◌↔◌}
use mathlib.Core.Bool.{Bool, true, false}
use native.Mathlib.Omega.{arith}
use block_explorer_backend.Prelude.Tests.{ltb, leb, ◌==◌, if◌then◌else◌}

-- `negsuc n` is -(n + 1).
pub data ℤ : Type 0 where
  pos : ℕ → ℤ
  negsuc : ℕ → ℤ

abbrev pub pos_part : ℤ → ℕ
pos_part (pos n) = n
pos_part (negsuc n) = 0

abbrev pub neg_part : ℤ → ℕ
neg_part (pos n) = 0
neg_part (negsuc n) = suc n

-- a - b, as an integer.
abbrev pub sub_ℕ : ℕ → ℕ → ℤ
sub_ℕ a b = if leb b a then pos (a - b) else negsuc (b - a - 1)

infixl 65 ◌+ℤ◌ ◌-ℤ◌
infixl 70 ◌*ℤ◌
infix 50 ◌≤ℤ◌
unfoldable pub ◌+ℤ◌ : ℤ → ℤ → ℤ
a +ℤ b = sub_ℕ (pos_part a + pos_part b) (neg_part a + neg_part b)

unfoldable pub ◌-ℤ◌ : ℤ → ℤ → ℤ
a -ℤ b = sub_ℕ (pos_part a + neg_part b) (neg_part a + pos_part b)

unfoldable pub ◌*ℤ◌ : ℤ → ℤ → ℤ
a *ℤ b =
    sub_ℕ (pos_part a * pos_part b + neg_part a * neg_part b)
      (pos_part a * neg_part b + neg_part a * pos_part b)

abbrev pub ◌≤ℤ◌ : ℤ → ℤ → Type 0
a ≤ℤ b = pos_part a + neg_part b ≤ pos_part b + neg_part a

abbrev pub ltb_ℤ : ℤ → ℤ → Bool
ltb_ℤ a b = ltb (pos_part a + neg_part b) (pos_part b + neg_part a)

-- One lemma for each operation lets `omega` work with the operations shut, at any depth.
pub +ℤ_parts :
    (a b : ℤ)
    → pos_part (a +ℤ b) + neg_part a + neg_part b ≡ neg_part (a +ℤ b) + pos_part a + pos_part b
unfolding ◌+ℤ◌
+ℤ_parts a b = ground arith

pub -ℤ_parts :
    (a b : ℤ)
    → pos_part (a -ℤ b) + neg_part a + pos_part b ≡ neg_part (a -ℤ b) + pos_part a + neg_part b
unfolding ◌-ℤ◌
-ℤ_parts a b = ground arith

pub eq_of_parts : (a b : ℤ) → pos_part a + neg_part b ≡ pos_part b + neg_part a → a ≡ b
eq_of_parts a b h = ground arith

pub ruleset int_laws = (arith, +ℤ_parts, -ℤ_parts, eq_of_parts)

abbrev pub leb_ℤ : ℤ → ℤ → Bool
leb_ℤ a b = leb (pos_part a + neg_part b) (pos_part b + neg_part a)

-- `a == b` on int64
unfoldable pub eqb_ℤ : ℤ → ℤ → Bool
eqb_ℤ (pos a) (pos b) = a == b
eqb_ℤ (negsuc a) (negsuc b) = a == b
eqb_ℤ _ _ = false

pub eqb_ℤ_iff : (a b : ℤ) → (eqb_ℤ a b ≡ true) ↔ (a ≡ b)
unfolding eqb_ℤ
eqb_ℤ_iff (pos a) (pos b) = ground arith
eqb_ℤ_iff (negsuc a) (negsuc b) = ground arith
eqb_ℤ_iff (pos a) (negsuc b) = ground arith
eqb_ℤ_iff (negsuc a) (pos b) = ground arith

abbrev pub two_63 : ℕ
two_63 = 9223372036854775808

abbrev pub two_64 : ℕ
two_64 = 18446744073709551616

-- The uint64 bit pattern of an integer, and the int64 of a bit pattern.
unfoldable pub to_uint64 : ℤ → ℕ
to_uint64 (pos n) = n % two_64
to_uint64 (negsuc n) = two_64 - 1 - n % two_64

-- `int64(x)` of a uint64
unfoldable pub int64_of_uint64 : ℕ → ℤ
int64_of_uint64 n = if ltb n two_63 then pos n else negsuc (two_64 - 1 - n)

-- int64 arithmetic keeps the low 64 bits.
unfoldable pub wrap_int64 : ℤ → ℤ
unfolding to_uint64 int64_of_uint64
wrap_int64 a = int64_of_uint64 (to_uint64 a)

abbrev pub FitsInt64 : ℤ → Type 0
FitsInt64 a = (pos_part a < two_63) × (neg_part a ≤ two_63)

pub wrap_int64_fits : (a : ℤ) → FitsInt64 a → wrap_int64 a ≡ a
unfolding wrap_int64
wrap_int64_fits (pos n) h = ground arith
wrap_int64_fits (negsuc n) h = ground arith

pub pos_pred : (n : ℕ) → 0 < n → pos n -ℤ pos 1 ≡ pos (n - 1)
unfolding ◌-ℤ◌
pos_pred n h = ground arith

pub pos_mul : (a b : ℕ) → pos a *ℤ pos b ≡ pos (a * b)
unfolding ◌*ℤ◌
pos_mul a b = ground arith

pub wrap_pos : (n : ℕ) → n < two_63 → wrap_int64 (pos n) ≡ pos n
unfolding wrap_int64
wrap_pos n h = ground arith

-- Wrapping is by 2 ^ 64.
pub wrap_pos-add : (n : ℕ) → wrap_int64 (pos (n + two_64)) ≡ wrap_int64 (pos n)
unfolding wrap_int64
wrap_pos-add n = ap int64_of_uint64 (omega arith)
