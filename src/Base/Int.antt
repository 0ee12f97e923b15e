-- ===== src/Base/Int.antt =====
-- Go's `int` and `int64`, 64 bits wide, as integers with their wrap-around written out.
use Prim.Native.Nat.{ℕ, ◌+◌, ◌-◌, ◌%◌, ◌^◌, ◌≤◌, ◌<◌}
use mathlib.Core.Path.{◌≡◌, refl}
use mathlib.Core.Bool.{Bool, true}
use native.Mathlib.Omega.{arith}
use registry_ui.Base.Tests.{ltb, leb, if◌then◌else◌}

-- `negsuc n` is -(n + 1).
pub data ℤ : Type 0 where
  pos : ℕ → ℤ
  negsuc : ℕ → ℤ

abbrev pub two63 : ℕ
two63 = 2 ^ 63

abbrev pub pos_part : ℤ → ℕ
pos_part (pos n) = n
pos_part (negsuc n) = 0

abbrev pub neg_part : ℤ → ℕ
neg_part (pos n) = 0
neg_part (negsuc n) = n + 1

abbrev pub ltz : ℤ → ℤ → Bool
ltz a b = ltb (pos_part a + neg_part b) (pos_part b + neg_part a)

abbrev pub lez : ℤ → ℤ → Bool
lez a b = leb (pos_part a + neg_part b) (pos_part b + neg_part a)

infix 50 ◌<ℤ◌ ◌≤ℤ◌
abbrev pub ◌<ℤ◌ : ℤ → ℤ → Type 0
a <ℤ b = pos_part a + neg_part b < pos_part b + neg_part a

abbrev pub ◌≤ℤ◌ : ℤ → ℤ → Type 0
a ≤ℤ b = pos_part a + neg_part b ≤ pos_part b + neg_part a

-- Adding a number that is not negative wraps at 2 ^ 63.
unfoldable pub add_int : ℤ → ℕ → ℤ
add_int (pos v) k = if ltb (v + k) two63 then pos (v + k) else negsuc (two63 + two63 - (v + k) - 1)
add_int (negsuc m) k = if ltb m k then pos (k - m - 1) else negsuc (m - k)

-- A number that is not negative, as an `int64`.
unfoldable pub wrap_int : ℕ → ℤ
wrap_int n =
    let m = n % (two63 + two63) in if ltb m two63 then pos m else negsuc (two63 + two63 - m - 1)

pub wrap_int_small : (n : ℕ) → n < two63 → wrap_int n ≡ pos n
unfolding wrap_int
wrap_int_small n h =
    let small : n % (two63 + two63) ≡ n = omega arith in
    let below : ltb n two63 ≡ true = ground arith in rw (small, below) refl

pub ltz→lt : (a b : ℤ) → ltz a b ≡ true → a <ℤ b
ltz→lt a b h = ground arith
