-- ===== src/Prelude/Int.antt =====
-- Signed integers over the native numbers, under the library's names (its ℤ stands on the unary ℕ).
-- `omega int_laws` works through the two parts of an integer, with the operations shut.
use Prim.Native.Nat.{ℕ, suc, ◌+◌, ◌-◌, ◌*◌, ◌/◌, ◌%◌, ◌≤◌, ◌<◌}
use mathlib.Core.Path.{◌≡◌, ap}
use mathlib.Core.Bool.{Bool, ◌&&◌}
use native.Mathlib.Omega.{arith}
use native.Mathlib.Nat.{div-add-mod}
use grid_edge_gateway.Prelude.Tests.{ltb, leb, ◌==◌, if◌then◌else◌}

-- `negsuc n` is -(n + 1).
pub data ℤ : Type 0 where
  pos : ℕ → ℤ
  negsuc : ℕ → ℤ

abbrev pub pos_part : ℤ → ℕ
pos_part (pos n) = n
pos_part (negsuc n) = 0

abbrev pub neg_part : ℤ → ℕ
neg_part (pos n) = 0
neg_part (negsuc n) = suc n

-- a - b, as an integer.
abbrev pub sub_ℕ : ℕ → ℕ → ℤ
sub_ℕ a b = if leb b a then pos (a - b) else negsuc (b - a - 1)

infixl 65 ◌+ℤ◌ ◌-ℤ◌
infixl 70 ◌*ℤ◌
infix 50 ◌≤ℤ◌ ◌<ℤ◌
unfoldable pub ◌+ℤ◌ : ℤ → ℤ → ℤ
a +ℤ b = sub_ℕ (pos_part a + pos_part b) (neg_part a + neg_part b)

unfoldable pub ◌-ℤ◌ : ℤ → ℤ → ℤ
a -ℤ b = sub_ℕ (pos_part a + neg_part b) (neg_part a + pos_part b)

-- A product with a number.
unfoldable pub ◌*ℤ◌ : ℤ → ℕ → ℤ
a *ℤ n = sub_ℕ (pos_part a * n) (neg_part a * n)

abbrev pub ◌≤ℤ◌ : ℤ → ℤ → Type 0
a ≤ℤ b = pos_part a + neg_part b ≤ pos_part b + neg_part a

abbrev pub ◌<ℤ◌ : ℤ → ℤ → Type 0
a <ℤ b = pos_part a + neg_part b < pos_part b + neg_part a

abbrev pub ltb_ℤ : ℤ → ℤ → Bool
ltb_ℤ a b = ltb (pos_part a + neg_part b) (pos_part b + neg_part a)

infix 50 ◌==ℤ◌
abbrev pub ◌==ℤ◌ : ℤ → ℤ → Bool
a ==ℤ b = (pos_part a == pos_part b) && (neg_part a == neg_part b)

-- `i64::div_euclid` and `i64::rem_euclid` by a positive number: the quotient rounds down.
unfoldable pub div_euclid : ℤ → ℕ → ℤ
div_euclid (pos n) d = pos (n / d)
div_euclid (negsuc n) d = negsuc (n / d)

unfoldable pub rem_euclid : ℤ → ℕ → ℕ
rem_euclid (pos n) d = n % d
rem_euclid (negsuc n) d = d - 1 - n % d

pub +ℤ_parts :
    (a b : ℤ)
    → pos_part (a +ℤ b) + neg_part a + neg_part b ≡ neg_part (a +ℤ b) + pos_part a + pos_part b
unfolding ◌+ℤ◌
+ℤ_parts a b = ground arith

pub -ℤ_parts :
    (a b : ℤ)
    → pos_part (a -ℤ b) + neg_part a + pos_part b ≡ neg_part (a -ℤ b) + pos_part a + neg_part b
unfolding ◌-ℤ◌
-ℤ_parts a b = ground arith

pub *ℤ_parts :
    (a : ℤ) (n : ℕ) → pos_part (a *ℤ n) + neg_part a * n ≡ neg_part (a *ℤ n) + pos_part a * n
unfolding ◌*ℤ◌
*ℤ_parts a n = ground arith

pub eq_of_parts : (a b : ℤ) → pos_part a + neg_part b ≡ pos_part b + neg_part a → a ≡ b
eq_of_parts a b h = ground arith

pub ruleset int_laws = (arith, +ℤ_parts, -ℤ_parts, *ℤ_parts, eq_of_parts)

pub rem_euclid-lt : (a : ℤ) (d : ℕ) → 0 < d → rem_euclid a d < d
unfolding rem_euclid
rem_euclid-lt (pos n) d h = grind arith
rem_euclid-lt (negsuc n) d h = grind arith

-- Division with remainder: a = q * d + r.
pub div_rem_euclid : (a : ℤ) (d : ℕ) → 0 < d → div_euclid a d *ℤ d +ℤ pos (rem_euclid a d) ≡ a
unfolding div_euclid rem_euclid ◌*ℤ◌ ◌+ℤ◌
div_rem_euclid (pos n) d h = grind (arith, div-add-mod n d)
div_rem_euclid (negsuc n) d h = grind (arith, div-add-mod n d)

-- A number between two multiples of `d` is not one of them.
div_between : (n d q : ℕ) → q * d ≤ n → n < q * d + d → n / d ≡ q
div_between n d q lo hi = grind (arith, div-add-mod n d)

-- The quotient and the remainder are the only ones.
pub div_euclid_unique : (q : ℤ) (d r : ℕ) → r < d → div_euclid (q *ℤ d +ℤ pos r) d ≡ q
unfolding div_euclid ◌*ℤ◌ ◌+ℤ◌
div_euclid_unique (pos q) d r h = ground (arith, div_between (q * d + r) d q)
div_euclid_unique (negsuc q) d r h = ground (arith, div_between (suc q * d - r - 1) d q)

pub rem_euclid_unique : (q : ℤ) (d r : ℕ) → r < d → rem_euclid (q *ℤ d +ℤ pos r) d ≡ r
rem_euclid_unique q d r h =
    let split = div_rem_euclid (q *ℤ d +ℤ pos r) d (omega arith) in
    let same = rw (div_euclid_unique q d r h) at split in
    omega (int_laws, ap pos_part same, ap neg_part same)
