-- ===== src/Go/Int.antt =====
-- math/big's Int as a mathematical integer, with the operations that the library calls, and the
-- wrap-around of fixed-width integers. Division is Euclidean, as in `Int.Div` and `Int.Mod`.
use Prim.Native.Nat.{bit_and, bit_or, bit_xor}
use bclib.Base.{
  ℕ, zero, suc, ◌+◌, ◌-◌, ◌*◌, ◌/◌, ◌%◌, ◌^◌, ◌≤◌, ◌≡◌, arith, ltb, leb, if◌then◌else◌,
}

-- `negsuc n` is -(n + 1).
pub data ℤ : Type 0 where
  pos : ℕ → ℤ
  negsuc : ℕ → ℤ

abbrev pub pos_part : ℤ → ℕ
pos_part (pos n) = n
pos_part (negsuc n) = 0

abbrev pub neg_part : ℤ → ℕ
neg_part (pos n) = 0
neg_part (negsuc n) = suc n

-- a - b, as an integer.
abbrev pub sub_ℕ : ℕ → ℕ → ℤ
sub_ℕ a b = if leb b a then pos (a - b) else negsuc (b - a - 1)

infixl 65 ◌+ℤ◌ ◌-ℤ◌
infixl 70 ◌*ℤ◌
infix 50 ◌≤ℤ◌
unfoldable pub ◌+ℤ◌ : ℤ → ℤ → ℤ
a +ℤ b = sub_ℕ (pos_part a + pos_part b) (neg_part a + neg_part b)

unfoldable pub ◌-ℤ◌ : ℤ → ℤ → ℤ
a -ℤ b = sub_ℕ (pos_part a + neg_part b) (neg_part a + pos_part b)

unfoldable pub ◌*ℤ◌ : ℤ → ℤ → ℤ
a *ℤ b =
    sub_ℕ (pos_part a * pos_part b + neg_part a * neg_part b)
      (pos_part a * neg_part b + neg_part a * pos_part b)

abbrev pub ◌≤ℤ◌ : ℤ → ℤ → Type 0
a ≤ℤ b = pos_part a + neg_part b ≤ pos_part b + neg_part a

abbrev pub neg : ℤ → ℤ
neg a = sub_ℕ (neg_part a) (pos_part a)

-- The absolute value.
abbrev pub abs : ℤ → ℕ
abs a = pos_part a + neg_part a

-- `Int.Cmp` and `Int.Sign` return -1, 0 or +1.
abbrev pub cmp : ℤ → ℤ → ℤ
cmp a b =
    if ltb (pos_part a + neg_part b) (pos_part b + neg_part a)
    then negsuc 0
    else if ltb (pos_part b + neg_part a) (pos_part a + neg_part b)
    then pos 1
    else pos 0

-- Euclidean division: 0 ≤ remainder < |b|. The divisor is not 0.
unfoldable pub ediv : ℤ → ℤ → ℤ
ediv (pos a) (pos b) = pos (a / b)
ediv (pos a) (negsuc b) = neg (pos (a / suc b))
ediv (negsuc a) (pos b) = negsuc (a / b)
ediv (negsuc a) (negsuc b) = pos (a / suc b + 1)

unfoldable pub emod : ℤ → ℤ → ℤ
emod (pos a) b = pos (a % abs b)
emod (negsuc a) b = pos (abs b - 1 - a % abs b)

-- `Int.Exp` with no modulus: 1 for an exponent that is not positive.
unfoldable pub exp : ℤ → ℤ → ℤ
exp x (negsuc n) = pos 1
exp x (pos zero) = pos 1
exp x (pos (suc n)) = x *ℤ exp x (pos n)

unfoldable pub lsh : ℤ → ℕ → ℤ
lsh (pos a) n = pos (a * 2 ^ n)
lsh (negsuc a) n = negsuc ((a + 1) * 2 ^ n - 1)

-- The arithmetic shift rounds towards minus infinity.
unfoldable pub rsh : ℤ → ℕ → ℤ
rsh (pos a) n = pos (a / 2 ^ n)
rsh (negsuc a) n = negsuc (a / 2 ^ n)

abbrev and_not : ℕ → ℕ → ℕ
and_not a b = a - bit_and a b

-- The bit operations are those of infinite two's complement: ~(-n - 1) is n.
unfoldable pub lnot : ℤ → ℤ
lnot (pos a) = negsuc a
lnot (negsuc a) = pos a

unfoldable pub land : ℤ → ℤ → ℤ
land (pos a) (pos b) = pos (bit_and a b)
land (pos a) (negsuc b) = pos (and_not a b)
land (negsuc a) (pos b) = pos (and_not b a)
land (negsuc a) (negsuc b) = negsuc (bit_or a b)

unfoldable pub lor : ℤ → ℤ → ℤ
lor (pos a) (pos b) = pos (bit_or a b)
lor (pos a) (negsuc b) = negsuc (and_not b a)
lor (negsuc a) (pos b) = negsuc (and_not a b)
lor (negsuc a) (negsuc b) = negsuc (bit_and a b)

unfoldable pub lxor : ℤ → ℤ → ℤ
lxor (pos a) (pos b) = pos (bit_xor a b)
lxor (pos a) (negsuc b) = negsuc (bit_xor a b)
lxor (negsuc a) (pos b) = negsuc (bit_xor a b)
lxor (negsuc a) (negsuc b) = pos (bit_xor a b)

-- The bit pattern that a conversion to w bits keeps, and the signed value of a pattern.
abbrev pub wrap : ℤ → ℕ → ℕ
wrap (pos a) w = a % 2 ^ w
wrap (negsuc a) w = 2 ^ w - 1 - a % 2 ^ w

abbrev pub signed32 : ℕ → ℤ
signed32 p = if ltb p (2 ^ 31) then pos p else negsuc (2 ^ 32 - 1 - p)

abbrev pub signed64 : ℕ → ℤ
signed64 p = if ltb p (2 ^ 63) then pos p else negsuc (2 ^ 64 - 1 - p)

pub +ℤ_parts :
    (a b : ℤ)
    → pos_part (a +ℤ b) + neg_part a + neg_part b ≡ neg_part (a +ℤ b) + pos_part a + pos_part b
unfolding ◌+ℤ◌
+ℤ_parts a b = ground arith

pub -ℤ_parts :
    (a b : ℤ)
    → pos_part (a -ℤ b) + neg_part a + pos_part b ≡ neg_part (a -ℤ b) + pos_part a + neg_part b
unfolding ◌-ℤ◌
-ℤ_parts a b = ground arith

pub eq_of_parts : (a b : ℤ) → pos_part a + neg_part b ≡ pos_part b + neg_part a → a ≡ b
eq_of_parts a b h = ground arith

pub pos-add : (a b : ℕ) → pos a +ℤ pos b ≡ pos (a + b)
unfolding ◌+ℤ◌
pos-add a b = ground arith

pub pos-mul : (a b : ℕ) → pos a *ℤ pos b ≡ pos (a * b)
unfolding ◌*ℤ◌
pos-mul a b = ground arith
