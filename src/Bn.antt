-- ===== src/Bn.antt =====
-- bn/bignumber.go: the Number type, its constructors and comparisons. `v` is the pointer V, none
-- where it is nil; an operation on a nil V panics. Values of type int64 are integers.
pub mod Arith
pub mod Sqrt
pub mod Codec
pub mod Text
pub mod Order
pub mod Division
mod Tests
use bclib.Base.{
  ℕ, ◌≡◌, Bool, true, false, ◌&&◌, Option, none, some, List, [], ◌∷◌, not, ltb, leb, ◌==◌,
}
use bclib.Go.Result.{Result, ok, panic, deref, nil_pointer, ◌>>=◌}
use bclib.Go.Int.{ℤ, pos, negsuc, cmp as int_cmp, ◌*ℤ◌}
use bclib.Go.Bytes.{of_bytes, of_bytes_from}
use bclib.Go.Text.{Bytes}

pub record Number : Type 0 where
  pub v : Option ℤ

abbrev pub num : ℤ → Number
num z = record { v = some z }

-- The integer behind V.
abbrev pub val : Number → Result ℤ
val x = deref x.v nil_pointer

-- `z.V.Op(x.V, y.V)` into a fresh z.
abbrev pub binary : (ℤ → ℤ → ℤ) → Number → Number → Result Number
binary op x y = do a ← val x; b ← val y; ok (num (op a b))

unfoldable pub new_number : ℤ → Number
new_number x = num x

unfoldable pub n : ℤ → Number
unfolding new_number
n x = new_number x

unfoldable pub mul : Number → Number → Result Number
mul x y = binary ◌*ℤ◌ x y

unfoldable pub new_number_long : ℤ → ℤ → Result Number
unfolding mul
new_number_long b d = mul (num b) (num d)

unfoldable pub n1 : ℤ → ℤ → Result Number
unfolding new_number_long
n1 b d = new_number_long b d

unfoldable pub new_number_long_long : ℤ → ℤ → ℤ → Result Number
unfolding mul
new_number_long_long b d1 d2 = do x ← mul (num b) (num d1); mul x (num d2)

unfoldable pub n2 : ℤ → ℤ → ℤ → Result Number
unfolding new_number_long_long
n2 b d1 d2 = new_number_long_long b d1 d2

-- `y := *x` panics on a nil pointer.
unfoldable pub new_number_big_int : Option ℤ → Result Number
new_number_big_int x = do y ← deref x nil_pointer; ok (num y)

unfoldable pub nb : Option ℤ → Result Number
unfolding new_number_big_int
nb x = new_number_big_int x

unfoldable pub n_bytes : Bytes → Number
n_bytes bs = num (pos (of_bytes bs))

unfoldable pub nbs : Bytes → Number
unfolding n_bytes
nbs bs = n_bytes bs

unfoldable pub value : Number → Option ℤ
value x = x.v

unfoldable pub cmp : Number → Number → Result ℤ
cmp x y = do a ← val x; b ← val y; ok (int_cmp a b)

unfoldable pub cmp_i : Number → ℤ → Result ℤ
unfolding n new_number
cmp_i x y = do a ← val x; b ← val (n y); ok (int_cmp a b)

-- The sign tests on the result of a comparison.
abbrev pub is_zero_sign : ℤ → Bool
is_zero_sign (pos c) = c == 0
is_zero_sign (negsuc c) = false

abbrev pub is_positive_sign : ℤ → Bool
is_positive_sign (pos c) = ltb 0 c
is_positive_sign (negsuc c) = false

abbrev pub is_negative_sign : ℤ → Bool
is_negative_sign (pos c) = false
is_negative_sign (negsuc c) = true

abbrev test : (ℤ → Bool) → Result ℤ → Result Bool
test t r = do c ← r; ok (t c)

unfoldable pub is_zero : Number → Result Bool
unfolding cmp_i
is_zero x = test is_zero_sign (cmp_i x (pos 0))

unfoldable pub is_positive : Number → Result Bool
unfolding cmp_i
is_positive x = test is_positive_sign (cmp_i x (pos 0))

unfoldable pub is_negative : Number → Result Bool
unfolding cmp_i
is_negative x = test is_negative_sign (cmp_i x (pos 0))

unfoldable pub is_equal_i : Number → ℤ → Result Bool
unfolding cmp_i
is_equal_i x y = test is_zero_sign (cmp_i x y)

unfoldable pub is_equal : Number → Number → Result Bool
unfolding cmp
is_equal x y = test is_zero_sign (cmp x y)

unfoldable pub is_greater_than_i : Number → ℤ → Result Bool
unfolding cmp_i
is_greater_than_i x y = test is_positive_sign (cmp_i x y)

unfoldable pub is_greater_than : Number → Number → Result Bool
unfolding cmp
is_greater_than x y = test is_positive_sign (cmp x y)

unfoldable pub is_less_than_i : Number → ℤ → Result Bool
unfolding cmp_i
is_less_than_i x y = test is_negative_sign (cmp_i x y)

unfoldable pub is_less_than : Number → Number → Result Bool
unfolding cmp
is_less_than x y = test is_negative_sign (cmp x y)

unfoldable pub is_gei : Number → ℤ → Result Bool
unfolding cmp_i
is_gei x y = test (λ c. not (is_negative_sign c)) (cmp_i x y)

unfoldable pub is_ge : Number → Number → Result Bool
unfolding cmp
is_ge x y = test (λ c. not (is_negative_sign c)) (cmp x y)

unfoldable pub is_lei : Number → ℤ → Result Bool
unfolding cmp_i
is_lei x y = test (λ c. not (is_positive_sign c)) (cmp_i x y)

unfoldable pub is_le : Number → Number → Result Bool
unfolding cmp
is_le x y = test (λ c. not (is_positive_sign c)) (cmp x y)
