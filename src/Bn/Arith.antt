-- ===== src/Bn/Arith.antt =====
-- bn/bignumber.go: arithmetic and bit operations, each into a fresh Number.
use bclib.Base.{ℕ, ◌==◌, if◌then◌else◌}
use bclib.Go.Result.{Result, ok, panic, ◌>>=◌}
use bclib.Go.Int.{
  ℤ, abs, ◌+ℤ◌, ◌-ℤ◌, ediv, emod, exp as int_exp, lsh as int_lsh, rsh as int_rsh, lnot, land, lor,
  lxor,
}
use bclib.Bn.{Number, num, val, binary, n, mul}

unfoldable pub add : Number → Number → Result Number
add x y = binary ◌+ℤ◌ x y

unfoldable pub add_i : Number → ℤ → Result Number
unfolding add n
add_i x y = add x (n y)

unfoldable pub sub : Number → Number → Result Number
sub x y = binary ◌-ℤ◌ x y

unfoldable pub sub_i : Number → ℤ → Result Number
unfolding sub n
sub_i x y = sub x (n y)

unfoldable pub mul_i : Number → ℤ → Result Number
unfolding mul n
mul_i x y = mul x (n y)

-- `Int.Div` and `Int.Mod` panic on a zero divisor.
abbrev pub dividing : (ℤ → ℤ → ℤ) → Number → Number → Result Number
dividing op x y = do
  a ← val x
  b ← val y
  if abs b == 0 then panic "division by zero" else ok (num (op a b))

unfoldable pub div : Number → Number → Result Number
div x y = dividing ediv x y

unfoldable pub div_i : Number → ℤ → Result Number
unfolding div n
div_i x y = div x (n y)

unfoldable pub modulo : Number → Number → Result Number
modulo x y = dividing emod x y

unfoldable pub mod_i : Number → ℤ → Result Number
unfolding modulo n
mod_i x y = modulo x (n y)

unfoldable pub sq : Number → Result Number
unfolding mul
sq x = mul x x

unfoldable pub exp : Number → Number → Result Number
exp x y = binary int_exp x y

unfoldable pub lsh : Number → ℕ → Result Number
lsh x k = do a ← val x; ok (num (int_lsh a k))

unfoldable pub rsh : Number → ℕ → Result Number
rsh x k = do a ← val x; ok (num (int_rsh a k))

unfoldable pub bit_and : Number → Number → Result Number
bit_and x y = binary land x y

unfoldable pub bit_or : Number → Number → Result Number
bit_or x y = binary lor x y

unfoldable pub bit_xor : Number → Number → Result Number
bit_xor x y = binary lxor x y

unfoldable pub bit_not : Number → Result Number
bit_not x = do a ← val x; ok (num (lnot a))
