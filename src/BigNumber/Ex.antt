-- ===== src/BigNumber/Ex.antt =====
-- bignumber_v1.0/bignumber_ex.go: the Number type. `v` is the pointer V, none where it is nil.
use bclib.Base.{ℕ, zero, suc, ◌+◌, Bool, true, false, Option, some, ◌∷◌, ◌==◌, if◌then◌else◌}
use bclib.Go.Result.{Result, ok, panic, deref, nil_pointer, ◌>>=◌}
use bclib.Go.Int.{
  ℤ, pos, negsuc, abs, cmp as int_cmp, ediv, emod, exp as int_exp, land, ◌+ℤ◌, ◌-ℤ◌, ◌*ℤ◌,
}
use bclib.Go.Bytes.{of_bytes, to_bytes}
use bclib.Go.Text.{Bytes}
use bclib.BigNumber.Wrap.{set_bytes as int_set_bytes}

pub record Number : Type 0 where
  pub v : Option ℤ

abbrev pub num : ℤ → Number
num z = record { v = some z }

abbrev pub val : Number → Result ℤ
val x = deref x.v nil_pointer

abbrev pub binary : (ℤ → ℤ → ℤ) → Number → Number → Result Number
binary op x y = do a ← val x; b ← val y; ok (num (op a b))

abbrev pub dividing : (ℤ → ℤ → ℤ) → Number → Number → Result Number
dividing op x y = do
  a ← val x
  b ← val y
  if abs b == 0 then panic "division by zero" else ok (num (op a b))

unfoldable pub n : ℤ → Number
n x = num x

unfoldable pub mul : Number → Number → Result Number
mul x y = binary ◌*ℤ◌ x y

unfoldable pub new_number_long : ℤ → ℤ → Result Number
unfolding mul
new_number_long b d = mul (num b) (num d)

unfoldable pub new_number_long_long : ℤ → ℤ → ℤ → Result Number
unfolding mul
new_number_long_long b d1 d2 = do x ← mul (num b) (num d1); mul x (num d2)

-- The pointer itself, which may be nil.
unfoldable pub new_number_big_int : Option ℤ → Number
new_number_big_int x = record { v = x }

unfoldable pub n_bytes : Bytes → Number
n_bytes x = num (pos (of_bytes x))

unfoldable pub cmp : Number → Number → Result ℤ
cmp x y = do a ← val x; b ← val y; ok (int_cmp a b)

unfoldable pub cmp_ : Number → ℤ → Result ℤ
unfolding cmp n
cmp_ x y = cmp x (n y)

unfoldable pub add : Number → Number → Result Number
add x y = binary ◌+ℤ◌ x y

unfoldable pub add_ : Number → ℤ → Result Number
unfolding n
add_ x y = add x (n y)

unfoldable pub sub : Number → Number → Result Number
sub x y = binary ◌-ℤ◌ x y

unfoldable pub sub_ : Number → ℤ → Result Number
unfolding n
sub_ x y = sub x (n y)

unfoldable pub mul_ : Number → ℤ → Result Number
unfolding n
mul_ x y = mul x (n y)

unfoldable pub div : Number → Number → Result Number
div x y = dividing ediv x y

unfoldable pub div_ : Number → ℤ → Result Number
unfolding n
div_ x y = div x (n y)

unfoldable pub modulo : Number → Number → Result Number
modulo x y = dividing emod x y

unfoldable pub mod_ : Number → ℤ → Result Number
unfolding n
mod_ x y = modulo x (n y)

unfoldable pub sq : Number → Result Number
sq x = mul x x

abbrev pub is_negative_sign : ℤ → Bool
is_negative_sign (pos c) = false
is_negative_sign (negsuc c) = true

-- `for z.Cmp(y) < 0 { y = z; z = x.Div(z).Add(z).Div_(2) }; return y`, on fuel.
unfoldable pub sqrt_loop : ℕ → Number → Number → Number → Result Number
sqrt_loop zero x y z = panic "out of fuel"
sqrt_loop (suc fuel) x y z =
    let round = (do q ← div x z; s ← add q z; z' ← div_ s (pos 2); sqrt_loop fuel x z z') in
    do c ← cmp z y; if is_negative_sign c then round else ok y

unfoldable pub sqrt : Number → Result Number
sqrt x = do x' ← add_ x (pos 1); z ← div_ x' (pos 2); a ← val x; sqrt_loop (abs a + 1) x x z

unfoldable pub and_by_bits : Number → Number → Result Number
and_by_bits x y = binary land x y

unfoldable pub exp : Number → Number → Result Number
exp x y = binary int_exp x y

-- SetBytes sets z.V in place, and returns z.
unfoldable pub set_bytes : Number → Bytes → Result Number
unfolding int_set_bytes
set_bytes z buf = do old ← val z; ok (num (int_set_bytes buf))

abbrev pub sign_byte : ℤ → ℕ
sign_byte (pos a) = 0x0
sign_byte (negsuc a) = 0xFF

unfoldable pub bytes : Number → Result Bytes
bytes x = do z ← val x; ok (sign_byte z ∷ to_bytes (abs z))
