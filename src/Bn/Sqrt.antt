-- ===== src/Bn/Sqrt.antt =====
-- bn/bignumber.go: Sqrt, Newton's iteration. The loop takes fuel: `y` falls in each round, so one
-- round more than the number itself is enough.
pub mod Newton
use bclib.Base.{ℕ, zero, suc, ◌+◌, Bool, true, false, if◌then◌else◌}
use bclib.Go.Result.{Result, ok, panic, ◌>>=◌, ◌>>◌}
use bclib.Go.Int.{ℤ, pos, negsuc, abs}
use bclib.Bn.{Number, val, cmp, is_negative, is_negative_sign}
use bclib.Bn.Arith.{add, add_i, div, div_i}

-- `for z.Cmp(y) < 0 { y = z; z = x.Div(z).Add(z).DivI(2) }; return y`
unfoldable pub sqrt_loop : ℕ → Number → Number → Number → Result Number
sqrt_loop zero x y z = panic "out of fuel"
sqrt_loop (suc fuel) x y z =
    let round = (do q ← div x z; s ← add q z; z' ← div_i s (pos 2); sqrt_loop fuel x z z') in
    do c ← cmp z y; if is_negative_sign c then round else ok y

unfoldable pub sqrt : Number → Result Number
sqrt x = do
  negative ← is_negative x
  if negative
      then panic "square root of negative number"
      else (do x' ← add_i x (pos 1); z ← div_i x' (pos 2); a ← val x; sqrt_loop (abs a + 1) x x z)
