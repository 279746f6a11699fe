-- ===== src/Bn/Division.antt =====
-- Div and Mod together.
use native.Mathlib.Nat.{div-add-mod, mod-lt}
use bclib.Base.{suc, ◌-◌, ◌<◌, ◌≡◌, refl, sym, arith}
use bclib.Go.Result.{ok, panic}
use bclib.Go.Int.{ℤ, pos, negsuc, abs, ediv, emod, ◌*ℤ◌, ◌+ℤ◌, ◌≤ℤ◌}
use bclib.Bn.{num}
use bclib.Bn.Arith.{div, modulo}

euclid : (a b : ℤ) → 0 < abs b → b *ℤ ediv a b +ℤ emod a b ≡ a
unfolding ediv emod ◌*ℤ◌ ◌+ℤ◌
euclid (pos a) (pos b) h = ground (arith, div-add-mod a b)
euclid (pos a) (negsuc b) h = ground (arith, div-add-mod a (suc b))
euclid (negsuc a) (pos b) h = ground (arith, div-add-mod a b, mod-lt a {m = b})
euclid (negsuc a) (negsuc b) h = ground (arith, div-add-mod a (suc b), mod-lt a {m = suc b})

remainder_bounds : (a b : ℤ) → 0 < abs b → (pos 0 ≤ℤ emod a b) × (emod a b ≤ℤ pos (abs b - 1))
unfolding emod
remainder_bounds (pos a) b h = ground (arith, mod-lt a {m = abs b})
remainder_bounds (negsuc a) b h = ground (arith, mod-lt a {m = abs b})

-- For a divisor that is not zero Div and Mod return the q and r with a = b * q + r and
-- 0 ≤ r < |b|.
pub division :
    (a b : ℤ)
    → 0 < abs b
    → (q : ℤ) × (r : ℤ) × (div (num a) (num b) ≡ ok (num q))
      × (modulo (num a) (num b) ≡ ok (num r))
      × (a ≡ b *ℤ q +ℤ r)
      × (pos 0 ≤ℤ r)
      × (r ≤ℤ pos (abs b - 1))
unfolding div modulo
division a b h = (
  ediv a b,
  emod a b,
  ground arith,
  ground arith,
  sym (euclid a b h),
  (remainder_bounds a b h).0,
  (remainder_bounds a b h).1,
)

-- A zero divisor makes both panic.
pub division_by_zero :
    (a : ℤ)
    → (div (num a) (num (pos 0)) ≡ panic "division by zero")
      × (modulo (num a) (num (pos 0)) ≡ panic "division by zero")
unfolding div modulo
division_by_zero a = (refl, refl)
