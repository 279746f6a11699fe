-- ===== src/BigNumber/Laws.antt =====
-- What the older package does otherwise than package bn, and what it shares with it.
use bclib.Base.{
  ℕ, zero, suc, ◌+◌, ◌^◌, ◌<◌, ◌≡◌, refl, ap, ◌≢◌, false, [], ◌∷◌, arith, ◌==◌, Bool-cases, inl,
  inr,
}
use bclib.Go.Result.{ok}
use bclib.Go.Int.{ℤ, pos, negsuc, ediv, ◌+ℤ◌}
use bclib.Go.Bytes.{of_bytes-put_uint}
use bclib.Go.Text.{Bytes}
use bclib.Bn.Codec.{nsbytes, set_bytes as bn_set_bytes}
use bclib.Bn.{num as bn_num}
use bclib.BigNumber.Wrap.{uint_to_big_int, set_bytes as int_set_bytes}
use bclib.BigNumber.Ex.{Number, is_negative_sign, num, sqrt, sqrt_loop, add_, div_, cmp, add, div}

-- The conversion of a uint64 keeps its value.
pub uint_to_big_int_value : (val : ℕ) → val < 2 ^ 64 → uint_to_big_int val ≡ pos val
unfolding uint_to_big_int
uint_to_big_int_value val h = ap pos (of_bytes-put_uint 8 val h)

-- Except on the one byte 0xFF the two packages read the same number from signed bytes.
pub set_bytes_agree : (buf : Bytes) → buf ≢ 0xFF ∷ [] → nsbytes buf ≡ bn_num (int_set_bytes buf)
unfolding nsbytes bn_set_bytes int_set_bytes
set_bytes_agree [] h = refl
set_bytes_agree (b ∷ []) h = elim (Bool-cases (b == 0xFF)) [
  | inl e ↦ absurd (h (ground arith))
  | inr e ↦ rw e
]
set_bytes_agree (b ∷ c ∷ bs) h = refl

stops :
    (fuel : ℕ) (x y z : Number) (c : ℤ)
    → cmp z y ≡ ok c
    → is_negative_sign c ≡ false
    → sqrt_loop (suc fuel) x y z ≡ ok y
unfolding sqrt_loop
stops fuel x y z c e h = rw (e, h)

-- Half of a negative number, rounded down, is not below it.
half_above :
    (x : ℕ)
    → (c : ℤ) × (cmp (num (ediv (negsuc x +ℤ pos 1) (pos 2))) (num (negsuc x)) ≡ ok c)
      × (is_negative_sign c ≡ false)
unfolding cmp ediv ◌+ℤ◌
half_above zero = (pos 1, refl, refl)
half_above (suc k) = (pos 1, ground arith, refl)

-- Sqrt returns a negative number itself.
pub sqrt-negative_self : (x : ℕ) → sqrt (num (negsuc x)) ≡ ok (num (negsuc x))
unfolding sqrt add_ div_ add div
sqrt-negative_self x =
    let (c, e, h) = half_above x in
    let fuel : 0 + suc x + 1 ≡ suc (suc x) = omega arith in rw fuel (stops (suc x) _ _ _ c e h)
