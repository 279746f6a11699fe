-- ===== src/Bn/Order.antt =====
-- The comparison methods together.
use bclib.Base.{◌≡◌, ◌↔◌, true, arith}
use bclib.Go.Result.{ok}
use bclib.Go.Int.{ℤ, ◌≤ℤ◌}
use bclib.Bn.{num, cmp, is_equal, is_less_than, is_le, is_greater_than, is_ge}

-- Equality, the two strict tests and the two others, on numbers whose V is there.
pub comparisons :
    (a b : ℤ)
    → ((is_equal (num a) (num b) ≡ ok true) ↔ (a ≡ b))
      × ((is_le (num a) (num b) ≡ ok true) ↔ (a ≤ℤ b))
      × ((is_less_than (num a) (num b) ≡ ok true) ↔ (¬ (b ≤ℤ a)))
      × (is_ge (num a) (num b) ≡ is_le (num b) (num a))
      × (is_greater_than (num a) (num b) ≡ is_less_than (num b) (num a))
unfolding is_equal is_le is_less_than is_ge is_greater_than cmp
comparisons a b = (
  (λ h. ground arith, λ h. ground arith),
  (λ h. ground arith, λ h. ground arith),
  (λ h k. ground arith, λ h. ground arith),
  ground arith,
  ground arith,
)
