-- ===== src/Bn/Sqrt/Newton.antt =====
-- The iterates of Sqrt.
use native.Mathlib.Nat.{mul-le-mul_left, div-add-mod, mod-lt}
use bclib.Base.{
  ℕ, zero, suc, ◌+◌, ◌-◌, ◌*◌, ◌/◌, ◌≤◌, ◌<◌, ◌≡◌, refl, ap, ◌∙◌, Bool, false, ◌⊎◌, inl, inr, arith,
  ltb, ltb→lt, if◌then◌else◌, Bool-cases,
}
use bclib.Go.Result.{Result, ok, panic, err, ◌>>=◌}
use bclib.Go.Int.{ℤ, pos, negsuc, ediv, pos-add}
use bclib.Bn.{Number, num, cmp, cmp_i, n, new_number, is_negative, is_negative_sign}
use bclib.Bn.Arith.{add, add_i, div, div_i}
use bclib.Bn.Sqrt.{sqrt_loop, sqrt}

-- The next iterate behind `c`.
abbrev newton : ℕ → ℕ → ℕ
newton x c = (x / c + c) / 2

mean_square : (a d : ℕ) → 4 * (a * (a + d)) ≤ (a + (a + d)) * (a + (a + d))
mean_square a d = omega arith

mean : (a b : ℕ) → 4 * (a * b) ≤ (a + b) * (a + b)
mean a b = elim (le_total a b) [ inl h ↦ below a b h | inr h ↦ omega (arith, below b a h) ]
  where
    le_total : (k l : ℕ) → (k ≤ l) ⊎ (l ≤ k)
    le_total k l = omega arith

    below : (k l : ℕ) → k ≤ l → 4 * (k * l) ≤ (k + l) * (k + l)
    below k l h = let e : k + (l - k) ≡ l = omega arith in rw e at (mean_square k (l - k))

-- No iterate falls below the root.
newton_high : (x c : ℕ) → 0 < c → x < (newton x c + 1) * (newton x c + 1)
newton_high x c h =
    let q = x / c in
    let w = newton x c in
    omega (
      arith,
      ap (λ (t : ℕ). t) (div-add-mod x c),
      mod-lt x h,
      mean (q + 1) c,
      square_mono (q + 1 + c) (2 * w + 2) (omega arith),
    )
  where
    square_mono : (k l : ℕ) → k ≤ l → k * k ≤ l * l
    square_mono k l g = grind arith

-- An iterate that does not go on falling is not above the root.
newton_low : (x c : ℕ) → 0 < c → c ≤ newton x c → c * c ≤ x
newton_low x c h g =
    let q = x / c in
    let reach : c ≤ q = omega arith in omega (arith, div-add-mod x c, mul-le-mul_left c reach)

abbrev nat : ℕ → Number
nat a = num (pos a)

is_lower : (z y : ℕ) → (cmp (nat z) (nat y) >>= λ c. ok (is_negative_sign c)) ≡ ok (ltb z y)
unfolding cmp
is_lower z y = ground arith

div-nat : (a b : ℕ) → 0 < b → div (nat a) (nat b) ≡ ok (nat (a / b))
unfolding div ediv
div-nat a (suc b) h = ground arith
div-nat a zero h = absurd (omega arith)

add-nat : (a b : ℕ) → add (nat a) (nat b) ≡ ok (nat (a + b))
unfolding add
add-nat a b = ap (λ k. ok (num k)) (pos-add a b)

halve_nat : (a : ℕ) → div_i (nat a) (pos 2) ≡ ok (nat (a / 2))
unfolding div_i new_number n
halve_nat a = div-nat a 2 (omega arith)

sqrt_loop_step :
    (fuel x y z : ℕ)
    → 0 < z
    → sqrt_loop (suc fuel) (nat x) (nat y) (nat z)
      ≡ (if ltb z y then sqrt_loop fuel (nat x) (nat z) (nat (newton x z)) else ok (nat y))
unfolding sqrt_loop
sqrt_loop_step fuel x y z h =
    rw (div-nat x z h, add-nat (x / z) z, halve_nat (x / z + z))
      (tested (cmp (nat z) (nat y)) _ _ (is_lower z y))
  where
    tested :
        (r : Result ℤ) {b : Bool} (go stop : Result Number)
        → (r >>= λ c. ok (is_negative_sign c)) ≡ ok b
        → (r >>= λ c. if is_negative_sign c then go else stop) ≡ (if b then go else stop)
    tested (ok c) go stop e = ground arith
    tested (err c) go stop e = cc
    tested (panic c) go stop e = cc

positive_root : (x z : ℕ) → 0 < x → x < (z + 1) * (z + 1) → 0 < z
positive_root x zero h k = absurd (omega arith)
positive_root x (suc z) h k = omega arith

abbrev Root : ℕ → Result Number → Type 0
Root x r = (w : ℕ) × (r ≡ ok (nat w)) × (w * w ≤ x) × (x < (w + 1) * (w + 1))

sqrt_loop-Root :
    (fuel x y z : ℕ)
    → 0 < x
    → y < fuel
    → x < (y + 1) * (y + 1)
    → x < (z + 1) * (z + 1)
    → (y ≤ z → y * y ≤ x)
    → Root x (sqrt_loop fuel (nat x) (nat y) (nat z))
sqrt_loop-Root zero x y z hx hf hy hz stop = absurd (omega arith)
sqrt_loop-Root (suc fuel) x y z hx hf hy hz stop =
    let positive : 0 < z = positive_root x z hx hz in
    rw (sqrt_loop_step fuel x y z positive) (elim (Bool-cases (ltb z y)) [
      | inl lower ↦ rw lower (
          sqrt_loop-Root fuel x z (newton x z) hx (omega (arith, ltb→lt z y lower)) hz
            (newton_high x z positive) (newton_low x z positive))
      | inr last ↦ rw last (y, refl, stop (ground arith), hy)
    ])

start_high : (x : ℕ) → x < ((x + 1) / 2 + 1) * ((x + 1) / 2 + 1)
start_high x = let c = (x + 1) / 2 in let g : x ≤ 2 * c = omega arith in omega arith

start_low : (x : ℕ) → x ≤ (x + 1) / 2 → x * x ≤ x
start_low zero h = omega arith
start_low (suc zero) h = omega arith
start_low (suc (suc x)) h = absurd (omega arith)

not_negative : (x : ℕ) → is_negative (nat x) ≡ ok false
unfolding is_negative cmp_i n new_number
not_negative x = ground arith

increment_nat : (x : ℕ) → add_i (nat x) (pos 1) ≡ ok (nat (x + 1))
unfolding add_i new_number n
increment_nat x = add-nat x 1

sqrt_start : (x : ℕ) → sqrt (nat x) ≡ sqrt_loop (x + 0 + 1) (nat x) (nat x) (nat ((x + 1) / 2))
unfolding sqrt
sqrt_start x = rw (not_negative x, increment_nat x, halve_nat (x + 1))

sqrt_loop_zero : sqrt_loop 1 (nat 0) (nat 0) (nat 0) ≡ ok (nat 0)
unfolding sqrt_loop cmp
sqrt_loop_zero = refl

-- For every number x ≥ 0 the method returns, within its fuel, the w with w² ≤ x < (w + 1)².
pub sqrt-nat :
    (x : ℕ) → (w : ℕ) × (sqrt (nat x) ≡ ok (nat w)) × (w * w ≤ x) × (x < (w + 1) * (w + 1))
sqrt-nat zero = (0, sqrt_start 0 ∙ sqrt_loop_zero, omega arith, omega arith)
sqrt-nat (suc x) =
    let y = suc x in
    rw (sqrt_start y) (
      sqrt_loop-Root (y + 0 + 1) y y ((y + 1) / 2) (omega arith) (omega arith) (omega arith)
        (start_high y) (start_low y))

-- On a negative number it panics.
pub sqrt-negative : (x : ℕ) → sqrt (num (negsuc x)) ≡ panic "square root of negative number"
unfolding sqrt is_negative cmp_i n new_number
sqrt-negative x = ground arith
