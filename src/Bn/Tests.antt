-- ===== src/Bn/Tests.antt =====
-- The theorems on package bn at concrete inputs.
use bclib.Go.Text.{Bytes, has_prefix}
use bclib.Base.{ℕ, ◌≢◌, true, some, ◌+◌, ◌*◌, ◌-◌, ◌≤◌, ◌<◌, ◌≡◌, refl, [], ◌∷◌, arith}
use bclib.Go.Result.{ok}
use bclib.Go.Int.{ℤ, pos, negsuc, abs, ediv, ◌+ℤ◌, ◌*ℤ◌, ◌≤ℤ◌}
use bclib.Bn.{num, is_negative, cmp, cmp_i, n, new_number}
use bclib.Bn.Arith.{div, modulo, add, add_i, div_i}
use bclib.Bn.Sqrt.{sqrt, sqrt_loop}
use bclib.Bn.Sqrt.Newton.{sqrt-nat}
use bclib.Bn.Division.{division}
use bclib.Bn.Text.{BigText, marshal_json, unmarshal_json}
use bclib.Bn.Text.Json.{IsDecimal, object_of, unmarshal_json-marshal_json}

sqrt-nat_example :
    (w : ℕ) × (sqrt (num (pos 26)) ≡ ok (num (pos w))) × (w * w ≤ 26) × (26 < (w + 1) * (w + 1))
sqrt-nat_example = sqrt-nat 26

root_of_26 : sqrt (num (pos 26)) ≡ ok (num (pos 5))
unfolding sqrt sqrt_loop is_negative cmp cmp_i add add_i div div_i n new_number ediv ◌+ℤ◌
root_of_26 = refl

division_example :
    (q : ℤ) × (r : ℤ) × (div (num (negsuc 6)) (num (pos 3)) ≡ ok (num q))
    × (modulo (num (negsuc 6)) (num (pos 3)) ≡ ok (num r))
    × (negsuc 6 ≡ pos 3 *ℤ q +ℤ r)
    × (pos 0 ≤ℤ r)
    × (r ≤ℤ pos (abs (pos 3) - 1))
division_example = division (negsuc 6) (pos 3) (omega arith)

abbrev first_of : Bytes → ℕ
first_of [] = 0
first_of (c ∷ s) = c

-- Numbers of one digit.
abbrev one_digit : BigText
one_digit = record {
  set_string = λ base s. (pos (first_of s - 48), true);
  string = λ z. (48 + abs z) ∷ [];
  trim_space = λ s. s;
}

digit_apart : ◌≢◌ {A = ℕ} 55 b':'
digit_apart e = omega arith

seven-IsDecimal : IsDecimal one_digit (pos 7)
unfolding has_prefix
seven-IsDecimal = record {
  read_back = refl;
  trimmed = refl;
  no_brace = refl;
  no_colon = (digit_apart, tt);
  trimmed_object = refl;
  trimmed_name = refl;
}

unmarshal_json-marshal_json_example :
    (unmarshal_json one_digit (marshal_json one_digit (some (num (pos 7)))) (num (pos 3))
      ≡ ok (num (pos 7)))
    × (unmarshal_json one_digit
          (object_of (marshal_json one_digit (some (num (pos 7)))))
          (num (pos 3))
        ≡ ok (num (pos 7)))
unmarshal_json-marshal_json_example =
    unmarshal_json-marshal_json one_digit (pos 7) seven-IsDecimal (num (pos 3))
