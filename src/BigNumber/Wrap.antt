-- ===== src/BigNumber/Wrap.antt =====
-- bignumber_v1.0/bigint_wrap.go: functions on big.Int values.
use bclib.Base.{ℕ, Bool, false, [], ◌∷◌, ◌==◌, if◌then◌else◌}
use bclib.Go.Result.{Result, ok, err, panic}
use bclib.Go.Int.{ℤ, pos, negsuc, neg, cmp, ediv, ◌+ℤ◌, ◌-ℤ◌, ◌*ℤ◌}
use bclib.Go.Bytes.{of_bytes, put_uint}
use bclib.Go.Text.{Bytes}

unfoldable pub compare : ℤ → ℤ → ℤ
compare v1 v2 = cmp v1 v2

unfoldable pub zero_int : ℤ
zero_int = pos 0

unfoldable pub add : ℤ → ℤ → ℤ
add v1 v2 = v1 +ℤ v2

unfoldable pub sub : ℤ → ℤ → ℤ
sub v1 v2 = v1 -ℤ v2

-- The dynamic type of the argument `m interface{}`: int, int8 to int64; uint, uint8 to uint32;
-- any other (uint64 among them).
pub data Operand : Type 0 where
  signed : ℤ → Operand
  unsigned : ℕ → Operand
  other : Operand

-- `rv.Int()` panics on a value of an unsigned kind.
unfoldable pub multi : ℤ → Operand → Result ℤ
multi v (signed m) = ok (v *ℤ m)
multi v (unsigned m) = panic "reflect: call of reflect.Value.Int on uint Value"
multi v other = err "Invalid Parameter"

unfoldable pub uint_to_big_int : ℕ → ℤ
uint_to_big_int val = pos (of_bytes (put_uint 8 val))

unfoldable pub safe_mul : ℤ → ℤ → ℤ
safe_mul x y = x *ℤ y

abbrev pub is_zero : ℤ → Bool
is_zero (pos c) = c == 0
is_zero (negsuc c) = false

unfoldable pub safe_div : ℤ → ℤ → ℤ
unfolding compare zero_int
safe_div x y = if is_zero (compare y zero_int) then pos 0 else ediv x y

-- 0xFF stands for a negative number only where more bytes follow.
unfoldable pub set_bytes : Bytes → ℤ
set_bytes [] = pos 0
set_bytes (b ∷ []) = pos (of_bytes (b ∷ []))
set_bytes (b ∷ c ∷ bs) =
    if b == 0xFF then neg (pos (of_bytes (c ∷ bs))) else pos (of_bytes (b ∷ c ∷ bs))
