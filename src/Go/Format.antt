-- ===== src/Go/Format.antt =====
-- Numbers as text: strconv.FormatUint and FormatInt, and package encoding/hex.
use bclib.Base.{
  ℕ, zero, suc, ◌+◌, ◌-◌, ◌*◌, ◌/◌, ◌%◌, ◌<◌, ◌≡◌, refl, ◌&&◌, [], ◌∷◌, ◌++◌, arith, Option, none,
  some, ltb, leb, if◌then◌else◌, length, String,
}
use bclib.Go.Text.{Bytes}
use bclib.Go.Bytes.{IsBytes}
use bclib.Go.Int.{ℤ, pos, negsuc}

-- The digit characters 0-9 and a-z.
abbrev pub digit : ℕ → ℕ
digit d = if ltb d 10 then b'0' + d else b'a' + (d - 10)

format_loop : ℕ → ℕ → ℕ → Bytes → Bytes
format_loop zero base n acc = acc
format_loop (suc f) base n acc =
    let more = format_loop f base (n / base) (digit (n % base) ∷ acc) in
    if ltb n base then digit n ∷ acc else more

-- strconv.FormatUint(n, base), for a base from 2 to 36. Fuel n + 1 is enough.
unfoldable pub format_uint : ℕ → ℕ → Bytes
unfolding format_loop
format_uint n base = format_loop (n + 1) base n []

-- strconv.FormatInt, and big.Int's String for base 10.
unfoldable pub format_int : ℤ → ℕ → Bytes
unfolding format_uint
format_int (pos n) base = format_uint n base
format_int (negsuc n) base = b'-' ∷ format_uint (n + 1) base

-- The value of a hexadecimal digit.
unfoldable pub hex_value : ℕ → Option ℕ
hex_value c =
    if leb b'0' c && leb c b'9'
    then some (c - b'0')
    else if leb b'a' c && leb c b'f'
    then some (c - b'a' + 10)
    else if leb b'A' c && leb c b'F'
    then some (c - b'A' + 10)
    else none

-- hex.DecodeString returns what it decoded before the first fault, and the fault.
pub record Decoded : Type 0 where
  pub bytes : Bytes
  pub error : Option String

abbrev pub decoded_behind : ℕ → Decoded → Decoded
decoded_behind b r = record r { bytes = b ∷ r.bytes }

abbrev pub stopped : Decoded
stopped = record { bytes = []; error = some "encoding/hex: invalid byte" }

abbrev odd_length : Decoded
odd_length = record { bytes = []; error = some "encoding/hex: odd length hex string" }

abbrev pub join_digits : Option ℕ → Option ℕ → Decoded → Decoded
join_digits none lo rest = stopped
join_digits (some h) none rest = stopped
join_digits (some h) (some l) rest = decoded_behind (h * 16 + l) rest

abbrev pub last_digit : Option ℕ → Decoded
last_digit none = stopped
last_digit (some h) = odd_length

unfoldable pub hex_decode : Bytes → Decoded
unfolding hex_value
hex_decode [] = record { bytes = []; error = none }
hex_decode (c ∷ []) = last_digit (hex_value c)
hex_decode (c ∷ d ∷ s) = join_digits (hex_value c) (hex_value d) (hex_decode s)

-- hex.EncodeToString
unfoldable pub hex_encode : Bytes → Bytes
hex_encode [] = []
hex_encode (b ∷ s) = digit (b / 16) ∷ digit (b % 16) ∷ hex_encode s

hex_value-digit : (d : ℕ) → d < 16 → hex_value (digit d) ≡ some d
unfolding hex_value
hex_value-digit d h = ground arith

pub hex_decode-hex_encode :
    (s : Bytes) → IsBytes s → hex_decode (hex_encode s) ≡ record { bytes = s; error = none }
unfolding hex_decode hex_encode
hex_decode-hex_encode [] h = refl
hex_decode-hex_encode (b ∷ s) h =
    rw
      (
        hex_value-digit (b / 16) (omega (arith, h.0)),
        hex_value-digit (b % 16) (omega arith),
        hex_decode-hex_encode s h.1,
      )
      (λ i. record { bytes = joined i ∷ s; error = none })
  where
    joined : b / 16 * 16 + b % 16 ≡ b
    joined = omega arith

pub length-hex_encode : (s : Bytes) → length (hex_encode s) ≡ 2 * length s
unfolding hex_encode
length-hex_encode [] = omega arith
length-hex_encode (b ∷ s) = omega (arith, length-hex_encode s)

-- The digits in front of a byte that is none are decoded.
pub hex_decode-cut :
    (s : Bytes) (c d : ℕ) (rest : Bytes)
    → IsBytes s
    → hex_value c ≡ none
    → (hex_decode (hex_encode s ++ c ∷ d ∷ rest)).bytes ≡ s
unfolding hex_decode hex_encode
hex_decode-cut [] c d rest h e = rw e refl
hex_decode-cut (b ∷ s) c d rest h e =
    rw (hex_value-digit (b / 16) (omega (arith, h.0)), hex_value-digit (b % 16) (omega arith))
      (λ i. joined i ∷ hex_decode-cut s c d rest h.1 e i)
  where
    joined : b / 16 * 16 + b % 16 ≡ b
    joined = omega arith
