-- ===== src/HexConvert.antt =====
-- utils/hexconvert.go: numbers and byte strings as text of hexadecimal digits behind "0x". A field's
-- name only goes into the text of an error.
pub mod Reading
mod Tests
use bclib.Base.{
  ℕ, ◌+◌, ◌-◌, ◌%◌, ◌≡◌, ◌&&◌, Bool, not, String, ◌++◌, leb, ltb, ◌==◌, length, drop, replicate,
  if◌then◌else◌,
}
use bclib.Go.Result.{Result, ok, err, guard, ◌>>=◌, ◌>>◌}
use bclib.Go.Int.{ℤ, pos, negsuc}
use bclib.Go.Bytes.{of_bytes, put_uint}
use bclib.Go.Text.{Bytes, text, has_prefix}
use bclib.Go.Format.{hex_decode, hex_encode}

abbrev pub append : String → String → String
append String.[] t = t
append (String.◌∷◌ c s) t = String.◌∷◌ c (append s t)

unfoldable pub param_error : String → String → String
param_error field_name err_info =
    append "{\"code\":-1, \"message\":\"Parameter '"
      (append field_name (append "' " (append err_info "\",\"data\":\"\"}")))

-- What the three parsers do first: the digits behind "0x". The error of hex.DecodeString is dropped,
-- so its bytes up to the first fault are used.
unfoldable pub hex_bytes : Bytes → String → Result Bytes
unfolding param_error
hex_bytes hex_str field_name = do
  guard (has_prefix hex_str (text "0x")) (param_error field_name "must begin with '0x'")
  guard (length (drop 2 hex_str) % 2 == 0)
      (param_error field_name "must be hex string with even length")
  ok (hex_decode (drop 2 hex_str)).bytes

-- The number in at most `width` bytes, with zeros put in front of fewer.
unfoldable pub sized_uint : ℕ → String → Bytes → Result ℕ
unfolding param_error
sized_uint width field_name bs = do
  guard (leb (length bs) width) (param_error field_name "is too large")
  guard (not (length bs == 0)) (param_error field_name "must not be null")
  ok (of_bytes (replicate (width - length bs) 0 ++ bs))

unfoldable pub parse_hex_uint64 : Bytes → String → Result ℕ
unfolding hex_bytes sized_uint
parse_hex_uint64 hex_str field_name = hex_bytes hex_str field_name >>= sized_uint 8 field_name

unfoldable pub parse_hex_uint32 : Bytes → String → Result ℕ
unfolding hex_bytes sized_uint
parse_hex_uint32 hex_str field_name = hex_bytes hex_str field_name >>= sized_uint 4 field_name

unfoldable pub bytes_to_hex : Bytes → Bytes
bytes_to_hex val_bytes = text "0x" ++ hex_encode val_bytes

unfoldable pub uint64_to_hex : ℕ → Bytes
uint64_to_hex val = text "0x" ++ hex_encode (put_uint 8 val)

-- `lenConstraint > 0 && len(hexBytes) != lenConstraint`
abbrev pub wrong_length : ℤ → Bytes → Bool
wrong_length (pos n) bs = ltb 0 n && not (length bs == n)
wrong_length (negsuc n) bs = Bool.false

-- The text of the error has the wanted number of digits in it, which is left out here.
unfoldable pub parse_hex_string : Bytes → String → ℤ → Result Bytes
unfolding hex_bytes
parse_hex_string hex_str field_name len_constraint = do
  bs ← hex_bytes hex_str field_name
  guard (not (wrong_length len_constraint bs)) (param_error field_name "must be hex-chars")
  ok bs
