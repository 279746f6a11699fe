-- ===== src/HexConvert/Tests.antt =====
-- The hexadecimal parsers at concrete texts.
use bclib.Base.{◌≡◌, refl, [], ◌∷◌, arith}
use bclib.Go.Result.{ok}
use bclib.Go.Bytes.{of_bytes_from}
use bclib.Go.Text.{Bytes, text, has_prefix}
use bclib.Go.Format.{hex_decode}
use bclib.HexConvert.{parse_hex_uint64, parse_hex_uint32, uint64_to_hex}
use bclib.HexConvert.Reading.{parse_hex_uint64-uint64_to_hex}

parse_hex_uint64-uint64_to_hex_example : parse_hex_uint64 (uint64_to_hex 1000) "nonce" ≡ ok 1000
parse_hex_uint64-uint64_to_hex_example = parse_hex_uint64-uint64_to_hex 1000 "nonce" (omega arith)

abbrev some_bytes : Bytes
some_bytes = 18 ∷ 171 ∷ []

read_12ab : parse_hex_uint64 (text "0x12ab") "gas" ≡ ok 4779
unfolding parse_hex_uint64 has_prefix hex_decode of_bytes_from
read_12ab = refl

read_short_12ab : parse_hex_uint32 (text "0x12ab") "gas" ≡ ok 4779
unfolding parse_hex_uint32 has_prefix hex_decode of_bytes_from
read_short_12ab = refl
