-- ===== src/Bn/Codec.antt =====
-- bn/bignumber.go: signed bytes. The first byte 0xFF stands for a negative number.
pub mod RoundTrip
use bclib.Base.{ℕ, Option, none, some, [], ◌∷◌, ◌==◌, if◌then◌else◌}
use bclib.Go.Int.{ℤ, pos, negsuc, neg, abs}
use bclib.Go.Bytes.{of_bytes, to_bytes}
use bclib.Go.Text.{Bytes}
use bclib.Bn.{Number, num}

abbrev pub sign_byte : ℤ → ℕ
sign_byte (pos a) = 0x0
sign_byte (negsuc a) = 0xFF

-- none is the nil slice.
unfoldable pub bytes : Number → Option Bytes
bytes x = elim x.v [ none ↦ none | some z ↦ some (sign_byte z ∷ to_bytes (abs z)) ]

abbrev pub or_zero : Option ℤ → ℤ
or_zero none = pos 0
or_zero (some z) = z

-- What the bytes make of the number; an empty slice leaves it.
abbrev pub assigned : ℤ → Bytes → ℤ
assigned z [] = z
assigned z (b ∷ bs) = if b == 0xFF then neg (pos (of_bytes bs)) else pos (of_bytes (b ∷ bs))

-- `SetBytes` sets x.V in place: the result is the new x.
unfoldable pub set_bytes : Number → Bytes → Number
set_bytes x buf = num (assigned (or_zero x.v) buf)

unfoldable pub nsbytes : Bytes → Number
unfolding set_bytes
nsbytes x = set_bytes (num (pos 0)) x

unfoldable pub nsbs : Bytes → Number
unfolding nsbytes
nsbs bs = nsbytes bs
