-- ===== src/Bn/Codec/RoundTrip.antt =====
-- Bytes and SetBytes together.
use mathlib.Core.Option.{some-injective}
use bclib.Base.{ℕ, suc, ◌+◌, ◌≡◌, sym, ap, ◌∙◌, some, ◌∷◌, arith}
use bclib.Go.Int.{ℤ, pos, negsuc, neg, abs}
use bclib.Go.Bytes.{of_bytes, of_bytes_from, to_bytes, of_bytes-to_bytes}
use bclib.Go.Text.{Bytes}
use bclib.Bn.{Number, num}
use bclib.Bn.Codec.{sign_byte, bytes, set_bytes, or_zero, assigned}

pub assigned_back : (old z : ℤ) → assigned old (sign_byte z ∷ to_bytes (abs z)) ≡ z
unfolding of_bytes_from
assigned_back old (pos a) = ap pos (ap of_bytes (ap to_bytes (plus_zero a)) ∙ of_bytes-to_bytes a)
  where
    plus_zero : (k : ℕ) → k + 0 ≡ k
    plus_zero k = omega arith
assigned_back old (negsuc a) = ap (λ k. neg (pos k)) (of_bytes-to_bytes (0 + suc a)) ∙ ground arith

-- Whatever a receiver held, it holds the number again whose bytes it is given.
set_bytes-bytes :
    (x : Number) (z : ℤ) (buf : Bytes) → bytes (num z) ≡ some buf → set_bytes x buf ≡ num z
unfolding bytes set_bytes
set_bytes-bytes x z buf e =
    ap (λ b. num (assigned (or_zero x.v) b)) (sym (some-injective _ _ e))
    ∙ ap num (assigned_back (or_zero x.v) z)
