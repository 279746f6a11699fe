-- ===== src/Socket/Varint.antt =====
-- encoding/binary: PutVarint and ReadVarint, on the bytes of a stream.
use native.Mathlib.Nat.{pow-suc}
use bclib.Base.{
  ℕ, zero, suc, ◌+◌, ◌*◌, ◌/◌, ◌%◌, ◌^◌, ◌<◌, ◌≡◌, refl, sym, ap, ◌∙◌, true, false, ◌&&◌, [], ◌∷◌,
  ◌++◌, arith, ltb, ◌==◌, length, if◌then◌else◌, Bool-cases, inl, inr,
}
use bclib.Go.Result.{Result, ok, err, ◌>>=◌, >>=-eq-ok}
use bclib.Go.Int.{ℤ, pos, negsuc}
use bclib.Go.Text.{Bytes}

-- Seven bits to a byte, the lowest first, with the top bit on all but the last. The buffer has ten
-- bytes.
unfoldable pub put_uvarint : ℕ → ℕ → Bytes
put_uvarint zero n = []
put_uvarint (suc room) n =
    let rest = (n % 128 + 128) ∷ put_uvarint room (n / 128) in if ltb n 128 then n ∷ [] else rest

abbrev pub zigzag : ℤ → ℕ
zigzag (pos n) = 2 * n
zigzag (negsuc n) = 2 * n + 1

abbrev pub unzigzag : ℕ → ℤ
unzigzag u = if u % 2 == 0 then pos (u / 2) else negsuc (u / 2)

unfoldable pub put_varint : ℤ → Bytes
unfolding put_uvarint
put_varint x = put_uvarint 10 (zigzag x)

-- The value and what is left of the stream. `i` bytes were read, and the next one counts `scale`.
unfoldable pub read_uvarint : ℕ → ℕ → ℕ → Bytes → Result (ℕ × Bytes)
read_uvarint i scale acc [] = err "EOF"
read_uvarint i scale acc (b ∷ s) =
    let more = read_uvarint (i + 1) (scale * 128) (acc + b % 128 * scale) s in
    if ltb b 128
    then (if (i == 9) && ltb 1 b
        then err "binary: varint overflows a 64-bit integer"
        else ok (acc + b * scale, s))
    else if i == 9
    then err "binary: varint overflows a 64-bit integer"
    else more

unfoldable pub read_varint : Bytes → Result (ℤ × Bytes)
unfolding read_uvarint
read_varint s = read_uvarint 0 1 0 s >>= λ (r : ℕ × Bytes). ok (unzigzag r.0, r.1)

scaled : (q r s : ℕ) → (q * 128 + r) * s ≡ r * s + q * (s * 128)
scaled q r s = omega arith

carry_on : (n s : ℕ) → n % 128 * s + n / 128 * (s * 128) ≡ n * s
carry_on n s = sym (scaled (n / 128) (n % 128) s) ∙ ap (λ k. k * s) (omega arith)

shrinks : (n f : ℕ) → n < 2 * 128 ^ suc f → n / 128 < 2 * 128 ^ f
shrinks n f h = omega (arith, h, pow-suc 128 f)

-- The tenth byte is at most 1.
last_small : (f i n : ℕ) → i + f ≡ 9 → n < 2 * 128 ^ f → ((i == 9) && ltb 1 n) ≡ false
last_small zero i n room h = ground arith
last_small (suc f) i n room h = ground arith

not_last : (f i : ℕ) → i + suc f ≡ 9 → (i == 9) ≡ false
not_last f i room = ground arith

continued : (n : ℕ) → ltb (n % 128 + 128) 128 ≡ false
continued n = ground arith

low_bits : (n : ℕ) → (n % 128 + 128) % 128 ≡ n % 128
low_bits n = omega arith

put_last :
    (f i n scale acc : ℕ) (rest : Bytes)
    → i + f ≡ 9
    → n < 2 * 128 ^ f
    → ltb n 128 ≡ true
    → read_uvarint i scale acc (put_uvarint (suc f) n ++ rest) ≡ ok (acc + n * scale, rest)
unfolding read_uvarint put_uvarint
put_last f i n scale acc rest room h small = rw (small, small, last_small f i n room h) refl

putting :
    (f n : ℕ)
    → ltb n 128 ≡ false
    → put_uvarint (suc f) n ≡ (n % 128 + 128) ∷ put_uvarint f (n / 128)
unfolding put_uvarint
putting f n big = rw big refl

reading :
    (f i n scale acc : ℕ) (s : Bytes)
    → i + suc f ≡ 9
    → read_uvarint i scale acc ((n % 128 + 128) ∷ s)
      ≡ read_uvarint (i + 1) (scale * 128) (acc + n % 128 * scale) s
unfolding read_uvarint
reading f i n scale acc s room = rw (continued n, not_last f i room, low_bits n) refl

put_more :
    (f i n scale acc : ℕ) (rest : Bytes)
    → i + suc f ≡ 9
    → ltb n 128 ≡ false
    → read_uvarint i scale acc (put_uvarint (suc (suc f)) n ++ rest)
      ≡ read_uvarint
          (i + 1)
          (scale * 128)
          (acc + n % 128 * scale)
          (put_uvarint (suc f) (n / 128) ++ rest)
put_more f i n scale acc rest room big =
    ap (λ p. read_uvarint i scale acc (p ++ rest)) (putting (suc f) n big)
    ∙ reading f i n scale acc (put_uvarint (suc f) (n / 128) ++ rest) room

-- What was put is read, with whatever follows it: at the byte before which `i` were read there is
-- room for `f` more.
read-put :
    (f i n scale acc : ℕ) (rest : Bytes)
    → i + f ≡ 9
    → n < 2 * 128 ^ f
    → read_uvarint i scale acc (put_uvarint (suc f) n ++ rest) ≡ ok (acc + n * scale, rest)
read-put zero i n scale acc rest room h = put_last zero i n scale acc rest room h (ground arith)
read-put (suc f) i n scale acc rest room h = elim (Bool-cases (ltb n 128)) [
  | inl small ↦ put_last (suc f) i n scale acc rest room h small
  | inr big ↦
      put_more f i n scale acc rest room big
      ∙ read-put f (i + 1) (n / 128) (scale * 128) (acc + n % 128 * scale) rest (omega arith)
          (shrinks n f h)
      ∙ ap (λ k. ok (k, rest)) (omega (arith, carry_on n scale))
]

unzigzag-zigzag : (x : ℤ) → unzigzag (zigzag x) ≡ x
unzigzag-zigzag (pos n) = ground arith
unzigzag-zigzag (negsuc n) = ground arith

-- A 64-bit integer.
abbrev pub IsInt64 : ℤ → Type 0
IsInt64 (pos n) = n < 2 ^ 63
IsInt64 (negsuc n) = n < 2 ^ 63

zigzag-lt : (x : ℤ) → IsInt64 x → zigzag x < 2 * 128 ^ 9
zigzag-lt (pos n) h = omega arith
zigzag-lt (negsuc n) h = omega arith

pub read_varint-put_varint :
    (x : ℤ) (rest : Bytes) → IsInt64 x → read_varint (put_varint x ++ rest) ≡ ok (x, rest)
unfolding read_varint put_varint
read_varint-put_varint x rest h =
    ap (λ (r : Result (ℕ × Bytes)). r >>= λ (q : ℕ × Bytes). ok (unzigzag q.0, q.1))
      (read-put 9 0 (zigzag x) 1 0 rest refl (zigzag-lt x h))
    ∙ ap (λ k. ok (unzigzag k, rest)) (omega arith)
    ∙ ap (λ y. ok (y, rest)) (unzigzag-zigzag x)

read_uvarint-shorter :
    (i scale acc : ℕ) (s rest : Bytes) (v : ℕ)
    → read_uvarint i scale acc s ≡ ok (v, rest)
    → length rest < length s
unfolding read_uvarint
read_uvarint-shorter i scale acc [] rest v e = cc
read_uvarint-shorter i scale acc (b ∷ s) rest v e =
    ground (arith, read_uvarint-shorter (i + 1) (scale * 128) (acc + b % 128 * scale) s rest v)

-- Reading takes at least one byte off the stream.
pub read_varint-shorter :
    (s rest : Bytes) (x : ℤ) → read_varint s ≡ ok (x, rest) → length rest < length s
unfolding read_varint
read_varint-shorter s rest x e =
    let r = >>=-eq-ok (read_uvarint 0 1 0 s) _ e in
    ground (arith, read_uvarint-shorter 0 1 0 s r.0.1 r.0.0)
