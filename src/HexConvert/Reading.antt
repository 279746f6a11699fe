-- ===== src/HexConvert/Reading.antt =====
-- What the hexadecimal parsers accept, and what they make of it.
use bclib.Base.{
  ℕ, ◌-◌, ◌^◌, ◌%◌, ◌<◌, ◌≤◌, ◌≡◌, refl, sym, ap, ◌∙◌, false, not, String, [], ◌∷◌, ◌++◌, Option,
  none, some, leb, leb→le, le→leb, ◌==◌, length, length-append, length-replicate, drop, replicate,
  All-append, All-replicate, arith, Bool-cases, inl, inr,
}
use bclib.Go.Result.{Result, ok, err, panic, guard, ◌>>=◌, ◌>>◌, >>=-eq-ok}
use bclib.Go.Int.{ℤ}
use bclib.Go.Bytes.{
  IsByte, IsBytes, of_bytes, put_uint, length-put_uint, put_uint-IsBytes, of_bytes-put_uint,
  of_bytes-zeros, of_bytes-lt,
}
use bclib.Go.Text.{Bytes, text, has_prefix}
use bclib.Go.Format.{
  hex_value, hex_decode, hex_encode, hex_decode-hex_encode, hex_decode-cut, length-hex_encode,
  last_digit, join_digits,
}
use bclib.HexConvert.{
  param_error, hex_bytes, sized_uint, parse_hex_uint64, parse_hex_uint32, bytes_to_hex,
  uint64_to_hex, wrong_length, parse_hex_string,
}

hex_bytes-text :
    (s : Bytes) (field : String)
    → length s % 2 ≡ 0
    → hex_bytes (text "0x" ++ s) field ≡ ok (hex_decode s).bytes
unfolding hex_bytes has_prefix
hex_bytes-text s field h = rw h refl

even_digits : (bs : Bytes) → length (hex_encode bs) % 2 ≡ 0
even_digits bs = omega (arith, length-hex_encode bs)

hex_bytes-hex_encode :
    (bs : Bytes) (field : String)
    → IsBytes bs
    → hex_bytes (text "0x" ++ hex_encode bs) field ≡ ok bs
hex_bytes-hex_encode bs field h =
    hex_bytes-text (hex_encode bs) field (even_digits bs)
    ∙ ap (λ r. ok r.bytes) (hex_decode-hex_encode bs h)

sized_uint_fits :
    (width : ℕ) (field : String) (bs : Bytes)
    → length bs ≤ width
    → 0 < length bs
    → sized_uint width field bs ≡ ok (of_bytes bs)
unfolding sized_uint
sized_uint_fits width field bs fits some_bytes =
    rw (le→leb (length bs) width fits, not_empty) (ap ok (of_bytes-zeros (width - length bs) bs))
  where
    not_empty : (length bs == 0) ≡ false
    not_empty = ground arith

-- ParseHexUint64 reads back every 64-bit number that Uint64ToHex wrote.
pub parse_hex_uint64-uint64_to_hex :
    (val : ℕ) (field_name : String)
    → val < 2 ^ 64
    → parse_hex_uint64 (uint64_to_hex val) field_name ≡ ok val
unfolding parse_hex_uint64 uint64_to_hex
parse_hex_uint64-uint64_to_hex val field_name h =
    ap (λ r. r >>= sized_uint 8 field_name)
      (hex_bytes-hex_encode (put_uint 8 val) field_name (put_uint-IsBytes 8 val))
    ∙ sized_uint_fits 8 field_name (put_uint 8 val) (omega (arith, length-put_uint 8 val))
        (omega (arith, length-put_uint 8 val))
    ∙ ap ok (of_bytes-put_uint 8 val h)

-- ParseHexString gives back the bytes that BytesToHex wrote, where it is asked for their number or for no number.
pub parse_hex_string-bytes_to_hex :
    (val_bytes : Bytes) (field_name : String) (len_constraint : ℤ)
    → IsBytes val_bytes
    → wrong_length len_constraint val_bytes ≡ false
    → parse_hex_string (bytes_to_hex val_bytes) field_name len_constraint ≡ ok val_bytes
unfolding parse_hex_string bytes_to_hex
parse_hex_string-bytes_to_hex val_bytes field_name len_constraint h right =
    ap
      (λ r. r >>= (λ bs.
        guard (not (wrong_length len_constraint bs)) (param_error field_name "must be hex-chars")
        >> ok bs))
      (hex_bytes-hex_encode val_bytes field_name h)
    ∙ rw right refl

hex_value-lt : (c h : ℕ) → hex_value c ≡ some h → h < 16
unfolding hex_value
hex_value-lt c h e = ground arith

hex_decode-IsBytes : (s : Bytes) → IsBytes (hex_decode s).bytes
unfolding hex_decode
hex_decode-IsBytes [] = tt
hex_decode-IsBytes (c ∷ []) = elim (hex_value c) as (λ o. IsBytes (last_digit o).bytes) [
  | none ↦ tt
  | some h ↦ tt
]
hex_decode-IsBytes (c ∷ d ∷ s) = digits (hex_value c) refl (hex_value d) refl (hex_decode-IsBytes s)
  where
    digits :
        (hi : Option ℕ)
        → hex_value c ≡ hi
        → (lo : Option ℕ) → hex_value d ≡ lo
        → IsBytes (hex_decode s).bytes
        → IsBytes (join_digits hi lo (hex_decode s)).bytes
    digits none eh lo el rest = tt
    digits (some h) eh none el rest = tt
    digits (some h) eh (some l) el rest =
        (omega (arith, hex_value-lt c h eh, hex_value-lt d l el), rest)

ok_value : {A : Type 0} → A → Result A → A
ok_value d (ok a) = a
ok_value d (err e) = d
ok_value d (panic e) = d

not_ok : {A : Type 0} {m : String} {a : A} → err m ≡ ok a → ⊥
not_ok e = cc

hex_bytes-IsBytes :
    (hex_str : Bytes) (field : String) (bs : Bytes) → hex_bytes hex_str field ≡ ok bs → IsBytes bs
unfolding hex_bytes ok_value
hex_bytes-IsBytes hex_str field bs e = elim (Bool-cases (has_prefix hex_str (text "0x"))) [
  | inl good ↦ elim (Bool-cases (length (drop 2 hex_str) % 2 == 0)) [
    | inl even ↦
        rw (sym (ap (ok_value []) (rw (good, even) at e))) (hex_decode-IsBytes (drop 2 hex_str))
    | inr odd ↦ absurd (not_ok (rw (good, odd) at e))
  ]
  | inr bad ↦ absurd (not_ok (rw bad at e))
]

padded-lt :
    (width : ℕ) (bs : Bytes)
    → IsBytes bs
    → length bs ≤ width
    → of_bytes (replicate (width - length bs) 0 ++ bs) < 256 ^ width
padded-lt width bs h fits = rw (sym filled) at (
    of_bytes-lt (zeros ++ bs)
      (All-append IsByte zeros bs (All-replicate IsByte (width - length bs) 0 (omega arith)) h))
  where
    zeros : Bytes
    zeros = replicate (width - length bs) 0

    filled : width ≡ length (zeros ++ bs)
    filled = omega (arith, length-append zeros bs, length-replicate {A = ℕ} (width - length bs) 0)

sized_uint-lt :
    (width : ℕ) (field : String) (bs : Bytes) (val : ℕ)
    → IsBytes bs
    → sized_uint width field bs ≡ ok val
    → val < 256 ^ width
unfolding sized_uint ok_value
sized_uint-lt width field bs val h e = elim (Bool-cases (leb (length bs) width)) [
  | inl fits ↦ elim (Bool-cases (length bs == 0)) [
    | inl z ↦ absurd (not_ok (rw (fits, z) at e))
    | inr nz ↦
        rw (sym (ap (ok_value 0) (rw (fits, nz) at e)))
          (padded-lt width bs h (leb→le (length bs) width fits))
  ]
  | inr long ↦ absurd (not_ok (rw long at e))
]

-- A number that ParseHexUint64 returns fits into 64 bits, whatever the text is.
pub parse_hex_uint64-lt :
    (hex_str : Bytes) (field_name : String) (val : ℕ)
    → parse_hex_uint64 hex_str field_name ≡ ok val
    → val < 2 ^ 64
unfolding parse_hex_uint64 hex_bytes
parse_hex_uint64-lt hex_str field_name val e =
    let parts = >>=-eq-ok (hex_bytes hex_str field_name) (sized_uint 8 field_name) e in
    sized_uint-lt 8 field_name parts.0 val (hex_bytes-IsBytes hex_str field_name parts.0 parts.1)
      parts.2

-- A number that ParseHexUint32 returns fits into 32 bits, whatever the text is.
pub parse_hex_uint32-lt :
    (hex_str : Bytes) (field_name : String) (val : ℕ)
    → parse_hex_uint32 hex_str field_name ≡ ok val
    → val < 2 ^ 32
unfolding parse_hex_uint32 hex_bytes
parse_hex_uint32-lt hex_str field_name val e =
    let parts = >>=-eq-ok (hex_bytes hex_str field_name) (sized_uint 4 field_name) e in
    sized_uint-lt 4 field_name parts.0 val (hex_bytes-IsBytes hex_str field_name parts.0 parts.1)
      parts.2

-- ParseHexUint64 accepts a text that is not hexadecimal: behind the digits of one to eight bytes, a
-- byte that is no digit and everything after it are dropped, as long as the text has an even number
-- of characters.
pub parse_hex_uint64_ignores :
    (bs : Bytes) (c d : ℕ) (rest : Bytes) (field_name : String)
    → IsBytes bs
    → 0 < length bs
    → length bs ≤ 8
    → hex_value c ≡ none
    → length rest % 2 ≡ 0
    → parse_hex_uint64 (text "0x" ++ hex_encode bs ++ c ∷ d ∷ rest) field_name ≡ ok (of_bytes bs)
unfolding parse_hex_uint64
parse_hex_uint64_ignores bs c d rest field_name h some_bytes fits bad even =
    ap (λ r. r >>= sized_uint 8 field_name)
      (hex_bytes-text (hex_encode bs ++ c ∷ d ∷ rest) field_name even_all
        ∙ ap ok (hex_decode-cut bs c d rest h bad))
    ∙ sized_uint_fits 8 field_name bs fits some_bytes
  where
    even_all : length (hex_encode bs ++ c ∷ d ∷ rest) % 2 ≡ 0
    even_all =
        omega (arith, even, length-append (hex_encode bs) (c ∷ d ∷ rest), length-hex_encode bs)
