-- ===== src/Go/Bytes.antt =====
-- Byte slices as numbers, big-endian: `Int.SetBytes`, `Int.Bytes` and encoding/binary.
use native.Mathlib.Nat.{mul-le-mul_right, pow-suc}
use bclib.Base.{
  ℕ, zero, suc, ◌+◌, ◌*◌, ◌/◌, ◌%◌, ◌^◌, ◌≤◌, ◌<◌, ◌≡◌, refl, ap, ◌∙◌, arith, List, [], ◌∷◌, ◌++◌,
  All, All-append, length, length-append, replicate, ◌==◌, if◌then◌else◌, Bool-cases, inl, inr,
}

abbrev pub IsByte : ℕ → Type 0
IsByte b = b < 256

abbrev pub IsBytes : List ℕ → Type 0
IsBytes bs = All IsByte bs

-- The number that the bytes write behind the number `acc`.
unfoldable pub of_bytes_from : ℕ → List ℕ → ℕ
of_bytes_from acc [] = acc
of_bytes_from acc (b ∷ bs) = of_bytes_from (acc * 256 + b) bs

abbrev pub of_bytes : List ℕ → ℕ
of_bytes bs = of_bytes_from 0 bs

-- The bytes of `n`, with no leading zero, in front of `acc`. Fuel `n` is enough.
to_bytes_loop : ℕ → ℕ → List ℕ → List ℕ
to_bytes_loop zero n acc = acc
to_bytes_loop (suc f) n acc =
    let rest = to_bytes_loop f (n / 256) ((n % 256) ∷ acc) in if n == 0 then acc else rest

unfoldable pub to_bytes : ℕ → List ℕ
unfolding to_bytes_loop
to_bytes n = to_bytes_loop n n []

-- The lowest `w` bytes of `n`.
unfoldable pub put_uint : ℕ → ℕ → List ℕ
put_uint zero n = []
put_uint (suc w) n = put_uint w (n / 256) ++ (n % 256) ∷ []

pub of_bytes_from-append :
    (acc : ℕ) (xs ys : List ℕ)
    → of_bytes_from acc (xs ++ ys) ≡ of_bytes_from (of_bytes_from acc xs) ys
unfolding of_bytes_from
of_bytes_from-append acc [] ys = refl
of_bytes_from-append acc (x ∷ xs) ys = of_bytes_from-append (acc * 256 + x) xs ys

pub of_bytes-snoc : (xs : List ℕ) (b : ℕ) → of_bytes (xs ++ b ∷ []) ≡ of_bytes xs * 256 + b
unfolding of_bytes_from
of_bytes-snoc xs b = of_bytes_from-append 0 xs (b ∷ [])

of_bytes-to_bytes_loop :
    (f n : ℕ) (acc : List ℕ) → n ≤ f → of_bytes (to_bytes_loop f n acc) ≡ of_bytes_from n acc
unfolding to_bytes_loop of_bytes_from
of_bytes-to_bytes_loop zero n acc h = ap (λ k. of_bytes_from k acc) (omega arith)
of_bytes-to_bytes_loop (suc f) n acc h = elim (Bool-cases (n == 0)) [
  | inl z ↦ rw z (ap (λ k. of_bytes_from k acc) (ground arith))
  | inr nz ↦ rw nz (
      of_bytes-to_bytes_loop f (n / 256) ((n % 256) ∷ acc) (ground arith)
      ∙ ap (λ k. of_bytes_from k acc) (omega arith))
]

-- `SetBytes` reads back what `Bytes` writes.
pub of_bytes-to_bytes : (n : ℕ) → of_bytes (to_bytes n) ≡ n
unfolding to_bytes of_bytes_from
of_bytes-to_bytes n = of_bytes-to_bytes_loop n n [] (omega arith)

to_bytes_loop-IsBytes : (f n : ℕ) (acc : List ℕ) → IsBytes acc → IsBytes (to_bytes_loop f n acc)
unfolding to_bytes_loop
to_bytes_loop-IsBytes zero n acc h = h
to_bytes_loop-IsBytes (suc f) n acc h = elim (Bool-cases (n == 0)) [
  | inl z ↦ rw z h
  | inr nz ↦ rw nz (to_bytes_loop-IsBytes f (n / 256) ((n % 256) ∷ acc) (omega arith, h))
]

pub to_bytes-IsBytes : (n : ℕ) → IsBytes (to_bytes n)
unfolding to_bytes
to_bytes-IsBytes n = to_bytes_loop-IsBytes n n [] tt

pub length-put_uint : (w n : ℕ) → length (put_uint w n) ≡ w
unfolding put_uint
length-put_uint zero n = refl
length-put_uint (suc w) n =
    omega
      (arith, length-append (put_uint w (n / 256)) ((n % 256) ∷ []), length-put_uint w (n / 256))

pub put_uint-IsBytes : (w n : ℕ) → IsBytes (put_uint w n)
unfolding put_uint
put_uint-IsBytes zero n = tt
put_uint-IsBytes (suc w) n =
    All-append IsByte (put_uint w (n / 256)) _ (put_uint-IsBytes w (n / 256)) (omega arith, tt)

-- A number that fits in `w` bytes is read back.
pub of_bytes-put_uint : (w n : ℕ) → n < 256 ^ w → of_bytes (put_uint w n) ≡ n
unfolding put_uint of_bytes_from
of_bytes-put_uint zero n h = omega arith
of_bytes-put_uint (suc w) n h = omega (
  arith,
  of_bytes-snoc (put_uint w (n / 256)) (n % 256),
  of_bytes-put_uint w (n / 256) (omega arith),
)

pub of_bytes-zeros : (k : ℕ) (bs : List ℕ) → of_bytes (replicate k 0 ++ bs) ≡ of_bytes bs
unfolding of_bytes_from
of_bytes-zeros zero bs = refl
of_bytes-zeros (suc k) bs = of_bytes-zeros k bs

room : (acc b : ℕ) → b < 256 → acc * 256 + b + 1 ≤ (acc + 1) * 256
room acc b h = omega arith

of_bytes_from-lt :
    (acc : ℕ) (bs : List ℕ) → IsBytes bs → of_bytes_from acc bs < (acc + 1) * 256 ^ length bs
unfolding of_bytes_from
of_bytes_from-lt acc [] h = omega arith
of_bytes_from-lt acc (b ∷ bs) h = omega (
  arith,
  of_bytes_from-lt (acc * 256 + b) bs h.1,
  mul-le-mul_right (256 ^ length bs) (room acc b h.0),
  ap (λ (t : ℕ). (acc + 1) * t) (pow-suc 256 (length bs)),
)

pub of_bytes-lt : (bs : List ℕ) → IsBytes bs → of_bytes bs < 256 ^ length bs
of_bytes-lt bs h = omega (arith, of_bytes_from-lt 0 bs h)
