-- ===== src/Go/Result.antt =====
-- What a Go call comes to: a value, a returned error, or a panic (with its message). A function
-- with results (T, error) and one that may only panic both return such a `Result`.
use bclib.Base.{Bool, true, false, String, Option, none, some, ◌≡◌, refl}

pub data Result {ℓ} (A : Type ℓ) : Type ℓ where
  ok : A → Result A
  err : String → Result A
  panic : String → Result A

-- What follows a call runs on its value alone: a panic unwinds, and an error is returned early.
infixl 5 ◌>>=◌ ◌>>◌
abbrev pub ◌>>=◌ {ℓ κ} : {T : Type ℓ} {U : Type κ} → Result T → (T → Result U) → Result U
panic message >>= rest = panic message
err message >>= rest = err message
ok value >>= rest = rest value

-- `if !test { return error }`.
abbrev pub guard : Bool → String → Result (Unit {0})
guard false message = err message
guard true message = ok tt

abbrev pub ◌>>◌ {κ} : {U : Type κ} → Result (Unit {0}) → Result U → Result U
first >> rest = first >>= (λ (u : Unit {0}). rest)

-- A pointer, interface or slice index that must be there.
abbrev pub deref {ℓ} : {A : Type ℓ} → Option A → String → Result A
deref none e = panic e
deref (some a) e = ok a

abbrev pub nil_pointer : String
nil_pointer = "invalid memory address or nil pointer dereference"

abbrev pub out_of_range : String
out_of_range = "index out of range"

abbrev pub bad_slice : String
bad_slice = "slice bounds out of range"

-- A chain that ends with a value began with one.
pub >>=-eq-ok {ℓ κ} :
    {T : Type ℓ} {U : Type κ} (first : Result T) (rest : T → Result U) {value : U}
    → (first >>= rest) ≡ ok value
    → (t : T) × (first ≡ ok t) × (rest t ≡ ok value)
>>=-eq-ok (panic message) rest h = cc
>>=-eq-ok (err message) rest h = cc
>>=-eq-ok (ok t) rest h = (t, refl, h)

pub ok-injective {ℓ} : {T : Type ℓ} {a b : T} → ok a ≡ ok b → a ≡ b
ok-injective h = cc

-- A guard that passed had a true test.
pub guard-true : (b : Bool) (e : String) (u : Unit {0}) → guard b e ≡ ok u → b ≡ true
guard-true true e u h = refl
guard-true false e u h = cc

-- Two continuations that agree on every value.
pub >>=-ext {ℓ κ} :
    {T : Type ℓ} {U : Type κ} (first : Result T) {rest other : T → Result U}
    → ((t : T) → rest t ≡ other t)
    → (first >>= rest) ≡ (first >>= other)
>>=-ext (panic message) h = refl
>>=-ext (err message) h = refl
>>=-ext (ok t) h = h t
