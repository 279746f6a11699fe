-- ===== src/Map.antt =====
-- Finite maps as association lists with one entry for each key, over keys with a Boolean equality.
use mathlib.Core.Path.{subst₂}
use mathlib.Core.Option.{some-injective}
use bclib.Base.{
  ℕ, ◌≡◌, Bool, true, false, Option, none, some, List, [], ◌∷◌, arith, bytes_eq, bytes_eq_refl,
  bytes_eq→eq, ◌==◌, if◌then◌else◌, Bool-cases, inl, inr,
}
use bclib.Go.Int.{ℤ, pos, negsuc}

pub record Eq {ℓ} (A : Type ℓ) : Type ℓ where
  pub beq : A → A → Bool
  pub beq→eq : (a b : A) → beq a b ≡ true → a ≡ b
  pub beq_refl : (a : A) → beq a a ≡ true

instance abbrev pub bytes_key : Eq (List ℕ)
bytes_key = record { beq = bytes_eq; beq→eq = bytes_eq→eq; beq_refl = bytes_eq_refl }

abbrev pub int_eq : ℤ → ℤ → Bool
int_eq (pos a) (pos b) = a == b
int_eq (negsuc a) (negsuc b) = a == b
int_eq _ _ = false

pub int_eq→eq : (a b : ℤ) → int_eq a b ≡ true → a ≡ b
int_eq→eq (pos a) (pos b) h = ground arith
int_eq→eq (negsuc a) (negsuc b) h = ground arith
int_eq→eq (pos a) (negsuc b) h = cc
int_eq→eq (negsuc a) (pos b) h = cc

pub int_eq_refl : (a : ℤ) → int_eq a a ≡ true
int_eq_refl (pos a) = ground arith
int_eq_refl (negsuc a) = ground arith

instance abbrev pub int_key : Eq ℤ
int_key = record { beq = int_eq; beq→eq = int_eq→eq; beq_refl = int_eq_refl }

-- Keys that one key tells apart are apart.
separated {ℓ} :
    {K : Type ℓ} ⦃e : Eq K⦄ (i k j : K) → e.beq i k ≡ false → e.beq i j ≡ true → e.beq k j ≡ false
separated ⦃e⦄ i k j other hit = elim (Bool-cases (e.beq k j)) [
  | inl t ↦ cc (e.beq→eq k j t, other)
  | inr f ↦ f
]

abbrev pub Map {ℓ κ} : Type ℓ → Type κ → Type (ℓ ⊔ κ)
Map K V = List (K × V)

module _ {ℓ κ} {K : Type ℓ} {V : Type κ} ⦃e : Eq K⦄ where
  unfoldable pub lookup : K → Map K V → Option V
  lookup k [] = none
  lookup k ((j, v) ∷ m) = if e.beq j k then some v else lookup k m

  unfoldable pub remove : K → Map K V → Map K V
  remove k [] = []
  remove k ((j, v) ∷ m) = let rest = remove k m in if e.beq j k then rest else (j, v) ∷ rest

  unfoldable pub insert : K → V → Map K V → Map K V
  unfolding remove
  insert k v m = (k, v) ∷ remove k m

  pub lookup-remove :
      (k j : K) (m : Map K V) → lookup j (remove k m) ≡ (if e.beq k j then none else lookup j m)
  unfolding lookup remove
  lookup-remove k j [] = ground arith
  lookup-remove k j ((i, v) ∷ m) = elim (Bool-cases (e.beq i k)) [
    | inl same ↦ rw (same, e.beq→eq i k same, lookup-remove k j m) (ground arith)
    | inr other ↦ elim (Bool-cases (e.beq i j)) [
      | inl hit ↦ rw (other, hit, separated i k j other hit)
      | inr miss ↦ rw (other, miss) (lookup-remove k j m)
    ]
  ]

  pub lookup-insert :
      (k j : K) (v : V) (m : Map K V)
      → lookup j (insert k v m) ≡ (if e.beq k j then some v else lookup j m)
  unfolding lookup insert
  lookup-insert k j v m = rw (lookup-remove k j m) (ground arith)

module _ {ℓ κ} {K : Type ℓ} {V : Type κ} ⦃e : Eq K⦄ where
  -- Every key has one entry.
  abbrev pub IsUnique : Map K V → Type κ
  IsUnique [] = Unit {κ}
  IsUnique ((k, v) ∷ m) = (lookup k m ≡ none) × IsUnique m

  pub IsUnique-remove : (k : K) (m : Map K V) → IsUnique m → IsUnique (remove k m)
  unfolding remove
  IsUnique-remove k [] u = tt
  IsUnique-remove k ((j, v) ∷ m) (fresh, u) = elim (Bool-cases (e.beq j k)) [
    | inl same ↦ rw same (IsUnique-remove k m u)
    | inr other ↦ rw other (absent, IsUnique-remove k m u)
  ]
    where
      absent : lookup j (remove k m) ≡ none
      absent = elim (Bool-cases (e.beq k j)) [
        | inl hit ↦ rw (lookup-remove k j m, hit)
        | inr miss ↦ rw (lookup-remove k j m, miss) fresh
      ]

  pub IsUnique-insert : (k : K) (v : V) (m : Map K V) → IsUnique m → IsUnique (insert k v m)
  unfolding insert
  IsUnique-insert k v m u = (rw (lookup-remove k k m, e.beq_refl k), IsUnique-remove k m u)

module _ {ℓ κ μ} {K : Type ℓ} {V : Type κ} ⦃e : Eq K⦄ (P : K → V → Type μ) where
  -- The predicate holds of every entry.
  abbrev pub Entries : Map K V → Type μ
  Entries [] = Unit {μ}
  Entries ((k, v) ∷ m) = P k v × Entries m

  pub Entries-remove : (k : K) (m : Map K V) → Entries m → Entries (remove k m)
  unfolding remove
  Entries-remove k [] h = tt
  Entries-remove k ((j, v) ∷ m) h = elim (Bool-cases (e.beq j k)) [
    | inl same ↦ rw same (Entries-remove k m h.1)
    | inr other ↦ rw other (h.0, Entries-remove k m h.1)
  ]

  pub Entries-insert : (k : K) (v : V) (m : Map K V) → P k v → Entries m → Entries (insert k v m)
  unfolding insert
  Entries-insert k v m p h = (p, Entries-remove k m h)

  pub Entries-lookup : (k : K) (v : V) (m : Map K V) → Entries m → lookup k m ≡ some v → P k v
  unfolding lookup
  Entries-lookup k v [] h q = cc
  Entries-lookup k v ((j, w) ∷ m) h q = elim (Bool-cases (e.beq j k)) [
    | inl same ↦ found (e.beq→eq j k same) (rw same at q) h.0
    | inr other ↦ Entries-lookup k v m h.1 (rw other at q)
  ]
    where
      found : j ≡ k → some w ≡ some v → P j w → P k v
      found ej ev p = subst₂ P ej (some-injective _ _ ev) p

module _ {ℓ κ μ ν} {K : Type ℓ} {V : Type κ} ⦃e : Eq K⦄ {P : K → V → Type μ} {Q : K → V → Type ν}
    (f : (k : K) (v : V) → P k v → Q k v) where
  pub Entries-mono : (m : Map K V) → Entries P m → Entries Q m
  Entries-mono [] h = tt
  Entries-mono ((k, v) ∷ m) h = (f k v h.0, Entries-mono m h.1)
