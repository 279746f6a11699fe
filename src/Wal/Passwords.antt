-- ===== src/Wal/Passwords.antt =====
-- The passwords that checkPassword accepts.
use bclib.Base.{
  ℕ, ◌+◌, ◌≤◌, ◌≡◌, refl, true, false, List, [], ◌∷◌, arith, length, Bool-cases, inl, inr,
}
use bclib.Go.Text.{Bytes}
use bclib.Wal.{
  Platform, Found, found_char, contains, asc_other, scan, nothing_found, is_strong, check_password,
}

found_char-count :
    (pf : Platform) (c : ℕ) (f : Found)
    → (found_char pf c f).other ≡ true
    → (f.other ≡ true) × ((found_char pf c f).count ≡ f.count + 1)
found_char-count pf c f h = elim (Bool-cases (pf.is_number c)) [
  | inl a ↦ (rw a at h, rw a refl)
  | inr a ↦ elim (Bool-cases (pf.is_upper c)) [
    | inl b ↦ (rw (a, b) at h, rw (a, b) refl)
    | inr b ↦ elim (Bool-cases (pf.is_lower c)) [
      | inl d ↦ (rw (a, b, d) at h, rw (a, b, d) refl)
      | inr d ↦ elim (Bool-cases (contains c asc_other)) [
        | inl e ↦ (rw (a, b, d, e) at h, rw (a, b, d, e) refl)
        | inr e ↦ absurd (not-true (rw (a, b, d, e) at h))
      ]
    ]
  ]
]
  where
    not-true : false ≡ true → ⊥
    not-true e = cc

scan-count :
    (pf : Platform) (s : List ℕ) (f : Found)
    → (scan pf s f).other ≡ true
    → (f.other ≡ true) × ((scan pf s f).count ≡ f.count + length s)
unfolding scan
scan-count pf [] f h = (h, omega arith)
scan-count pf (c ∷ s) f h =
    let rest = scan-count pf s (found_char pf c f) h in
    let first = found_char-count pf c f rest.0 in (first.0, omega (arith, rest.1, first.1))

-- An accepted password has 8 to 20 runes.
pub check_password-length :
    (pf : Platform) (s : Bytes)
    → check_password pf s ≡ true
    → (8 ≤ length (pf.runes s)) × (length (pf.runes s) ≤ 20)
unfolding check_password
check_password-length pf s h =
    let f : Found = scan pf (pf.runes s) nothing_found in
    let all_counted = scan-count pf (pf.runes s) nothing_found (strong f h).0 in
    (omega (arith, all_counted.1, (strong f h).1), omega (arith, all_counted.1, (strong f h).2))
  where
    strong : (f : Found) → is_strong f ≡ true → (f.other ≡ true) × (8 ≤ f.count) × (f.count ≤ 20)
    strong f' h' = ground arith
