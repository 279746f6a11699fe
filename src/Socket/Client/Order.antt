-- ===== src/Socket/Client/Order.antt =====
-- The order in which responses arrive.
use mathlib.Core.Path.{subst}
use mathlib.Core.List.{Permᴰ}
use mathlib.Core.List.Permᴰ.{nil, cons, swap, trans}
use bclib.Base.{
  ℕ, ◌≡◌, refl, sym, ap, ◌∙◌, ◌≢◌, Option, some, List, [], ◌∷◌, ◌==◌, All, if◌then◌else◌, ==_refl,
  Bool-cases, inl, inr,
}
use bclib.Socket.Client.{Response, Waiting, kept_or}
use bclib.Socket.Client.Matching.{found, answered, misses_of, hits_of}

-- No response has the index.
abbrev pub Free : ℕ → List Response → Type 0
Free i rs = All (λ (r : Response). i ≢ r.index) rs

pub found-Free :
    (i : ℕ) (r : Response) (rs : List Response) → i ≢ r.index → found i (r ∷ rs) ≡ found i rs
found-Free i r rs h = rw (misses_of i r.index h) refl

pub found_first : (r : Response) (rs : List Response) → found r.index (r ∷ rs) ≡ some r
found_first r rs = rw (==_refl r.index) refl

-- Every response is the one found at its index.
abbrev pub Own : (ℕ → Option Response) → List Response → Type 0
Own f rs = All (λ (r : Response). f r.index ≡ some r) rs

pub Own-cons :
    (r : Response) (rs rs' : List Response)
    → Free r.index rs
    → Own (λ i. found i rs') rs
    → Own (λ i. found i (r ∷ rs')) rs
Own-cons r [] rs' away h = tt
Own-cons r (q ∷ rs) rs' (other, away) (e, h) =
    (found-Free q.index r rs' (λ k. other (sym k)) ∙ e, Own-cons r rs rs' away h)

Own-Permᴰ : (f : ℕ → Option Response) {l l' : List Response} → Permᴰ l l' → Own f l → Own f l'
Own-Permᴰ f nil h = tt
Own-Permᴰ f (cons e p) (a, h) = (subst (λ (r : Response). f r.index ≡ some r) e a, Own-Permᴰ f p h)
Own-Permᴰ f (swap e e') (a, (b, h)) = (
  subst (λ (r : Response). f r.index ≡ some r) e' b,
  (subst (λ (r : Response). f r.index ≡ some r) e a, h),
)
Own-Permᴰ f (trans p q) h = Own-Permᴰ f q (Own-Permᴰ f p h)

found_swap :
    (f : ℕ → Option Response) (i : ℕ) (a b : Response) (l : List Response)
    → f a.index ≡ some a
    → f b.index ≡ some b
    → found i (a ∷ b ∷ l) ≡ found i (b ∷ a ∷ l)
found_swap f i a b l x y = elim (Bool-cases (i == a.index)) [
  | inl p ↦ elim (Bool-cases (i == b.index)) [
    | inl q ↦ rw (p, q) (sym x ∙ ap f (sym (hits_of i a.index p) ∙ hits_of i b.index q) ∙ y)
    | inr q ↦ rw (p, q) refl
  ]
  | inr p ↦ rw p refl
]

found_cong :
    (i : ℕ) {a b : Response} (l l' : List Response)
    → a ≡ b
    → found i l ≡ found i l'
    → found i (a ∷ l) ≡ found i (b ∷ l')
found_cong i {a} {b} l l' e h = λ k. if i == (e k).index then some (e k) else h k

-- Where every response is found at its index, the order does not matter.
found-Permᴰ :
    (f : ℕ → Option Response) (i : ℕ) {l l' : List Response}
    → Permᴰ l l'
    → Own f l
    → found i l ≡ found i l'
found-Permᴰ f i nil h = refl
found-Permᴰ f i (cons {a} {b} {l₁} {l₂} e p) (x, h) = found_cong i l₁ l₂ e (found-Permᴰ f i p h)
found-Permᴰ f i (swap {a} {b} {a'} {b'} {l} e e') (x, (y, h)) =
    found_swap f i a b l x y ∙ found_cong i (a ∷ l) (b' ∷ l) e' (found_cong i l l e refl)
found-Permᴰ f i (trans p q) h = found-Permᴰ f i p h ∙ found-Permᴰ f i q (Own-Permᴰ f p h)

pub answered-Permᴰ :
    (rs rs' : List Response) (ws : List Waiting)
    → Permᴰ rs rs'
    → Own (λ i. found i rs) rs
    → answered rs ws ≡ answered rs' ws
answered-Permᴰ rs rs' [] p h = refl
answered-Permᴰ rs rs' (w ∷ ws) p h = λ k.
    record w { resp_chan = kept_or w.resp_chan (found-Permᴰ (λ i. found i rs) w.index p h k) }
    ∷ answered-Permᴰ rs rs' ws p h k
