-- ===== src/Go/Text.antt =====
-- Go strings as byte lists: literals, and the functions of package strings that the code calls.
use Prim.Native.Char.{code}
use bclib.Base.{
  ℕ, zero, suc, ◌-◌, ◌≡◌, refl, ap, Bool, true, false, ◌&&◌, String, List, [], ◌∷◌, ◌++◌, arith,
  All, length, drop, ◌==◌, ==_refl, if◌then◌else◌, Bool-cases, inl, inr, ◌≢◌,
}

abbrev pub Bytes : Type 0
Bytes = List ℕ

-- The bytes of an ASCII literal.
abbrev pub text : String → Bytes
text String.[] = []
text (String.◌∷◌ c s) = code c ∷ text s

-- strings.HasPrefix(s, prefix)
unfoldable pub has_prefix : Bytes → Bytes → Bool
has_prefix s [] = true
has_prefix [] (p ∷ ps) = false
has_prefix (c ∷ s) (p ∷ ps) = (c == p) && has_prefix s ps

-- strings.Replace(s, old, new, 1)
unfoldable pub replace_once : Bytes → Bytes → Bytes → Bytes
unfolding has_prefix
replace_once [] old new = if has_prefix [] old then new else []
replace_once (c ∷ s) old new =
    let rest = c ∷ replace_once s old new in
    if has_prefix (c ∷ s) old then new ++ drop (length old) (c ∷ s) else rest

-- strings.Replace(s, old, new, -1) for an old text that is not empty, where as many bytes as the first
-- argument says belong to an occurrence that was replaced.
unfoldable pub replace_from : ℕ → Bytes → Bytes → Bytes → Bytes
unfolding has_prefix
replace_from skipped [] old new = []
replace_from (suc skipped) (c ∷ s) old new = replace_from skipped s old new
replace_from zero (c ∷ s) old new =
    let hit = new ++ replace_from (length old - 1) s old new in
    let miss = c ∷ replace_from zero s old new in if has_prefix (c ∷ s) old then hit else miss

unfoldable pub replace_all : Bytes → Bytes → Bytes → Bytes
unfolding replace_from
replace_all s old new = replace_from 0 s old new

abbrev pub extend_head : ℕ → List Bytes → List Bytes
extend_head c [] = (c ∷ []) ∷ []
extend_head c (w ∷ ws) = (c ∷ w) ∷ ws

-- strings.Split(s, sep) for a separator of one byte: n separators make n + 1 pieces.
unfoldable pub split : ℕ → Bytes → List Bytes
split sep [] = [] ∷ []
split sep (c ∷ s) = let rest = split sep s in if c == sep then [] ∷ rest else extend_head c rest

-- No byte of the text is the separator.
abbrev pub Lacks : ℕ → Bytes → Type 0
Lacks sep s = All (λ c. c ≢ sep) s

pub has_prefix-append : (p s : Bytes) → has_prefix (p ++ s) p ≡ true
unfolding has_prefix
has_prefix-append [] [] = refl
has_prefix-append [] (c ∷ s) = refl
has_prefix-append (c ∷ p) s = rw (==_refl c) (has_prefix-append p s)

pub replace_once-prefix : (p s : Bytes) → replace_once (p ++ s) p [] ≡ s
unfolding replace_once has_prefix
replace_once-prefix [] [] = refl
replace_once-prefix [] (c ∷ s) = refl
replace_once-prefix (c ∷ p) s = rw (==_refl c, has_prefix-append p s) (dropped p s)
  where
    dropped : (q t : Bytes) → drop (length q) (q ++ t) ≡ t
    dropped [] t = refl
    dropped (x ∷ q) t = dropped q t

-- A piece without the separator comes out whole.
pub split-piece : (sep : ℕ) (w s : Bytes) → Lacks sep w → split sep (w ++ sep ∷ s) ≡ w ∷ split sep s
unfolding split
split-piece sep [] s h = rw (==_refl sep)
split-piece sep (c ∷ w) s h = elim (Bool-cases (c == sep)) [
  | inl e ↦ absurd (h.0 (ground arith))
  | inr e ↦ rw e (ap (extend_head c) (split-piece sep w s h.1))
]

pub split-last : (sep : ℕ) (w : Bytes) → Lacks sep w → split sep w ≡ w ∷ []
unfolding split
split-last sep [] h = refl
split-last sep (c ∷ w) h = elim (Bool-cases (c == sep)) [
  | inl e ↦ absurd (h.0 (ground arith))
  | inr e ↦ rw e (ap (extend_head c) (split-last sep w h.1))
]
