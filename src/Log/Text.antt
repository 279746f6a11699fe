-- ===== src/Log/Text.antt =====
-- The texts of log lines.
use bclib.Base.{
  ℕ, ◌+◌, ◌%◌, ◌≡◌, refl, ap, ◌∙◌, Bool, true, false, not, List, [], ◌∷◌, ◌++◌, append_assoc, ◌==◌,
  leb, arith, length, if◌then◌else◌,
}
use bclib.Go.Text.{Bytes, text}
use bclib.Log.{is_empty, pieces, evened, newline, gen_log_text}

abbrev missing : Bytes
missing = text "<Missing something!>"

-- A key with its value, behind a comma.
abbrev pub pair_text : Bytes → Bytes → Bytes
pair_text k v = text ", [" ++ k ++ text "=" ++ v ++ text "]"

-- Keys and values in turn; a key without a value is marked.
abbrev pub pairs_text : List Bytes → Bytes
pairs_text [] = []
pairs_text (k ∷ []) = pair_text k missing
pairs_text (k ∷ v ∷ r) = pair_text k v ++ pairs_text r

abbrev pad : List Bytes → List Bytes
pad [] = []
pad (k ∷ []) = k ∷ missing ∷ []
pad (k ∷ v ∷ r) = k ∷ v ∷ pad r

evened-pad : (kvs : List Bytes) → evened kvs ≡ pad kvs
evened-pad [] = refl
evened-pad (k ∷ []) = refl
evened-pad (k ∷ v ∷ r) = two (length r) ∙ ap (λ l. k ∷ v ∷ l) (evened-pad r)
  where
    two : (n : ℕ) → evened (k ∷ v ∷ r) ≡ k ∷ v ∷ evened r
    two n = ground arith

-- What stands in front of the pairs from an even place on.
abbrev comma : List Bytes → Bytes
comma l = if is_empty l then [] else text ", "

comma_if : (b : Bool) → (if not b then text ", " else []) ≡ (if b then [] else text ", ")
comma_if true = refl
comma_if false = refl

pieces-pair :
    (i : ℕ) (k v : Bytes) (r : List Bytes)
    → (i % 2 == 0) ≡ true
    → leb i 1 ≡ false
    → pieces i (k ∷ v ∷ r) ≡ 91 ∷ (k ++ 61 ∷ (v ++ 93 ∷ (comma r ++ pieces (i + 1 + 1) r)))
unfolding pieces
pieces-pair i k v r even big =
    rw (big, even, odd, bigger)
      (ap
          (λ (t : Bytes).
            (91 ∷ (k ++ 61 ∷ [])) ++ [] ++ ((v ++ 93 ∷ []) ++ t ++ pieces (i + 1 + 1) r))
          (comma_if (is_empty r))
        ∙ tidy (comma r) (pieces (i + 1 + 1) r))
  where
    odd : ((i + 1) % 2 == 0) ≡ false
    odd = ground (arith, even)

    bigger : leb (i + 1) 1 ≡ false
    bigger = ground (arith, big)

    tidy :
        (c p : Bytes)
        → (91 ∷ (k ++ 61 ∷ [])) ++ [] ++ ((v ++ 93 ∷ []) ++ c ++ p)
          ≡ 91 ∷ (k ++ 61 ∷ (v ++ 93 ∷ (c ++ p)))
    tidy c p = simp append_assoc refl

last_pair : (k v : Bytes) → 44 ∷ 32 ∷ 91 ∷ (k ++ 61 ∷ (v ++ 93 ∷ [])) ≡ pair_text k v
last_pair k v = simp append_assoc refl

pieces-pad :
    (i : ℕ) (kvs : List Bytes)
    → (i % 2 == 0) ≡ true
    → leb i 1 ≡ false
    → comma (pad kvs) ++ pieces i (pad kvs) ≡ pairs_text kvs
unfolding pieces
pieces-pad i [] even big = refl
pieces-pad i (k ∷ []) even big =
    ap (λ t. text ", " ++ t) (pieces-pair i k missing [] even big) ∙ last_pair k missing
pieces-pad i (k ∷ v ∷ r) even big =
    ap (λ t. text ", " ++ t) (pieces-pair i k v (pad r) even big)
    ∙ ap (λ t. 44 ∷ 32 ∷ 91 ∷ (k ++ 61 ∷ (v ++ 93 ∷ t)))
        (pieces-pad (i + 1 + 1) r (ground (arith, even)) (ground (arith, big)))
    ∙ tidy (pairs_text r)
  where
    tidy : (t : Bytes) → 44 ∷ 32 ∷ 91 ∷ (k ++ 61 ∷ (v ++ 93 ∷ t)) ≡ pair_text k v ++ t
    tidy t = simp append_assoc refl

-- The text of a line is the tag, the message, and behind it each key with its value, a key without
-- one being marked, and the end of the line.
gen_log_text_lem :
    (tag msg : Bytes) (keyvals : List Bytes)
    → gen_log_text tag msg keyvals ≡ tag ++ msg ++ pairs_text keyvals ++ newline
unfolding gen_log_text pieces
gen_log_text_lem tag msg keyvals =
    ap (λ l. pieces 0 l ++ newline) (evened-pad (tag ∷ msg ∷ keyvals))
    ∙ ap (λ (t : Bytes). (tag ++ [] ++ (msg ++ t ++ pieces 2 (pad keyvals))) ++ newline)
        (comma_if (is_empty (pad keyvals)))
    ∙ tidy (comma (pad keyvals)) (pieces 2 (pad keyvals))
    ∙ ap (λ t. tag ++ msg ++ t ++ newline) (pieces-pad 2 keyvals refl refl)
  where
    tidy :
        (c p : Bytes)
        → (tag ++ [] ++ (msg ++ c ++ p)) ++ newline ≡ tag ++ msg ++ (c ++ p) ++ newline
    tidy c p = simp append_assoc refl
