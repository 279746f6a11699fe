-- ===== src/Bn/Text/Json.antt =====
-- Numbers in JSON.
use bclib.Base.{
  ℕ, ◌≡◌, ◌≢◌, ap, ◌∙◌, Bool, true, false, some, [], ◌∷◌, ◌++◌, ◌-◌, ◌+◌, take, drop, length,
  length-append, take-append_of_length, ltb, arith, bytes_eq, if◌then◌else◌,
}
use bclib.Go.Result.{Result, ok, err, panic, bad_slice, ◌>>=◌}
use bclib.Go.Int.{ℤ, pos}
use bclib.Go.Text.{Bytes, text, has_prefix, split, split-piece, split-last, Lacks}
use bclib.Bn.{Number, num}
use bclib.Bn.Text.{BigText, marshal_json, unmarshal_json, value_of, bare, number_text}

-- An object with the number under its old name.
abbrev pub object_of : Bytes → Bytes
object_of s = text "{\"v\":" ++ (s ++ text "}")

-- What big.Int and strings.TrimSpace do with the decimal text of a number: it is read back, and has
-- no spaces at its ends, no colon, and no brace in front; an object has no spaces at its ends either.
pub record IsDecimal (bt : BigText) (z : ℤ) : Type 0 where
  pub read_back : bt.set_string (pos 10) (bt.string z) ≡ (z, true)
  pub trimmed : bt.trim_space (bt.string z) ≡ bt.string z
  pub no_brace : has_prefix (bt.string z) (text "{") ≡ false
  pub no_colon : Lacks b':' (bt.string z)
  pub trimmed_object : bt.trim_space (object_of (bt.string z)) ≡ object_of (bt.string z)
  pub trimmed_name : bt.trim_space (text "\"v\"") ≡ text "\"v\""

quote_apart : ◌≢◌ {A = ℕ} 34 b':'
quote_apart e = omega arith

letter_apart : ◌≢◌ {A = ℕ} 118 b':'
letter_apart e = omega arith

name_Lacks : Lacks b':' (34 ∷ 118 ∷ 34 ∷ [])
name_Lacks = (quote_apart, (letter_apart, (quote_apart, tt)))

not_short : (n : ℕ) → ltb (5 + n + 1) 2 ≡ false
not_short n = ground arith

length-object_of : (s : Bytes) → length (object_of s) ≡ 5 + length s + 1
length-object_of s = omega (arith, length-append s (125 ∷ []))

bare-object_of : (bt : BigText) (s : Bytes) → bare bt (object_of s) ≡ ok (34 ∷ 118 ∷ 34 ∷ 58 ∷ s)
bare-object_of bt s =
    ap
      (λ (b : Bool).
        if b then panic bad_slice else ok (take (length (object_of s) - 2) (drop 1 (object_of s))))
      (ap (λ n. ltb n 2) (length-object_of s) ∙ not_short (length s))
    ∙ ap ok (
        take-append_of_length (34 ∷ 118 ∷ 34 ∷ 58 ∷ s) (125 ∷ [])
          (omega (arith, length-object_of s)))

module _ (bt : BigText) (z : ℤ) (law : IsDecimal bt z) where
  from_text : (x : Number) → unmarshal_json bt (bt.string z) x ≡ ok (num z)
  unfolding unmarshal_json
  from_text x =
      ap (λ s. number_text bt s >>= λ t. ok (num (bt.set_string (pos 10) t).0)) law.trimmed
      ∙ ap
          (λ (b : Bool).
            (if b
              then (bare bt (bt.string z) >>= λ o. value_of bt (split b':' o))
              else ok (bt.string z))
            >>= λ t. ok (num (bt.set_string (pos 10) t).0))
          law.no_brace
      ∙ ap (λ (r : ℤ × Bool). ok (num r.0)) law.read_back

  from_object : (x : Number) → unmarshal_json bt (object_of (bt.string z)) x ≡ ok (num z)
  unfolding unmarshal_json has_prefix
  from_object x =
      let s = bt.string z in
      ap (λ o. number_text bt o >>= λ t. ok (num (bt.set_string (pos 10) t).0)) law.trimmed_object
      ∙ ap
          (λ (r : Result Bytes).
            (r >>= λ o. value_of bt (split b':' o)) >>= λ t. ok (num (bt.set_string (pos 10) t).0))
          (bare-object_of bt s)
      ∙ ap (λ l. value_of bt l >>= λ t. ok (num (bt.set_string (pos 10) t).0))
          (split-piece b':' (34 ∷ 118 ∷ 34 ∷ []) s name_Lacks
            ∙ ap (λ l. (34 ∷ 118 ∷ 34 ∷ []) ∷ l) (split-last b':' s law.no_colon))
      ∙ ap
          (λ n.
            (if bytes_eq n (34 ∷ 118 ∷ 34 ∷ [])
              then ok (bt.trim_space s)
              else err "wrong bn.number json format")
            >>= λ t. ok (num (bt.set_string (pos 10) t).0))
          law.trimmed_name
      ∙ ap (λ t. ok (num (bt.set_string (pos 10) t).0)) law.trimmed
      ∙ ap (λ (r : ℤ × Bool). ok (num r.0)) law.read_back

  -- UnmarshalJSON gives a number back from the text that MarshalJSON wrote of it, and from an object
  -- with this text under "v", whatever the receiver held.
  pub unmarshal_json-marshal_json :
      (x : Number)
      → (unmarshal_json bt (marshal_json bt (some (num z))) x ≡ ok (num z))
        × (unmarshal_json bt (object_of (marshal_json bt (some (num z)))) x ≡ ok (num z))
  unfolding marshal_json
  unmarshal_json-marshal_json x = (from_text x, from_object x)
