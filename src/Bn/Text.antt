-- ===== src/Bn/Text.antt =====
-- bn/bignumber.go: numbers as text and as JSON. The text of a big.Int and its reading, and
-- strings.TrimSpace, are a parameter.
pub mod Json
use bclib.Base.{
  ℕ, ◌≡◌, Bool, true, false, not, ◌&&◌, ◌||◌, Option, none, some, List, [], ◌∷◌, ◌++◌, ◌-◌, take,
  drop, length, leb, ltb, ◌==◌, bytes_eq, if◌then◌else◌,
}
use bclib.Go.Result.{Result, ok, err, panic, bad_slice, ◌>>=◌}
use bclib.Go.Int.{ℤ, pos, negsuc}
use bclib.Go.Text.{Bytes, text, has_prefix, split}
use bclib.Bn.{Number, num}

-- `set_string` gives the value of the receiver after SetString of a base, which is any where it
-- fails, and whether it succeeds.
pub record BigText : Type 0 where
  pub set_string : ℤ → Bytes → ℤ × Bool
  pub string : ℤ → Bytes
  pub trim_space : Bytes → Bytes

module _ (bt : BigText) where
  unfoldable pub new_number_string_base : Bytes → ℤ → Number
  new_number_string_base s base =
      let (z, success) = bt.set_string base s in if success then num z else num (pos 0)

  unfoldable pub n_string : Bytes → Number
  unfolding new_number_string_base
  n_string s = new_number_string_base s (pos 10)

  unfoldable pub n_string_hex : Bytes → Number
  unfolding new_number_string_base
  n_string_hex s =
      if has_prefix s (text "0x") || has_prefix s (text "0X")
      then new_number_string_base s (pos 0)
      else num (pos 0)

  -- String; big.Int writes a nil pointer as "<nil>".
  unfoldable pub string : Number → Bytes
  string x = elim x.v [ none ↦ text "<nil>" | some z ↦ bt.string z ]

  -- none is a nil pointer to a number.
  unfoldable pub marshal_json : Option Number → Bytes
  marshal_json none = text "null"
  marshal_json (some x) = elim x.v [ none ↦ text "null" | some z ↦ bt.string z ]

  -- What stands for the number between the braces: a name and a value.
  abbrev pub value_of : List Bytes → Result Bytes
  value_of (name ∷ value ∷ []) =
      if bytes_eq (bt.trim_space name) (text "\"v\"")
      then ok (bt.trim_space value)
      else err "wrong bn.number json format"
  value_of _ = err "wrong bn.number json format"

  -- str[1 : len(str)-1]
  abbrev pub bare : Bytes → Result Bytes
  bare str = if ltb (length str) 2 then panic bad_slice else ok (take (length str - 2) (drop 1 str))

  abbrev pub number_text : Bytes → Result Bytes
  number_text str =
      if has_prefix str (text "{") then (bare str >>= λ b. value_of (split b':' b)) else ok str

  -- The result of SetString is not looked at.
  unfoldable pub unmarshal_json : Bytes → Number → Result Number
  unmarshal_json bz x = do
    str ← number_text (bt.trim_space bz)
    ok (num (bt.set_string (pos 10) str).0)
