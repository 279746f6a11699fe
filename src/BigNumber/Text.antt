-- ===== src/BigNumber/Text.antt =====
-- bignumber_v1.0/bignumber_ex.go: numbers as text, with the text of big.Int as in Bn/Text. The result
-- of SetString is not looked at.
use bclib.Base.{none, some}
use bclib.Go.Int.{ℤ, pos}
use bclib.Go.Text.{Bytes, text}
use bclib.Bn.Text.{BigText}
use bclib.BigNumber.Ex.{Number, num}

module _ (bt : BigText) where
  unfoldable pub new_number_string : Bytes → Number
  new_number_string s = num (bt.set_string (pos 10) s).0

  unfoldable pub new_number_string_base : Bytes → ℤ → Number
  new_number_string_base s base = num (bt.set_string base s).0

  unfoldable pub string : Number → Bytes
  string x = elim x.v [ none ↦ text "<nil>" | some z ↦ bt.string z ]
