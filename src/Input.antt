-- ===== src/Input.antt =====
-- utils/input.go: passwords that are asked for. What speakeasy.Ask reads from the terminal is a
-- parameter.
pub mod Entered
mod Tests
use bclib.Base.{
  ℕ, ◌≤◌, ◌≡◌, refl, sym, ap, ◌∙◌, ◌↔◌, Bool, true, false, not, List, length, leb, ltb, bytes_eq,
  bytes_eq_refl, bytes_eq→eq, arith, Bool-cases, inl, inr,
}
use bclib.Go.Result.{
  Result, ok, err, panic, guard, ◌>>=◌, ◌>>◌, >>=-eq-ok, ok-injective, guard-true,
}
use bclib.Go.Text.{Bytes}

abbrev pub min_pass_length : ℕ
min_pass_length = 8

abbrev pub max_pass_length : ℕ
max_pass_length = 20

unfoldable pub get_password : Result Bytes → Result Bytes
get_password ask = do
  pass ← ask
  guard (not (ltb (length pass) min_pass_length)) "Password must be at least 8 characters"
  guard (not (ltb max_pass_length (length pass))) "Password must be at most 20 characters"
  ok pass

unfoldable pub get_and_check_password : Result Bytes → Result Bytes → Result Bytes
unfolding get_password
get_and_check_password ask1 ask2 = do
  pass1 ← get_password ask1
  pass2 ← get_password ask2
  guard (bytes_eq pass1 pass2) "Password don't match"
  ok pass1

unfoldable pub check_password : Result Bytes → Result Bytes
unfolding get_password
check_password ask1 = get_password ask1
