-- ===== src/Input/Tests.antt =====
-- Passwords that are entered.
use bclib.Base.{◌≡◌, refl}
use bclib.Go.Result.{Result, ok, err}
use bclib.Go.Text.{Bytes, text}
use bclib.Input.{get_password, get_and_check_password}

twice :
    get_and_check_password (ok (text "Secret#12")) (ok (text "Secret#12")) ≡ ok (text "Secret#12")
unfolding get_and_check_password get_password
twice = refl

mistyped :
    get_and_check_password (ok (text "Secret#12")) (ok (text "Secret#13"))
    ≡ err "Password don't match"
unfolding get_and_check_password get_password
mistyped = refl

abbrev entered : Result Bytes
entered = ok (text "Secret#12")
