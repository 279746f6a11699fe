-- ===== src/Types.antt =====
-- types/bcerror.go: the codes of errors and their texts.
mod Tests
use bclib.Base.{
  ℕ, suc, ◌+◌, ◌≡◌, refl, ap, ◌∙◌, ◌&&◌, Bool, true, false, ◌||◌, not, List, [], ◌∷◌, arith, ◌==◌,
  length, if◌then◌else◌, Bool-cases, inl, inr,
}
use bclib.Go.Text.{Bytes, text}

pub record BcError : Type 0 where
  pub error_code : ℕ
  pub error_desc : Bytes

abbrev pub code_ok : ℕ
code_ok = 200

abbrev pub code_bvm_query_ok : ℕ
code_bvm_query_ok = 201

abbrev pub err_internal_failed : ℕ
err_internal_failed = 500

abbrev pub err_deal_failed : ℕ
err_deal_failed = 501

abbrev pub err_path : ℕ
err_path = 502

abbrev pub err_marshal : ℕ
err_marshal = 503

abbrev pub err_call_rpc : ℕ
err_call_rpc = 504

abbrev pub err_account_locked : ℕ
err_account_locked = 505

abbrev pub err_check_tx : ℕ
err_check_tx = 600

abbrev pub err_deliver_tx : ℕ
err_deliver_tx = 700

abbrev pub err_no_authorization : ℕ
err_no_authorization = 1000

abbrev pub err_code_bvm_invoke : ℕ
err_code_bvm_invoke = 3000

abbrev pub err_rlp_decode : ℕ
err_rlp_decode = 3001

abbrev pub err_call_state : ℕ
err_call_state = 3002

abbrev pub err_fee_not_enough : ℕ
err_fee_not_enough = 3003

abbrev pub err_invalid_param : ℕ
err_invalid_param = 3004

abbrev pub err_logic_error : ℕ
err_logic_error = 5000

abbrev entry : ℕ → Bytes → BcError
entry code desc = record { error_code = code; error_desc = desc }

unfoldable pub bc_errors : List BcError
bc_errors =
    entry code_ok []
    ∷ entry err_internal_failed (text "Internal failed")
    ∷ entry err_deal_failed (text "Deal failed")
    ∷ entry err_path (text "Invalid url path")
    ∷ entry err_check_tx (text "CheckTx failed")
    ∷ entry err_no_authorization (text "No authorization")
    ∷ entry err_deliver_tx (text "DeliverTx failed")
    ∷ entry err_marshal (text "Json marshal error")
    ∷ entry err_call_rpc (text "Call rpc error")
    ∷ entry err_deal_failed (text "The deal failed")
    ∷ entry err_account_locked (text "Account is locked")
    ∷ entry err_check_tx (text "CheckTx failed")
    ∷ entry err_deliver_tx (text "DeliverTx failed")
    ∷ entry err_code_bvm_invoke (text "BVM invokeTx failed")
    ∷ entry err_rlp_decode (text "BVM rlp decode failed")
    ∷ entry err_call_state (text "BVM of error calling state")
    ∷ entry err_fee_not_enough (text "BVM Insufficient balance to pay fee")
    ∷ entry err_invalid_param (text "BVM Param is wrong")
    ∷ []

abbrev pub first_desc : ℕ → List BcError → Bytes
first_desc code [] = []
first_desc code (e ∷ es) =
    let rest = first_desc code es in if e.error_code == code then e.error_desc else rest

-- (*BcError).Error
unfoldable pub error_text : BcError → Bytes
error_text e =
    if not (length e.error_desc == 0) then e.error_desc else first_desc e.error_code bc_errors

-- Is there an entry with a text for the code?
abbrev pub described : ℕ → List BcError → Bool
described code [] = false
described code (e ∷ es) =
    (if e.error_code == code then not (length e.error_desc == 0) else described code es)

first_desc-empty :
    (code : ℕ) (es : List BcError) → (length (first_desc code es) == 0) ≡ not (described code es)
first_desc-empty code [] = refl
first_desc-empty code (e ∷ es) = elim (Bool-cases (e.error_code == code)) [
  | inl h ↦ rw h (twice (length e.error_desc == 0))
  | inr h ↦ rw h (first_desc-empty code es)
]
  where
    twice : (b : Bool) → b ≡ not (not b)
    twice true = refl
    twice false = refl

-- The codes that have a text of their own.
abbrev pub has_text : ℕ → Bool
has_text c =
    (c == 500)
    || (c == 501)
    || (c == 502)
    || (c == 503)
    || (c == 504)
    || (c == 505)
    || (c == 600)
    || (c == 700)
    || (c == 1000)
    || (c == 3000)
    || (c == 3001)
    || (c == 3002)
    || (c == 3003)
    || (c == 3004)

described-has_text : (c : ℕ) → described c bc_errors ≡ has_text c
unfolding bc_errors
described-has_text c = ground arith

-- Error() is empty exactly where the error has no description of its own and its code is none of the
-- fourteen that have a text.
pub error_text_empty :
    (e : BcError)
    → (length (error_text e) == 0) ≡ ((length e.error_desc == 0) && not (has_text e.error_code))
unfolding error_text
error_text_empty e = elim (Bool-cases (length e.error_desc == 0)) [
  | inl none_given ↦
      rw (none_given)
        (first_desc-empty e.error_code bc_errors ∙ ap not (described-has_text e.error_code))
  | inr given ↦ rw (given) given
]
