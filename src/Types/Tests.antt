-- ===== src/Types/Tests.antt =====
-- The error table at two errors.
use bclib.Base.{◌≡◌, refl, []}
use bclib.Go.Text.{text}
use bclib.Types.{error_text, bc_errors, err_deal_failed, err_logic_error}

-- The second entry of the code is not found.
first_entry :
    error_text (record { error_code = err_deal_failed; error_desc = [] }) ≡ text "Deal failed"
unfolding error_text bc_errors
first_entry = refl

no_text : error_text (record { error_code = err_logic_error; error_desc = [] }) ≡ []
unfolding error_text bc_errors
no_text = refl
