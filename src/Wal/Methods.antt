-- ===== src/Wal/Methods.antt =====
-- The methods of an account (wal/wal.go) that store it again and sign files with it. Sign is the
-- function of Tx, PubKey and Address only ask go-crypto.
use bclib.Base.{false, String, Option}
use bclib.Go.Result.{Result}
use bclib.Go.Text.{Bytes}
use bclib.Algorithm.Primitives.{Primitives}
use bclib.Sig.{Files, Signing, sign2file, sign_bin_file, sign_text_file}
use bclib.Wal.{Account, Platform, save}

-- Save, which may replace the file.
unfoldable pub save_account :
    Primitives → Platform → Option String → Account → Bytes → Files → Result Files
unfolding save
save_account p pf write_error acct password files = save p pf write_error acct password false files

abbrev pub account_sign2file :
    Signing → Option String → Account → Bytes → Bytes → Files → Result Files
account_sign2file sv write_error acct user_data sig_file files =
    sign2file sv write_error acct.private_key user_data sig_file files

abbrev pub account_sign_bin_file :
    Signing → Option String → Account → Bytes → Bytes → Files → Result Files
account_sign_bin_file sv write_error acct bin_file sig_file files =
    sign_bin_file sv write_error acct.private_key bin_file sig_file files

abbrev pub account_sign_text_file :
    Signing → Option String → Account → Bytes → Bytes → Files → Result Files
account_sign_text_file sv write_error acct text_file sig_file files =
    sign_text_file sv write_error acct.private_key text_file sig_file files
