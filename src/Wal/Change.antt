-- ===== src/Wal/Change.antt =====
-- The change of an account's password: the account is loaded, saved and loaded again.
use bclib.Base.{
  and_false, ◌^◌, ◌<◌, ◌≡◌, sym, ap, ◌∙◌, true, false, none, some, [], ◌++◌, ◌==◌, length, arith,
  bytes_eq, bytes_eq_refl,
}
use bclib.Go.Result.{ok, ◌>>=◌}
use bclib.Go.Bytes.{IsBytes}
use bclib.Go.Text.{Bytes, text}
use bclib.Algorithm.Primitives.{Primitives, IsBlockCipher}
use bclib.Algorithm.Cipher.{encrypt_with_password}
use bclib.Map.{lookup, insert, bytes_key}
use bclib.Sig.{Files}
use bclib.Wal.{
  Account, Platform, check_password, account_hash, checked_name, content, exists, save,
  load_account,
}
use bclib.Wal.Methods.{save_account}
use bclib.Wal.RoundTrip.{lookup-inserted, opened, load_account-hash}

-- An account that LoadAccount returned, and that Save stored under another password, strong and not
-- empty, is returned by LoadAccount under that password. Writing does not fail, the file's name is
-- not empty, and the account's JSON, of bytes and shorter than 2^31, is read back but for that name.
pub load_account-save_account :
    (p : Primitives) (pf : Platform) (dir name old password json : Bytes) (files : Files)
    (a : Account)
    → IsBlockCipher p
    → load_account p pf dir name old files ≡ ok a
    → 0 < length password
    → check_password pf password ≡ true
    → 0 < length (pf.join dir (name ++ text ".wal"))
    → pf.marshal a ≡ ok json
    → IsBytes json
    → length json < 2 ^ 31
    → pf.unmarshal json ≡ ok (record a { key_store_file = [] })
    → (save_account p pf none a password files >>= load_account p pf dir name password) ≡ ok a
unfolding save_account save load_account
load_account-save_account p pf dir name old password json files a c held there strong path written b
      short read =
    rw
      (
        right_hash,
        path_there,
        and_false (exists a.key_store_file files),
        password_there,
        strong,
        written,
        known.2,
        found_there,
        password_there,
        strong,
        opened p json password c b short,
        read,
        right_hash,
      )
      (ap (λ f. ok (record a { key_store_file = f })) (sym known.1))
  where
    known :
        (account_hash p a.name a.private_key ≡ a.hash)
        × (a.key_store_file ≡ pf.join dir (name ++ text ".wal"))
        × (checked_name name ≡ true)
    known = load_account-hash p pf dir name old files a held

    right_hash : bytes_eq (account_hash p a.name a.private_key) a.hash ≡ true
    right_hash = ap (λ h. bytes_eq h a.hash) known.0 ∙ bytes_eq_refl a.hash

    path_there : (length a.key_store_file == 0) ≡ false
    path_there = ap (λ f. length f == 0) known.1 ∙ some_path
      where
        some_path : (length (pf.join dir (name ++ text ".wal")) == 0) ≡ false
        some_path = ground (arith, path)

    password_there : (length password == 0) ≡ false
    password_there = ground (arith, there)

    sealed : Bytes
    sealed = content (encrypt_with_password p (some json) password none)

    found_there :
        lookup (pf.join dir (name ++ text ".wal")) (insert a.key_store_file sealed files)
        ≡ some sealed
    found_there =
        ap (λ f. lookup f (insert a.key_store_file sealed files)) (sym known.1)
        ∙ lookup-inserted a.key_store_file sealed files
