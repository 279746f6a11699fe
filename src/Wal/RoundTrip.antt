-- ===== src/Wal/RoundTrip.antt =====
-- Accounts, imported and then loaded.
use bclib.Base.{
  ◌^◌, ◌<◌, ◌≡◌, refl, sym, ap, ◌∙◌, Bool, true, false, none, some, [], ◌++◌, ◌==◌, length, arith,
  if◌then◌else◌, bytes_eq, bytes_eq_refl, bytes_eq→eq,
}
use bclib.Go.Result.{Result, ok, err, panic, guard, ◌>>=◌, >>=-eq-ok, guard-true}
use bclib.Go.Bytes.{IsBytes}
use bclib.Go.Text.{Bytes, text}
use bclib.Algorithm.Primitives.{Primitives, IsBlockCipher}
use bclib.Algorithm.Cipher.{encrypt_with_password, decrypt_with_password}
use bclib.Algorithm.Cipher.RoundTrip.{decrypt-encrypt}
use bclib.Map.{lookup, insert, bytes_key, lookup-insert}
use bclib.Sig.{Files}
use bclib.Wal.{
  Account, Platform, check_name, checked_name, check_password, account_hash, asked, content, save,
  import_account, or_exit, found_file, load_account,
}

-- The account that an import makes.
abbrev pub imported : Primitives → Platform → Bytes → Bytes → Bytes → Account
imported p pf dir name private_key = record {
  name = name;
  private_key = private_key;
  hash = account_hash p name private_key;
  key_store_file = pf.join dir (name ++ text ".wal");
}

pub lookup-inserted : (name b : Bytes) (files : Files) → lookup name (insert name b files) ≡ some b
lookup-inserted name b files =
    lookup-insert name name b files
    ∙ ap (λ t. if t then some b else lookup name files) (bytes_eq_refl name)

content_sealed :
    (p : Primitives) (json password : Bytes)
    → some (content (encrypt_with_password p (some json) password none))
      ≡ encrypt_with_password p (some json) password none
unfolding encrypt_with_password
content_sealed p json password = refl

pub opened :
    (p : Primitives) (json password : Bytes)
    → IsBlockCipher p
    → IsBytes json
    → length json < 2 ^ 31
    → decrypt_with_password p
        (some (content (encrypt_with_password p (some json) password none)))
        password
        none
      ≡ ok json
opened p json password c b h =
    ap (λ s. decrypt_with_password p s password none) (content_sealed p json password)
    ∙ decrypt-encrypt p c password none json b h

-- ImportAccount of a proper name and a strong password that is not empty, where no file has the
-- account's name and writing does not fail, makes a file from which LoadAccount gets the account.
-- The JSON of the account is of bytes, shorter than 2^31, and is read back but for the file's name.
pub load_account-import_account :
    (p : Primitives) (pf : Platform) (dir name password private_key json : Bytes) (files : Files)
    → IsBlockCipher p
    → checked_name name ≡ true
    → 0 < length password
    → check_password pf password ≡ true
    → 0 < length (pf.join dir (name ++ text ".wal"))
    → lookup (pf.join dir (name ++ text ".wal")) files ≡ none
    → pf.marshal (imported p pf dir name private_key) ≡ ok json
    → IsBytes json
    → length json < 2 ^ 31
    → pf.unmarshal json ≡ ok (record (imported p pf dir name private_key) { key_store_file = [] })
    → (import_account p pf none dir name password private_key files
        >>= (λ (a : Account × Files). load_account p pf dir name password a.1))
      ≡ ok (imported p pf dir name private_key)
unfolding import_account check_name save load_account
load_account-import_account p pf dir name password private_key json files c proper there strong path
      fresh written b short read =
    rw
      (
        proper,
        bytes_eq_refl (account_hash p name private_key),
        path_there,
        fresh,
        password_there,
        strong,
        written,
        lookup-inserted (pf.join dir (name ++ text ".wal"))
            (content (encrypt_with_password p (some json) password none)) files,
        opened p json password c b short,
        read,
        bytes_eq_refl (account_hash p name private_key),
      )
      refl
  where
    path_there : (length (pf.join dir (name ++ text ".wal")) == 0) ≡ false
    path_there = ground (arith, path)

    password_there : (length password == 0) ≡ false
    password_there = ground (arith, there)

ok_account : Account → Result Account → Account
ok_account d (ok a) = a
ok_account d (err e) = d
ok_account d (panic e) = d

or_exit-true : (b : Bool) (u : Unit {0}) → or_exit b ≡ ok u → b ≡ true
or_exit-true true u h = refl
or_exit-true false u h = cc

-- What LoadAccount returns has the hash of its name and its private key, and is of the asked file.
pub load_account-hash :
    (p : Primitives) (pf : Platform) (dir name password : Bytes) (files : Files) (a : Account)
    → load_account p pf dir name password files ≡ ok a
    → (account_hash p a.name a.private_key ≡ a.hash)
      × (a.key_store_file ≡ pf.join dir (name ++ text ".wal"))
      × (checked_name name ≡ true)
unfolding load_account ok_account
load_account-hash p pf dir name password files a e =
    let named = >>=-eq-ok (or_exit (checked_name name)) _ e in
    let found =
      >>=-eq-ok (found_file (lookup (pf.join dir (name ++ text ".wal")) files)) _ named.2 in
    let entered = >>=-eq-ok (asked pf password) _ found.2 in
    let strong = >>=-eq-ok (or_exit (check_password pf entered.0)) _ entered.2 in
    let json = >>=-eq-ok (decrypt_with_password p (some found.0) entered.0 none) _ strong.2 in
    let acct = >>=-eq-ok (pf.unmarshal json.0) _ json.2 in
    let right =
      >>=-eq-ok
        (guard (bytes_eq (account_hash p acct.0.name acct.0.private_key) acct.0.hash)
          "verify hash of wallet failed")
        _ acct.2 in
    let same : record acct.0 { key_store_file = pf.join dir (name ++ text ".wal") } ≡ a =
      ap (ok_account a) right.2 in
    (
      ap (λ x. account_hash p x.name x.private_key) (sym same)
          ∙ bytes_eq→eq _ _ (guard-true _ _ right.0 right.1)
          ∙ ap (λ x. x.hash) same,
      ap (λ x. x.key_store_file) (sym same),
      or_exit-true _ named.0 named.1,
    )
