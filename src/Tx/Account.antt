-- ===== src/Tx/Account.antt =====
-- Transactions that are signed with an account file: package wal behind package tx.
use bclib.Base.{
  and_true, and_false, ℕ, ◌^◌, ◌<◌, ◌≡◌, ◌≢◌, ap, ◌∙◌, true, ◌&&◌, not, none, [], ◌∷◌, ◌++◌, leb,
  ◌==◌, length, arith,
}
use bclib.Go.Result.{Result, ok, guard, ◌>>=◌, ◌>>◌, >>=-eq-ok}
use bclib.Go.Bytes.{IsBytes}
use bclib.Go.Text.{Bytes, text, has_prefix, split, Lacks, split-piece, split-last}
use bclib.Algorithm.Primitives.{Primitives, IsBlockCipher}
use bclib.Map.{lookup, bytes_key}
use bclib.Sig.{Files}
use bclib.Wal.{
  Account, Platform, is_name_char, all_name_chars, checked_name, check_password, import_account,
  load_account,
}
use bclib.Wal.RoundTrip.{imported, load_account-import_account}
use bclib.Tx.{Ed25519Sig, Services, Version, must, sign, sign_with_account, wrap_tx_ex}
use bclib.Tx.Reading.{settle, tx_parse}
use bclib.Tx.RoundTrip.{IsTransport, IsSigner, tx_parse-written}

-- The services with the account files of package wal.
abbrev pub with_wal : Services → Primitives → Platform → Files → Services
with_wal sv p pf files = record sv {
  load_account = λ dir name password.
      load_account p pf dir name password files >>= λ (a : Account). ok a.private_key;
}

-- The name and the password of an account, as a private key is given.
abbrev pub account_text : Bytes → Bytes → Bytes
account_text name password = name ++ b':' ∷ password

name_char-colon : (c : ℕ) → is_name_char c ≡ true → c ≢ b':'
name_char-colon c h e = ground arith

all_name_chars-Lacks : (name : Bytes) → all_name_chars name ≡ true → Lacks b':' name
all_name_chars-Lacks [] h = tt
all_name_chars-Lacks (c ∷ name) h =
    let both = and_true (is_name_char c) (all_name_chars name) h in
    (name_char-colon c both.0, all_name_chars-Lacks name both.1)

checked_name-Lacks : (name : Bytes) → checked_name name ≡ true → Lacks b':' name
checked_name-Lacks name h =
    all_name_chars-Lacks name
      (and_true (leb 1 (length name) && leb (length name) 40) (all_name_chars name) h).1

account_text-pieces :
    (name password : Bytes)
    → Lacks b':' name
    → Lacks b':' password
    → split b':' (account_text name password) ≡ name ∷ password ∷ []
account_text-pieces name password n w =
    split-piece b':' name password n ∙ ap (λ l. name ∷ l) (split-last b':' password w)

-- The signature of a key.
abbrev by_key : Services → Bytes → Bytes → Ed25519Sig
by_key sv key payload = record {
  sig_type = text "ed25519";
  pub_key = sv.pub_key_of key;
  sig_value = sv.sign_bytes key payload;
}

module _ (sv : Services) (version : Version) (transport : IsTransport version)
    (signer : IsSigner sv) (p : Primitives) (pf : Platform) where
  sign_with_account-loaded :
      (name password payload : Bytes) (files : Files) (acct : Account)
      → 0 < length payload
      → load_account p pf (text ".") name password files ≡ ok acct
      → sign_with_account (with_wal sv p pf files) payload (name ∷ password ∷ [])
        ≡ ok (by_key sv acct.private_key payload)
  unfolding sign_with_account sign
  sign_with_account-loaded name password payload files acct there loaded =
      ap
        (λ r. must (r >>= λ (a : Account). ok a.private_key) >>= λ key.
          must (sign (with_wal sv p pf files) key payload))
        loaded
      ∙ ap
          (λ b. must (
            guard b "user data which wants be signed length needs more than 0"
            >> ok (by_key sv acct.private_key payload)))
          (not_empty (length payload) there)
    where
      not_empty : (n : ℕ) → 0 < n → not (n == 0) ≡ true
      not_empty n h = ground arith

  tx_parse-loaded :
      (chain_id name password payload : Bytes) (files : Files) (acct : Account)
      → Lacks b'.' chain_id
      → 0 < length payload
      → Lacks b':' name
      → Lacks b':' password
      → load_account p pf (text ".") name password files ≡ ok acct
      → (wrap_tx_ex (with_wal sv p pf files) version chain_id payload (account_text name password)
          >>= tx_parse sv version chain_id)
        ≡ ok (settle (sv.pub_key_of acct.private_key) (sv.decode_tx payload))
  unfolding wrap_tx_ex
  tx_parse-loaded chain_id name password payload files acct h there n w loaded =
      let signed = by_key sv acct.private_key payload in
      let sent = >>=-eq-ok (sv.encode_sig signed) sv.decode_sig (signer.coded signed) in
      rw
        (
          account_text-pieces name password n w,
          and_false (has_prefix (account_text name password) (text "0x")),
          sign_with_account-loaded name password payload files acct there loaded,
          sent.1,
        )
        (tx_parse-written sv version transport signer chain_id acct.private_key payload sent.0 h
          sent.2)

-- A transaction that is signed with the account that ImportAccount wrote in the current directory,
-- given as its name and its password with a colon between, is read by TxParse with the public key of
-- the imported private key. The chain's name has no dot, the password no colon, the payload is not
-- empty, and the account is one that LoadAccount gets back: its name is proper, its password strong
-- and not empty, no file has its name, writing does not fail, and its JSON, of bytes and shorter than
-- 2^31, is read back but for the file's name.
pub tx_parse-wrap_tx_ex_account :
    (sv : Services) (version : Version) (p : Primitives) (pf : Platform)
    (chain_id name password private_key payload json : Bytes) (files : Files)
    → IsTransport version
    → IsSigner sv
    → Lacks b'.' chain_id
    → 0 < length payload
    → Lacks b':' password
    → IsBlockCipher p
    → checked_name name ≡ true
    → 0 < length password
    → check_password pf password ≡ true
    → 0 < length (pf.join (text ".") (name ++ text ".wal"))
    → lookup (pf.join (text ".") (name ++ text ".wal")) files ≡ none
    → pf.marshal (imported p pf (text ".") name private_key) ≡ ok json
    → IsBytes json
    → length json < 2 ^ 31
    → pf.unmarshal json
      ≡ ok (record (imported p pf (text ".") name private_key) { key_store_file = [] })
    → (import_account p pf none (text ".") name password private_key files
        >>= (λ (a : Account × Files).
            wrap_tx_ex (with_wal sv p pf a.1) version chain_id payload (account_text name password)
            >>= tx_parse sv version chain_id))
      ≡ ok (settle (sv.pub_key_of private_key) (sv.decode_tx payload))
tx_parse-wrap_tx_ex_account sv version p pf chain_id name password private_key payload json files
      transport signer h some_payload no_colon c proper there strong path fresh written b short
      read =
    let (a, made, loaded) =
      >>=-eq-ok (import_account p pf none (text ".") name password private_key files)
        (λ (r : Account × Files). load_account p pf (text ".") name password r.1)
        (load_account-import_account p pf (text ".") name password private_key json files c proper
          there strong path fresh written b short read) in
    ap
      (λ (r : Result (Account × Files)). r >>= (λ (q : Account × Files).
        wrap_tx_ex (with_wal sv p pf q.1) version chain_id payload (account_text name password)
        >>= tx_parse sv version chain_id))
      made
    ∙ tx_parse-loaded sv version transport signer p pf chain_id name password payload a.1
        (imported p pf (text ".") name private_key) h some_payload (checked_name-Lacks name proper)
        no_colon loaded
