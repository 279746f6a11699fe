-- ===== src/Tx.antt =====
-- tx/v2 and tx/v3: a signed transaction as text, and its reading. The two versions differ in the
-- version's name and in how bytes are written: base58 in v2, base64 in v3.
pub mod Reading
pub mod First
pub mod RoundTrip
pub mod Account
pub mod Sound
mod Tests
use bclib.Base.{
  ℕ, ◌+◌, ◌≡◌, Bool, true, false, ◌&&◌, not, String, Option, none, some, List, [], ◌∷◌, ◌++◌, leb,
  ltb, ◌==◌, length, drop, replicate, bytes_eq, if◌then◌else◌,
}
use bclib.Go.Result.{Result, ok, err, panic, guard, deref, out_of_range, ◌>>=◌, ◌>>◌}
use bclib.Go.Int.{ℤ}
use bclib.Go.Text.{Bytes, text, has_prefix, split}
use bclib.Go.Format.{hex_decode}

-- types/types.go and sig/sig.go. An ed25519 key or signature is its bytes.
pub record Message : Type 0 where
  pub contract : Bytes
  pub method_id : ℕ
  pub items : List Bytes

pub record Transaction : Type 0 where
  pub nonce : ℕ
  pub gas_limit : ℤ
  pub note : Bytes
  pub messages : List Message

pub record Query : Type 0 where
  pub query_key : Bytes

pub record Ed25519Sig : Type 0 where
  pub sig_type : Bytes
  pub pub_key : Bytes
  pub sig_value : Bytes

-- What the packages call: ed25519 keys, package rlp on the types above, the account files of package
-- wal. `decode_tx` gives what rlp.Decode has put into its target, and its error.
pub record Services : Type 0 where
  pub priv_key_from_bytes : Bytes → Bytes
  pub pub_key_of : Bytes → Bytes
  pub sign_bytes : Bytes → Bytes → Bytes
  pub verify_bytes : Bytes → Bytes → Bytes → Bool
  pub address : Bytes → Bytes → Result Bytes
  pub encode_sig : Ed25519Sig → Result Bytes
  pub decode_sig : Bytes → Result Ed25519Sig
  pub encode_tx : Transaction → Result Bytes
  pub decode_tx : Bytes → Transaction × Option String
  pub decode_query : Bytes → Result Query
  pub load_account : Bytes → Bytes → Bytes → Result Bytes
  pub base58_encode : Bytes → Bytes
  pub base58_decode : Bytes → Bytes
  pub base64_encode : Bytes → Bytes
  pub base64_decode : Bytes → Result Bytes

-- What differs between the versions.
pub record Version : Type 0 where
  pub name : Bytes
  pub encode : Bytes → Bytes
  pub decode : Bytes → Result Bytes

abbrev pub v2 : Services → Version
v2 sv = record {
  name = text "v2";
  encode = sv.base58_encode;
  decode = λ s. ok (sv.base58_decode s);
}

abbrev pub v3 : Services → Version
v3 sv = record { name = text "v3"; encode = sv.base64_encode; decode = sv.base64_decode }

abbrev pub mac : Bytes → Bytes
mac chain_id = chain_id ++ text "<tx>"

-- Five pieces with dots between.
abbrev pub join_five : Bytes → Bytes → Bytes → Bytes → Bytes → Bytes
join_five a b c d e = a ++ b'.' ∷ (b ++ b'.' ∷ (c ++ b'.' ∷ (d ++ b'.' ∷ e)))

-- `panic(err)` on a returned error.
abbrev pub must : {A : Type 0} → Result A → Result A
must (ok a) = ok a
must (err e) = panic e
must (panic e) = panic e

unfoldable pub wrap_invoke_params : {A : Type 0} → (A → Result Bytes) → List A → Result (List Bytes)
wrap_invoke_params encode [] = ok []
wrap_invoke_params encode (param ∷ params) = do
  param_rlp ← must (encode param)
  params_rlp ← wrap_invoke_params encode params
  ok (param_rlp ∷ params_rlp)

unfoldable pub wrap_payload : Services → ℕ → ℤ → Bytes → List Message → Result Bytes
wrap_payload sv nonce gas_limit note messages = must (
    sv.encode_tx
      (record { nonce = nonce; gas_limit = gas_limit; note = note; messages = messages }))

-- sig.Sign
unfoldable pub sign : Services → Bytes → Bytes → Result Ed25519Sig
sign sv private_key user_data = do
  guard (not (length user_data == 0)) "user data which wants be signed length needs more than 0"
  ok (record {
    sig_type = text "ed25519";
    pub_key = sv.pub_key_of private_key;
    sig_value = sv.sign_bytes private_key user_data;
  })

abbrev hex_key : Bytes → Option String → Result Bytes
hex_key bytes none = ok bytes
hex_key bytes (some e) = panic e

-- The private key in hexadecimal digits behind "0x".
unfoldable pub sign_with_hex : Services → Bytes → Bytes → Result Ed25519Sig
sign_with_hex sv payload private_key = do
  bytes ← hex_key (hex_decode (drop 2 private_key)).bytes (hex_decode (drop 2 private_key)).error
  let key = sv.priv_key_from_bytes bytes in
      ok (record {
        sig_type = text "ed25519";
        pub_key = sv.pub_key_of key;
        sig_value = sv.sign_bytes key payload;
      })

-- The name of an account and its password, with a colon between.
unfoldable pub sign_with_account : Services → Bytes → List Bytes → Result Ed25519Sig
unfolding sign
sign_with_account sv payload (name ∷ password ∷ []) = do
  key ← must (sv.load_account (text ".") name password)
  must (sign sv key payload)
sign_with_account sv payload other = panic "Invalid private key format"

unfoldable pub wrap_tx_ex : Services → Version → Bytes → Bytes → Bytes → Result Bytes
unfolding sign_with_hex sign_with_account
wrap_tx_ex sv version chain_id payload private_key =
    let seg = split b':' private_key in
    do
      sig_info ←
          (if has_prefix private_key (text "0x") && length seg == 1
            then sign_with_hex sv payload private_key
            else sign_with_account sv payload seg)
      sig ← must (sv.encode_sig sig_info)
      ok (
          join_five (mac chain_id) version.name (version.encode payload) (text "<1>")
            (version.encode sig))

-- The functions of the two packages.
unfoldable pub wrap_tx_ex_v2 : Services → Bytes → Bytes → Bytes → Result Bytes
unfolding wrap_tx_ex
wrap_tx_ex_v2 sv chain_id payload private_key = wrap_tx_ex sv (v2 sv) chain_id payload private_key

unfoldable pub wrap_tx_ex_v3 : Services → Bytes → Bytes → Bytes → Result Bytes
unfolding wrap_tx_ex
wrap_tx_ex_v3 sv chain_id payload private_key = wrap_tx_ex sv (v3 sv) chain_id payload private_key
