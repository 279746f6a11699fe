-- ===== src/Tx/First.antt =====
-- tx/v1: TxParse of the first version, a method that fills the transaction it is called on.
use bclib.Base.{ℕ, ◌&&◌, String, Option, none, some, [], bytes_eq, if◌then◌else◌}
use bclib.Go.Result.{Result, ok, err, panic, ◌>>=◌}
use bclib.Go.Text.{Bytes, text, split}
use bclib.Tx.{Ed25519Sig, Services, mac}
use bclib.Tx.Reading.{Pieces, five, zero_key}

-- A transaction is to one contract, with its call's parameters as bytes.
pub record TransactionV1 : Type 0 where
  pub nonce : ℕ
  pub gas_limit : ℕ
  pub note : Bytes
  pub to : Bytes
  pub parameters : Bytes

-- The results (address, public key, error).
pub record Signer : Type 0 where
  pub address : Bytes
  pub pub_key : Bytes
  pub error : Option String

abbrev pub no_signer : Bytes → String → Signer
no_signer key e = record { address = []; pub_key = key; error = some e }

abbrev pub Decoder : Type 0
Decoder = Bytes → TransactionV1 × Option String

abbrev finish :
    Services → Bytes → Bytes → TransactionV1 × Option String → Result (TransactionV1 × Signer)
finish sv chain_id key (tx, some e) = ok (tx, no_signer key e)
finish sv chain_id key (tx, none) =
    sv.address key chain_id >>= λ a. ok (tx, record { address = a; pub_key = key; error = none })

abbrev check :
    Services
    → Decoder
    → Bytes
    → Bytes
    → TransactionV1
    → Result Ed25519Sig
    → Result (TransactionV1 × Signer)
check sv decode chain_id tx_data tx (err e) = ok (tx, no_signer zero_key e)
check sv decode chain_id tx_data tx (panic e) = panic e
check sv decode chain_id tx_data tx (ok sig_info) =
    if sv.verify_bytes sig_info.pub_key tx_data sig_info.sig_value
    then finish sv chain_id sig_info.pub_key (decode tx_data)
    else ok (tx, no_signer sig_info.pub_key "verify sig fail")

abbrev read_pieces :
    Services → Decoder → Bytes → TransactionV1 → Option Pieces → Result (TransactionV1 × Signer)
read_pieces sv decode chain_id tx none = ok (tx, no_signer zero_key "tx data error")
read_pieces sv decode chain_id tx (some strs) =
    if bytes_eq strs.mac (mac chain_id)
      && bytes_eq strs.version (text "v1")
      && bytes_eq strs.signers (text "<1>")
    then check sv decode chain_id (sv.base58_decode strs.payload) tx
        (sv.decode_sig (sv.base58_decode strs.signature))
    else ok (tx, no_signer zero_key "tx data error")

-- TxParse of v1: the transaction it leaves in its receiver, and its results. `decode` is rlp.Decode
-- on this version's transactions.
unfoldable pub tx_parse_v1 :
    Services → Decoder → Bytes → Bytes → TransactionV1 → Result (TransactionV1 × Signer)
tx_parse_v1 sv decode chain_id tx_string tx =
    read_pieces sv decode chain_id tx (five (split b'.' tx_string))
