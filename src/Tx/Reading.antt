-- ===== src/Tx/Reading.antt =====
-- tx/v2 and tx/v3: TxParse and QueryDataParse, which check the signature of a text and read it.
use bclib.Base.{
  ℕ, zero, suc, String, Option, none, some, List, [], ◌∷◌, ◌++◌, ltb, ◌==◌, length, replicate,
  bytes_eq, if◌then◌else◌,
}
use bclib.Go.Result.{Result, ok, err, panic, guard, deref, out_of_range, ◌>>=◌, ◌>>◌}
use bclib.Go.Int.{pos}
use bclib.Go.Text.{Bytes, text, split}
use bclib.Tx.{Transaction, Query, Services, Version, v2, v3, mac}

-- A public key of zeros, and a transaction of zeros: what Go's named results hold at first.
abbrev pub zero_key : Bytes
zero_key = replicate 32 0

abbrev pub zero_tx : Transaction
zero_tx = record { nonce = 0; gas_limit = pos 0; note = []; messages = [] }

-- The results (tx, pubKey, err).
pub record Parsed : Type 0 where
  pub tx : Transaction
  pub pub_key : Bytes
  pub error : Option String

abbrev pub refused : String → Parsed
refused e = record { tx = zero_tx; pub_key = zero_key; error = some e }

-- The pieces of a text of five.
pub record Pieces : Type 0 where
  pub mac : Bytes
  pub version : Bytes
  pub payload : Bytes
  pub signers : Bytes
  pub signature : Bytes

abbrev pub five : List Bytes → Option Pieces
five (a ∷ b ∷ c ∷ d ∷ e ∷ []) =
    some (record { mac = a; version = b; payload = c; signers = d; signature = e })
five other = none

-- What TxParse does with the signature: the signed bytes, and the key that signed them.
unfoldable pub verified : Services → Version → Bytes → Option Pieces → Result (Bytes × Bytes)
verified sv version chain_id none = err "tx data error"
verified sv version chain_id (some strs) = do
  guard (bytes_eq strs.mac (mac chain_id)) "tx data error"
  guard (bytes_eq strs.version version.name) "tx data error"
  guard (bytes_eq strs.signers (text "<1>")) "tx data error"
  tx_data ← version.decode strs.payload
  sig_bytes ← version.decode strs.signature
  sig_info ← sv.decode_sig sig_bytes
  guard (sv.verify_bytes sig_info.pub_key tx_data sig_info.sig_value) "verify sig fail"
  ok (tx_data, sig_info.pub_key)

-- What TxParse does with the decoded transaction: the number of messages comes before the error of
-- the decoder.
unfoldable pub settle : Bytes → Transaction × Option String → Parsed
settle pub_key (tx, error) =
    let count = length tx.messages in
    record {
      tx = tx;
      pub_key = pub_key;
      error =
          if ltb 2 count
          then some "Up to two messages at one time"
          else if count == 0
          then some "no message in transaction"
          else error;
    }

abbrev pub parse_signed : Services → Result (Bytes × Bytes) → Result Parsed
parse_signed sv (ok (tx_data, key)) = ok (settle key (sv.decode_tx tx_data))
parse_signed sv (err e) = ok (refused e)
parse_signed sv (panic e) = panic e

-- TxParse of v2 and v3, whose chain is a variable of the package.
unfoldable pub tx_parse : Services → Version → Bytes → Bytes → Result Parsed
unfolding verified settle
tx_parse sv version chain_id tx_string =
    parse_signed sv (verified sv version chain_id (five (split b'.' tx_string)))

-- The functions of the two packages.
unfoldable pub tx_parse_v2 : Services → Bytes → Bytes → Result Parsed
unfolding tx_parse
tx_parse_v2 sv chain_id tx_string = tx_parse sv (v2 sv) chain_id tx_string

unfoldable pub tx_parse_v3 : Services → Bytes → Bytes → Result Parsed
unfolding tx_parse
tx_parse_v3 sv chain_id tx_string = tx_parse sv (v3 sv) chain_id tx_string

-- The piece `strs[i]` of a split text.
abbrev piece : ℕ → List Bytes → Option Bytes
piece i [] = none
piece zero (s ∷ strs) = some s
piece (suc i) (s ∷ strs) = piece i strs

-- QueryDataParse, which stands in v2 and v3 alike. It also makes the chain that of package crypto
-- once the signature is right. The number of pieces is not tested.
unfoldable pub query_data_parse : Services → Bytes → Bytes → Result (Bytes × Query)
query_data_parse sv chain_id tx_string =
    let strs = split b'.' tx_string in
    do
      first ← deref (piece 0 strs) out_of_range
      guard (bytes_eq first (chain_id ++ text "<qy>")) "tx data error"
      second ← deref (piece 1 strs) out_of_range
      guard (bytes_eq second (text "v1")) "tx data error"
      fourth ← deref (piece 3 strs) out_of_range
      guard (bytes_eq fourth (text "<1>")) "tx data error"
      third ← deref (piece 2 strs) out_of_range
      fifth ← deref (piece 4 strs) out_of_range
      sig_info ← sv.decode_sig (sv.base58_decode fifth)
      guard (sv.verify_bytes sig_info.pub_key (sv.base58_decode third) sig_info.sig_value)
          "verify sig fail"
      address ← sv.address sig_info.pub_key chain_id
      query ← sv.decode_query (sv.base58_decode third)
      ok (address, query)
