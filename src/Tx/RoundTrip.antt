-- ===== src/Tx/RoundTrip.antt =====
-- Transactions, written and then parsed.
use bclib.Base.{
  ℕ, ◌/◌, ◌%◌, ◌≤◌, ◌<◌, ◌≡◌, refl, ap, ◌∙◌, ◌≢◌, true, false, none, some, [], ◌∷◌, ◌++◌,
  All-append, ltb, ◌==◌, length, bytes_eq_refl, arith,
}
use bclib.Go.Result.{ok, panic, out_of_range, ◌>>=◌, >>=-eq-ok}
use bclib.Go.Bytes.{IsBytes}
use bclib.Go.Text.{Bytes, text, has_prefix, split, Lacks, split-piece, split-last}
use bclib.Go.Format.{digit, hex_encode, hex_decode-hex_encode}
use bclib.Tx.{
  Transaction, Ed25519Sig, Services, Version, mac, join_five, must, wrap_payload, sign_with_hex,
  wrap_tx_ex,
}
use bclib.Tx.Reading.{verified, settle, tx_parse, query_data_parse}

-- What the code relies on: the writing of bytes is undone by its reading and has no dot; rlp reads
-- back a signature that it wrote; a signature of a key is right for the key's public key.
pub record IsTransport (version : Version) : Type 0 where
  pub decoded : (b : Bytes) → version.decode (version.encode b) ≡ ok b
  pub dotless : (b : Bytes) → Lacks b'.' (version.encode b)
  pub named : Lacks b'.' version.name

pub record IsSigner (sv : Services) : Type 0 where
  pub signed : (key m : Bytes) → sv.verify_bytes (sv.pub_key_of key) m (sv.sign_bytes key m) ≡ true
  pub coded : (s : Ed25519Sig) → (sv.encode_sig s >>= sv.decode_sig) ≡ ok s

signers-Lacks : Lacks b'.' (text "<1>")
signers-Lacks = (λ e. omega (arith, e), (λ e. omega (arith, e), (λ e. omega (arith, e), tt)))

tag-Lacks : Lacks b'.' (text "<tx>")
tag-Lacks = (
  λ e. omega (arith, e),
  (λ e. omega (arith, e), (λ e. omega (arith, e), (λ e. omega (arith, e), tt))),
)

query-Lacks : Lacks b'.' (text "<qy>")
query-Lacks = (
  λ e. omega (arith, e),
  (λ e. omega (arith, e), (λ e. omega (arith, e), (λ e. omega (arith, e), tt))),
)

digit-Lacks : (d : ℕ) → d < 16 → digit d ≢ b':'
digit-Lacks d h e = ground arith

hex_encode-Lacks : (s : Bytes) → IsBytes s → Lacks b':' (hex_encode s)
unfolding hex_encode
hex_encode-Lacks [] h = tt
hex_encode-Lacks (b ∷ s) h = (
  digit-Lacks (b / 16) (omega (arith, h.0)),
  (digit-Lacks (b % 16) (omega arith), hex_encode-Lacks s h.1),
)

-- The five pieces come back.
split-text :
    (a b c d e : Bytes)
    → Lacks b'.' a
    → Lacks b'.' b
    → Lacks b'.' c
    → Lacks b'.' d
    → Lacks b'.' e
    → split b'.' (join_five a b c d e) ≡ a ∷ b ∷ c ∷ d ∷ e ∷ []
split-text a b c d e ha hb hc hd he =
    split-piece b'.' a (b ++ b'.' ∷ (c ++ b'.' ∷ (d ++ b'.' ∷ e))) ha
    ∙ ap (λ r. a ∷ r)
        (split-piece b'.' b (c ++ b'.' ∷ (d ++ b'.' ∷ e)) hb
          ∙ ap (λ r. b ∷ r)
              (split-piece b'.' c (d ++ b'.' ∷ e) hc
                ∙ ap (λ r. c ∷ r)
                    (split-piece b'.' d e hd ∙ ap (λ r. d ∷ r) (split-last b'.' e he))))

abbrev pub hex_text : Bytes → Bytes
hex_text key = text "0x" ++ hex_encode key

hex_text-pieces : (key : Bytes) → IsBytes key → length (split b':' (hex_text key)) ≡ 1
hex_text-pieces key h = ap length (
    split-last b':' (hex_text key)
      (λ e. omega (arith, e), (λ e. omega (arith, e), hex_encode-Lacks key h)))

module _ (sv : Services) (version : Version) (transport : IsTransport version)
    (signer : IsSigner sv) where
  abbrev key_of : Bytes → Bytes
  key_of key = sv.priv_key_from_bytes key

  -- The signature of a key.
  abbrev pub signature : Bytes → Bytes → Ed25519Sig
  signature key payload = record {
    sig_type = text "ed25519";
    pub_key = sv.pub_key_of key;
    sig_value = sv.sign_bytes key payload;
  }

  sign_with_hex-hex_text :
      (key payload : Bytes)
      → IsBytes key
      → sign_with_hex sv payload (hex_text key) ≡ ok (signature (key_of key) payload)
  unfolding sign_with_hex
  sign_with_hex-hex_text key payload h = rw (hex_decode-hex_encode key h) refl

  verified_pieces :
      (chain_id key payload sig : Bytes)
      → sv.decode_sig sig ≡ ok (signature key payload)
      → verified sv version chain_id (
          some (record {
            mac = mac chain_id;
            version = version.name;
            payload = version.encode payload;
            signers = text "<1>";
            signature = version.encode sig;
          }))
        ≡ ok (payload, sv.pub_key_of key)
  unfolding verified
  verified_pieces chain_id key payload sig e =
      rw
        (
          bytes_eq_refl (mac chain_id),
          bytes_eq_refl version.name,
          transport.decoded payload,
          transport.decoded sig,
          e,
          signer.signed key payload,
        )
        refl

  abbrev pub written : Bytes → Bytes → Bytes → Bytes
  written chain_id payload sig =
      join_five (mac chain_id) version.name (version.encode payload) (text "<1>")
        (version.encode sig)

  pub tx_parse-written :
      (chain_id key payload sig : Bytes)
      → Lacks b'.' chain_id
      → sv.decode_sig sig ≡ ok (signature key payload)
      → tx_parse sv version chain_id (written chain_id payload sig)
        ≡ ok (settle (sv.pub_key_of key) (sv.decode_tx payload))
  unfolding tx_parse
  tx_parse-written chain_id key payload sig h e =
      rw
        (
          split-text (mac chain_id) version.name (version.encode payload) (text "<1>")
              (version.encode sig) (All-append _ chain_id (text "<tx>") h tag-Lacks) transport.named
              (transport.dotless payload) signers-Lacks (transport.dotless sig),
          verified_pieces chain_id key payload sig e,
        )
        refl

  -- TxParse of a text that WrapTxEx made, of the same version and for the same chain, from a payload
  -- and a private key in hexadecimal digits: it finds the key's public key and the payload's
  -- transaction. The chain's name has no dot.
  pub tx_parse-wrap_tx_ex :
      (chain_id key payload : Bytes)
      → Lacks b'.' chain_id
      → IsBytes key
      → (wrap_tx_ex sv version chain_id payload (hex_text key) >>= tx_parse sv version chain_id)
        ≡ ok (settle (sv.pub_key_of (sv.priv_key_from_bytes key)) (sv.decode_tx payload))
  unfolding wrap_tx_ex has_prefix
  tx_parse-wrap_tx_ex chain_id key payload h hk =
      let sent =
        >>=-eq-ok (sv.encode_sig (signature (key_of key) payload)) sv.decode_sig
          (signer.coded (signature (key_of key) payload)) in
      rw (hex_text-pieces key hk, sign_with_hex-hex_text key payload hk, sent.1)
        (tx_parse-written chain_id (key_of key) payload sent.0 h sent.2)

-- The whole way of one or two messages: WrapPayload and WrapTxEx make a text, and TxParse finds the
-- transaction in it, with the public key of the key that signed. `rlp` reads back what it wrote of
-- this transaction.
pub tx_parse-wrap_payload :
    (sv : Services) (version : Version) (chain_id key payload : Bytes) (tx : Transaction)
    → IsTransport version
    → IsSigner sv
    → Lacks b'.' chain_id
    → IsBytes key
    → sv.encode_tx tx ≡ ok payload
    → sv.decode_tx payload ≡ (tx, none)
    → 0 < length tx.messages
    → length tx.messages ≤ 2
    → (wrap_payload sv tx.nonce tx.gas_limit tx.note tx.messages
        >>= (λ p. wrap_tx_ex sv version chain_id p (hex_text key))
        >>= tx_parse sv version chain_id)
      ≡ ok (record { tx = tx; pub_key = sv.pub_key_of (sv.priv_key_from_bytes key); error = none })
unfolding wrap_payload settle
tx_parse-wrap_payload sv version chain_id key payload tx transport signer h hk sent read
      some_message few =
    ap
      (λ r.
        must r
        >>= (λ p. wrap_tx_ex sv version chain_id p (hex_text key))
        >>= tx_parse sv version chain_id)
      sent
    ∙ tx_parse-wrap_tx_ex sv version transport signer chain_id key payload h hk
    ∙ rw (read, few', some_message') refl
  where
    few' : ltb 2 (length tx.messages) ≡ false
    few' = ground arith

    some_message' : (length tx.messages == 0) ≡ false
    some_message' = ground arith

-- QueryDataParse panics on a text of one piece that is the chain's name with <qy> behind it, where
-- the name has no dot: it asks for the second piece without a test of their number.
query_data_parse_panics :
    (sv : Services) (chain_id : Bytes)
    → Lacks b'.' chain_id
    → query_data_parse sv chain_id (chain_id ++ text "<qy>") ≡ panic out_of_range
unfolding query_data_parse
query_data_parse_panics sv chain_id h =
    rw
      (
        split-last b'.' (chain_id ++ text "<qy>")
            (All-append _ chain_id (text "<qy>") h query-Lacks),
        bytes_eq_refl (chain_id ++ text "<qy>"),
      )
      refl
