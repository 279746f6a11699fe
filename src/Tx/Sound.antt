-- ===== src/Tx/Sound.antt =====
-- What TxParse accepts.
use mathlib.Core.Path.{subst}
use bclib.Base.{
  ◌≤◌, ◌<◌, ◌≡◌, refl, sym, ap, ◌∙◌, true, String, Option, none, some, [], ltb, ◌==◌, length,
  bytes_eq, bytes_eq→eq, arith, Bool-cases, inl, inr,
}
use bclib.Go.Result.{Result, ok, err, panic, guard, >>=-eq-ok, guard-true}
use bclib.Go.Text.{Bytes, text, split}
use bclib.Tx.{Ed25519Sig, Services, Version, mac}
use bclib.Tx.Reading.{Parsed, Pieces, five, verified, settle, parse_signed, tx_parse}

-- The first, second and fourth pieces are the chain's, the version's and the number of signers; the
-- fifth one holds a signature by the returned key of the very bytes of the third one, from which the
-- returned transaction was decoded without an error; the transaction has one message or two.
pub record Accepted (sv : Services) (version : Version) (chain_id : Bytes) (strs : Pieces)
    (r : Parsed) : Type 0 where
  pub chain : strs.mac ≡ mac chain_id
  pub versioned : strs.version ≡ version.name
  pub one_signer : strs.signers ≡ text "<1>"
  pub payload : Bytes
  pub sig_bytes : Bytes
  pub sig_info : Ed25519Sig
  pub decoded : version.decode strs.payload ≡ ok payload
  pub signature_decoded : version.decode strs.signature ≡ ok sig_bytes
  pub signature_read : sv.decode_sig sig_bytes ≡ ok sig_info
  pub signer : sig_info.pub_key ≡ r.pub_key
  pub signed : sv.verify_bytes r.pub_key payload sig_info.sig_value ≡ true
  pub read : sv.decode_tx payload ≡ (r.tx, none)
  pub some_message : 0 < length r.tx.messages
  pub few : length r.tx.messages ≤ 2

record Checked (sv : Services) (version : Version) (chain_id : Bytes) (strs : Pieces)
    (payload key : Bytes) : Type 0 where
  chain : strs.mac ≡ mac chain_id
  versioned : strs.version ≡ version.name
  one_signer : strs.signers ≡ text "<1>"
  sig_bytes : Bytes
  sig_info : Ed25519Sig
  decoded : version.decode strs.payload ≡ ok payload
  signature_decoded : version.decode strs.signature ≡ ok sig_bytes
  signature_read : sv.decode_sig sig_bytes ≡ ok sig_info
  signer : sig_info.pub_key ≡ key
  signed : sv.verify_bytes key payload sig_info.sig_value ≡ true

ok_pair : Result (Bytes × Bytes) → Bytes × Bytes
ok_pair (ok p) = p
ok_pair (err e) = ([], [])
ok_pair (panic e) = ([], [])

verified-Checked :
    (sv : Services) (version : Version) (chain_id : Bytes) (strs : Pieces) (payload key : Bytes)
    → verified sv version chain_id (some strs) ≡ ok (payload, key)
    → Checked sv version chain_id strs payload key
unfolding verified ok_pair
verified-Checked sv version chain_id strs payload key h =
    let first = >>=-eq-ok (guard (bytes_eq strs.mac (mac chain_id)) "tx data error") _ h in
    let second = >>=-eq-ok (guard (bytes_eq strs.version version.name) "tx data error") _ first.2 in
    let third = >>=-eq-ok (guard (bytes_eq strs.signers (text "<1>")) "tx data error") _ second.2 in
    let bytes = >>=-eq-ok (version.decode strs.payload) _ third.2 in
    let sig_bytes = >>=-eq-ok (version.decode strs.signature) _ bytes.2 in
    let info = >>=-eq-ok (sv.decode_sig sig_bytes.0) _ sig_bytes.2 in
    let right =
      >>=-eq-ok (guard (sv.verify_bytes info.0.pub_key bytes.0 info.0.sig_value) "verify sig fail")
        _ info.2 in
    let same_payload : bytes.0 ≡ payload = ap (λ r. (ok_pair r).0) right.2 in
    let same_key : info.0.pub_key ≡ key = ap (λ r. (ok_pair r).1) right.2 in
    record {
      chain = bytes_eq→eq _ _ (guard-true _ _ first.0 first.1);
      versioned = bytes_eq→eq _ _ (guard-true _ _ second.0 second.1);
      one_signer = bytes_eq→eq _ _ (guard-true _ _ third.0 third.1);
      sig_bytes = sig_bytes.0;
      sig_info = info.0;
      decoded = bytes.1 ∙ ap ok same_payload;
      signature_decoded = sig_bytes.1;
      signature_read = info.1;
      signer = same_key;
      signed =
          ap (λ k. sv.verify_bytes k payload info.0.sig_value) (sym same_key)
          ∙ ap (λ d. sv.verify_bytes info.0.pub_key d info.0.sig_value) (sym same_payload)
          ∙ guard-true _ _ right.0 right.1;
    }

ok_parsed : Parsed → Result Parsed → Parsed
ok_parsed d (ok r) = r
ok_parsed d (err e) = d
ok_parsed d (panic e) = d

not_none : {e : String} → some e ≡ none → ⊥
not_none h = cc

settled :
    (sv : Services) (version : Version) (chain_id : Bytes) (strs : Pieces) (payload key : Bytes)
    → Checked sv version chain_id strs payload key
    → (settle key (sv.decode_tx payload)).error ≡ none
    → Accepted sv version chain_id strs (settle key (sv.decode_tx payload))
unfolding settle
settled sv version chain_id strs payload key c h =
    elim (Bool-cases (ltb 2 (length (sv.decode_tx payload).0.messages))) [
      | inl many ↦ absurd (not_none (rw many at h))
      | inr few ↦ elim (Bool-cases (length (sv.decode_tx payload).0.messages == 0)) [
        | inl nothing ↦ absurd (not_none (rw (few, nothing) at h))
        | inr some_message ↦ record {
          chain = c.chain;
          versioned = c.versioned;
          one_signer = c.one_signer;
          payload = payload;
          sig_bytes = c.sig_bytes;
          sig_info = c.sig_info;
          decoded = c.decoded;
          signature_decoded = c.signature_decoded;
          signature_read = c.signature_read;
          signer = c.signer;
          signed = c.signed;
          read = λ i. ((sv.decode_tx payload).0, (rw (few, some_message) at h) i);
          some_message = ground arith;
          few = ground arith;
        }
      ]
    ]

-- What TxParse returns without an error comes from a text of five pieces: the chain's, the version's,
-- the payload, one signer, and a signature by the returned key of the bytes of the payload, from which
-- the returned transaction was decoded.
pub tx_parse-Accepted :
    (sv : Services) (version : Version) (chain_id tx_string : Bytes) (r : Parsed)
    → tx_parse sv version chain_id tx_string ≡ ok r
    → r.error ≡ none
    → (strs : Pieces) × (five (split b'.' tx_string) ≡ some strs)
      × Accepted sv version chain_id strs r
unfolding tx_parse verified ok_parsed
tx_parse-Accepted sv version chain_id tx_string r e h = pieces (five (split b'.' tx_string)) refl e
  where
    signed :
        (strs : Pieces) (m : Result (Bytes × Bytes))
        → verified sv version chain_id (some strs) ≡ m
        → parse_signed sv m ≡ ok r
        → Accepted sv version chain_id strs r
    signed strs (ok (payload, key)) v e' =
        let same : settle key (sv.decode_tx payload) ≡ r = ap (ok_parsed r) e' in
        subst (λ q. Accepted sv version chain_id strs q) same
          (settled sv version chain_id strs payload key
            (verified-Checked sv version chain_id strs payload key v) (ap (λ q. q.error) same ∙ h))
    signed strs (err m) v e' = absurd (not_none (ap (λ q. (ok_parsed r q).error) e' ∙ h))
    signed strs (panic m) v e' = cc

    pieces :
        (p : Option Pieces)
        → five (split b'.' tx_string) ≡ p
        → parse_signed sv (verified sv version chain_id p) ≡ ok r
        → (strs : Pieces) × (five (split b'.' tx_string) ≡ some strs)
          × Accepted sv version chain_id strs r
    pieces none q e' = absurd (not_none (ap (λ q. (ok_parsed r q).error) e' ∙ h))
    pieces (some strs) q e' =
        (strs, q, signed strs (verified sv version chain_id (some strs)) refl e')
