-- ===== src/Tx/Tests.antt =====
-- The theorems on transactions with small services: a key is its own public key, a signature is the
-- key and the message, and bytes are written with 47 added.
use bclib.Base.{
  ℕ, ◌+◌, ◌-◌, ◌≡◌, refl, ap, none, some, [], ◌∷◌, ◌++◌, length, take, drop, take-append_length,
  drop-append_length, bytes_eq, bytes_eq_refl, arith,
}
use bclib.Go.Result.{Result, ok, err, ◌>>=◌}
use bclib.Go.Int.{pos}
use bclib.Go.Text.{Bytes, text, split, Lacks}
use bclib.Tx.{Transaction, Ed25519Sig, Services, v3, wrap_payload, wrap_tx_ex}
use bclib.Tx.Reading.{Parsed, Pieces, five, tx_parse, settle}
use bclib.Tx.RoundTrip.{IsTransport, IsSigner, hex_text, tx_parse-wrap_payload}
use bclib.Map.{lookup}
use bclib.Algorithm.Address.{sha3_256_of}
use bclib.Sig.{Files}
use bclib.Wal.{Account, import_account}
use bclib.Wal.Tests.{plain_cipher, plain_cipher-IsBlockCipher, platform, password, password_strong}
use bclib.Tx.Account.{with_wal, account_text, tx_parse-wrap_tx_ex_account}
use bclib.Tx.Sound.{Accepted, tx_parse-Accepted}

abbrev raise : Bytes → Bytes
raise [] = []
raise (b ∷ s) = (b + 47) ∷ raise s

abbrev lower : Bytes → Bytes
lower [] = []
lower (b ∷ s) = (b - 47) ∷ lower s

abbrev write_sig : Ed25519Sig → Bytes
write_sig s = length s.sig_type ∷ length s.pub_key ∷ (s.sig_type ++ (s.pub_key ++ s.sig_value))

abbrev read_sig : Bytes → Result Ed25519Sig
read_sig (a ∷ b ∷ s) =
    ok (record { sig_type = take a s; pub_key = take b (drop a s); sig_value = drop b (drop a s) })
read_sig other = err "short"

abbrev transfer : Transaction
transfer = record {
  nonce = 1;
  gas_limit = pos 500;
  note = text "example";
  messages = record { contract = text "bcbToken"; method_id = 7; items = [] } ∷ [];
}

abbrev services : Services
services = record {
  priv_key_from_bytes = λ b. b;
  pub_key_of = λ k. k;
  sign_bytes = λ k m. k ++ m;
  verify_bytes = λ k m s. bytes_eq s (k ++ m);
  address = λ k c. ok c;
  encode_sig = λ s. ok (write_sig s);
  decode_sig = read_sig;
  encode_tx = λ t. ok (text "transfer");
  decode_tx = λ b. (transfer, none);
  decode_query = λ b. ok (record { query_key = b });
  load_account = λ d n p. err "no account";
  base58_encode = raise;
  base58_decode = lower;
  base64_encode = raise;
  base64_decode = λ s. ok (lower s);
}

lower-raise : (s : Bytes) → lower (raise s) ≡ s
lower-raise [] = refl
lower-raise (b ∷ s) = λ i. joined b i ∷ lower-raise s i
  where
    joined : (b : ℕ) → b + 47 - 47 ≡ b
    joined b = omega arith

raise-Lacks : (s : Bytes) → Lacks b'.' (raise s)
raise-Lacks [] = tt
raise-Lacks (b ∷ s) = (λ e. omega (arith, e), raise-Lacks s)

v3-IsTransport : IsTransport (v3 services)
v3-IsTransport = record {
  decoded = λ b. ap ok (lower-raise b);
  dotless = raise-Lacks;
  named = (λ e. omega (arith, e), (λ e. omega (arith, e), tt));
}

same_sig : (s : Ed25519Sig) → read_sig (write_sig s) ≡ ok s
same_sig s =
    rw
      (
        take-append_length s.sig_type (s.pub_key ++ s.sig_value),
        drop-append_length s.sig_type (s.pub_key ++ s.sig_value),
        take-append_length s.pub_key s.sig_value,
        drop-append_length s.pub_key s.sig_value,
      )
      refl

services-IsSigner : IsSigner services
services-IsSigner = record { signed = λ key m. bytes_eq_refl (key ++ m); coded = same_sig }

abbrev key : Bytes
key = 18 ∷ 171 ∷ []

bcb-Lacks : Lacks b'.' (text "bcb")
bcb-Lacks = (λ e. omega (arith, e), (λ e. omega (arith, e), (λ e. omega (arith, e), tt)))

tx_parse-wrap_payload_example :
    (wrap_payload services 1 (pos 500) (text "example") transfer.messages
      >>= (λ p. wrap_tx_ex services (v3 services) (text "bcb") p (hex_text key))
      >>= tx_parse services (v3 services) (text "bcb"))
    ≡ ok (record { tx = transfer; pub_key = key; error = none })
tx_parse-wrap_payload_example =
    tx_parse-wrap_payload services (v3 services) (text "bcb") key (text "transfer") transfer
      v3-IsTransport services-IsSigner bcb-Lacks (omega arith, (omega arith, tt)) refl refl
      (omega arith) (omega arith)

abbrev accepted : Parsed
accepted = record { tx = transfer; pub_key = key; error = none }

abbrev signed_text : Bytes
signed_text =
    text "bcb<tx>.v3."
    ++ raise (text "transfer")
    ++ text ".<1>."
    ++ raise (
        write_sig
          (record { sig_type = text "ed25519"; pub_key = key; sig_value = key ++ text "transfer" }))

signed_text_read : tx_parse services (v3 services) (text "bcb") signed_text ≡ ok accepted
unfolding tx_parse split
signed_text_read = refl

tx_parse-Accepted_example :
    (strs : Pieces) × (five (split b'.' signed_text) ≡ some strs)
    × Accepted services (v3 services) (text "bcb") strs accepted
tx_parse-Accepted_example =
    tx_parse-Accepted services (v3 services) (text "bcb") signed_text accepted signed_text_read refl

password-Lacks : Lacks b':' password
password-Lacks = (
  λ e. omega (arith, e),
  (
    λ e. omega (arith, e),
    (
      λ e. omega (arith, e),
      (
        λ e. omega (arith, e),
        (
          λ e. omega (arith, e),
          (
            λ e. omega (arith, e),
            (λ e. omega (arith, e), (λ e. omega (arith, e), (λ e. omega (arith, e), tt))),
          ),
        ),
      ),
    ),
  ),
)

tx_parse-wrap_tx_ex_account_example :
    (import_account plain_cipher platform none (text ".") (text "bob") password (1 ∷ 2 ∷ []) []
      >>= (λ (a : Account × Files).
          wrap_tx_ex
            (with_wal services plain_cipher platform a.1)
            (v3 services)
            (text "bcb")
            (text "transfer")
            (account_text (text "bob") password)
          >>= tx_parse services (v3 services) (text "bcb")))
    ≡ ok (record { tx = transfer; pub_key = 1 ∷ 2 ∷ []; error = none })
unfolding lookup sha3_256_of settle
tx_parse-wrap_tx_ex_account_example =
    tx_parse-wrap_tx_ex_account services (v3 services) plain_cipher platform (text "bcb")
      (text "bob") password (1 ∷ 2 ∷ []) (text "transfer") (7 ∷ []) [] v3-IsTransport
      services-IsSigner bcb-Lacks (omega arith) password-Lacks plain_cipher-IsBlockCipher refl
      (omega arith) password_strong (omega arith) refl refl (omega arith, tt) (omega arith) refl
