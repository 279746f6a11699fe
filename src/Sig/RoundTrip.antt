-- ===== src/Sig/RoundTrip.antt =====
-- Signature files, written and then verified.
use bclib.Base.{
  ℕ, ◌+◌, ◌*◌, ◌/◌, ◌%◌, ◌<◌, ◌≡◌, refl, ap, ◌∙◌, Bool, true, false, none, some, [], ◌∷◌, ◌==◌,
  length, arith, if◌then◌else◌, bytes_eq_refl,
}
use bclib.Go.Result.{ok, ◌>>=◌, >>=-eq-ok}
use bclib.Go.Bytes.{IsBytes}
use bclib.Go.Text.{Bytes}
use bclib.Go.Format.{
  digit, hex_value, hex_decode, hex_encode, hex_decode-hex_encode, length-hex_encode,
}
use bclib.Map.{lookup, insert, bytes_key, lookup-insert}
use bclib.Sig.{
  Files, FileSig, Signing, upper, to_upper, found, read_file, sign2file, verify, no_fault,
  decode_hex, file_key, verify_from_sig_file,
}

-- Keys and signatures are bytes and not empty, and fit the arrays that they are copied into; a
-- signature of a key is right for its public key; JSON reads back what it wrote.
pub record IsSigning (sv : Signing) : Type 0 where
  pub key_bytes : (k : Bytes) → IsBytes (sv.pub_key_of k)
  pub key_size : (k : Bytes) → 0 < length (sv.pub_key_of k)
  pub sig_bytes : (k m : Bytes) → IsBytes (sv.sign_bytes k m)
  pub sig_size : (k m : Bytes) → 0 < length (sv.sign_bytes k m)
  pub key_copied : (k : Bytes) → sv.pub_key_from_bytes (sv.pub_key_of k) ≡ sv.pub_key_of k
  pub sig_copied : (k m : Bytes) → sv.signature_from_bytes (sv.sign_bytes k m) ≡ sv.sign_bytes k m
  pub signed : (k m : Bytes) → sv.verify_bytes (sv.pub_key_of k) m (sv.sign_bytes k m) ≡ true
  pub coded : (s : FileSig) → (sv.marshal_sig s >>= sv.unmarshal_sig) ≡ ok s

hex_value-upper : (d : ℕ) → d < 16 → hex_value (upper (digit d)) ≡ some d
unfolding hex_value
hex_value-upper d h = ground arith

hex_decode-to_upper :
    (s : Bytes)
    → IsBytes s
    → hex_decode (to_upper (hex_encode s)) ≡ record { bytes = s; error = none }
unfolding hex_decode hex_encode
hex_decode-to_upper [] h = refl
hex_decode-to_upper (b ∷ s) h =
    rw
      (
        hex_value-upper (b / 16) (omega (arith, h.0)),
        hex_value-upper (b % 16) (omega arith),
        hex_decode-to_upper s h.1,
      )
      (λ i. record { bytes = joined i ∷ s; error = none })
  where
    joined : b / 16 * 16 + b % 16 ≡ b
    joined = omega arith

decode_hex-hex_encode : (s : Bytes) → IsBytes s → decode_hex (hex_encode s) ≡ ok s
decode_hex-hex_encode s h = ap (λ r. no_fault r.bytes r.error) (hex_decode-hex_encode s h)

decode_hex-to_upper : (s : Bytes) → IsBytes s → decode_hex (to_upper (hex_encode s)) ≡ ok s
decode_hex-to_upper s h = ap (λ r. no_fault r.bytes r.error) (hex_decode-to_upper s h)

verify-signed :
    (sv : Signing) (key user_data : Bytes)
    → IsSigning sv
    → verify sv (sv.pub_key_of key) user_data (sv.sign_bytes key user_data) ≡ ok true
unfolding verify
verify-signed sv key user_data c =
    rw (key_there, sig_there, c.key_copied key, c.sig_copied key user_data, c.signed key user_data)
      refl
  where
    key_there : (length (sv.pub_key_of key) == 0) ≡ false
    key_there = ground (arith, c.key_size key)

    sig_there : (length (sv.sign_bytes key user_data) == 0) ≡ false
    sig_there = ground (arith, c.sig_size key user_data)

read_back :
    (name content : Bytes) (files : Files) → read_file name (insert name content files) ≡ ok content
read_back name content files =
    ap found (lookup-insert name name content files)
    ∙ ap (λ t. found (if t then some content else lookup name files)) (bytes_eq_refl name)

file_key-hex_encode :
    (key sig : Bytes)
    → IsBytes key
    → 0 < length key
    → file_key (record { pub_key1 = hex_encode key; pub_key2 = []; signature = sig }) ≡ ok key
file_key-hex_encode key sig h size = rw there (decode_hex-hex_encode key h)
  where
    there : (length (hex_encode key) == 0) ≡ false
    there = ground (arith, length-hex_encode key)

-- A signature file that Sign2File wrote of data that is not empty, without a fault of the file
-- system, is accepted for the data by VerifyFromSigFile.
pub verify_from_sig_file-sign2file :
    (sv : Signing) (key user_data sig_file : Bytes) (files : Files)
    → IsSigning sv
    → 0 < length user_data
    → (sign2file sv none key user_data sig_file files
        >>= verify_from_sig_file sv user_data sig_file)
      ≡ ok true
unfolding sign2file verify_from_sig_file
verify_from_sig_file-sign2file sv key user_data sig_file files c size =
    let sent = >>=-eq-ok (sv.marshal_sig file_sig) sv.unmarshal_sig (c.coded file_sig) in
    rw
      (
        there,
        sent.1,
        read_back sig_file sent.0 files,
        sent.2,
        file_key-hex_encode (sv.pub_key_of key)
            (to_upper (hex_encode (sv.sign_bytes key user_data))) (c.key_bytes key)
            (c.key_size key),
        decode_hex-to_upper (sv.sign_bytes key user_data) (c.sig_bytes key user_data),
      )
      (verify-signed sv key user_data c)
  where
    file_sig : FileSig
    file_sig = record {
      pub_key1 = hex_encode (sv.pub_key_of key);
      pub_key2 = [];
      signature = to_upper (hex_encode (sv.sign_bytes key user_data));
    }

    there : (length user_data == 0) ≡ false
    there = ground arith

-- Verify returns true or an error, and true for a right signature alone, where neither the key nor
-- the signature is empty.
pub verify-true :
    (sv : Signing) (pub_key user_data sig : Bytes) (b : Bool)
    → verify sv pub_key user_data sig ≡ ok b
    → (b ≡ true)
      × (sv.verify_bytes (sv.pub_key_from_bytes pub_key) user_data (sv.signature_from_bytes sig)
          ≡ true)
      × (0 < length pub_key)
      × (0 < length sig)
unfolding verify
verify-true sv pub_key user_data sig b h = ground arith
