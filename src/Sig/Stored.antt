-- ===== src/Sig/Stored.antt =====
-- Signatures of stored files: SignBinFile and then VerifyBinFile.
use bclib.Base.{
  ◌<◌, ◌≡◌, ◌≢◌, sym, ap, ◌∙◌, not, true, none, some, [], ◌==◌, length, if◌then◌else◌, bytes_eq,
  bytes_eq→eq, Bool-cases, inl, inr,
}
use bclib.Go.Result.{ok, ok-injective, guard, ◌>>=◌, >>=-eq-ok}
use bclib.Go.Text.{Bytes}
use bclib.Go.Format.{hex_encode}
use bclib.Map.{lookup, insert, bytes_key, lookup-insert}
use bclib.Sig.{
  Files, FileSig, Signing, to_upper, found, read_file, sign2file, sign_bin_file,
  verify_from_sig_file, verify_bin_file,
}
use bclib.Sig.RoundTrip.{IsSigning, verify_from_sig_file-sign2file}

read_file-insert_other :
    (name other content : Bytes) (files : Files)
    → name ≢ other
    → read_file name (insert other content files) ≡ read_file name files
read_file-insert_other name other content files h = elim (Bool-cases (bytes_eq other name)) [
  | inl same ↦ absurd (h (sym (bytes_eq→eq other name same)))
  | inr apart ↦
      ap found (lookup-insert other name content files)
      ∙ ap (λ t. found (if t then some content else lookup name files)) apart
]

abbrev signed_file : Signing → Bytes → Bytes → FileSig
signed_file sv key user_data = record {
  pub_key1 = hex_encode (sv.pub_key_of key);
  pub_key2 = [];
  signature = to_upper (hex_encode (sv.sign_bytes key user_data));
}

-- Sign2File leaves the other files.
read_file-sign2file :
    (sv : Signing) (key user_data sig_file name : Bytes) (files files' : Files)
    → sign2file sv none key user_data sig_file files ≡ ok files'
    → name ≢ sig_file
    → read_file name files' ≡ read_file name files
unfolding sign2file
read_file-sign2file sv key user_data sig_file name files files' e h =
    let guarded =
      >>=-eq-ok
        (guard (not (length user_data == 0))
          "user data which wants be signed length needs more than 0")
        _ e in
    let coded = >>=-eq-ok (sv.marshal_sig (signed_file sv key user_data)) _ guarded.2 in
    ap (read_file name) (sym (ok-injective coded.2))
    ∙ read_file-insert_other name sig_file coded.0 files h

-- VerifyBinFile accepts the signature that SignBinFile wrote of a file that is not empty into another
-- file, without a fault of the file system.
pub verify_bin_file-sign_bin_file :
    (sv : Signing) (key bin_file sig_file user_data : Bytes) (files : Files)
    → IsSigning sv
    → lookup bin_file files ≡ some user_data
    → 0 < length user_data
    → bin_file ≢ sig_file
    → (sign_bin_file sv none key bin_file sig_file files >>= verify_bin_file sv bin_file sig_file)
      ≡ ok true
unfolding sign_bin_file verify_bin_file
verify_bin_file-sign_bin_file sv key bin_file sig_file user_data files c held there apart =
    let (files', signed, verified) =
      >>=-eq-ok (sign2file sv none key user_data sig_file files)
        (verify_from_sig_file sv user_data sig_file)
        (verify_from_sig_file-sign2file sv key user_data sig_file files c there) in
    let kept =
      read_file-sign2file sv key user_data sig_file bin_file files files' signed apart
      ∙ ap found held in
    ap
      (λ r.
        r
        >>= (λ b. sign2file sv none key b sig_file files)
        >>= verify_bin_file sv bin_file sig_file)
      (ap found held)
    ∙ ap (λ r. r >>= verify_bin_file sv bin_file sig_file) signed
    ∙ ap (λ r. r >>= (λ b. verify_from_sig_file sv b sig_file files')) kept
    ∙ verified
