-- ===== src/Sig/Tests.antt =====
-- The theorems on signature files with small services: a file holds its fields behind their
-- lengths.
use bclib.Base.{
  ◌≡◌, ◌≢◌, refl, ap, false, true, none, [], ◌∷◌, ◌++◌, length, take, drop, take-append_length,
  drop-append_length, bytes_eq, arith,
}
use bclib.Go.Result.{Result, ok, err, ◌>>=◌}
use bclib.Go.Text.{Bytes, text}
use bclib.Map.{lookup}
use bclib.Sig.{Files, FileSig, Signing, sign_bin_file, verify_bin_file}
use bclib.Sig.RoundTrip.{IsSigning}
use bclib.Sig.Stored.{verify_bin_file-sign_bin_file}

abbrev write_sig : FileSig → Bytes
write_sig s = length s.pub_key1 ∷ length s.pub_key2 ∷ (s.pub_key1 ++ (s.pub_key2 ++ s.signature))

abbrev read_sig : Bytes → Result FileSig
read_sig (a ∷ b ∷ s) =
    ok (record { pub_key1 = take a s; pub_key2 = take b (drop a s); signature = drop b (drop a s) })
read_sig other = err "short"

-- Every key stands for the key 7, and a signature is the byte 9.
abbrev services : Signing
services = record {
  pub_key_of = λ k. 7 ∷ [];
  sign_bytes = λ k m. 9 ∷ [];
  verify_bytes = λ k m s. bytes_eq s (9 ∷ []);
  pub_key_from_bytes = λ k. k;
  signature_from_bytes = λ s. s;
  marshal_sig = λ s. ok (write_sig s);
  unmarshal_sig = read_sig;
}

same_sig : (s : FileSig) → read_sig (write_sig s) ≡ ok s
same_sig s =
    rw
      (
        take-append_length s.pub_key1 (s.pub_key2 ++ s.signature),
        drop-append_length s.pub_key1 (s.pub_key2 ++ s.signature),
        take-append_length s.pub_key2 s.signature,
        drop-append_length s.pub_key2 s.signature,
      )
      refl

services-IsSigning : IsSigning services
services-IsSigning = record {
  key_bytes = λ k. (omega arith, tt);
  key_size = λ k. omega arith;
  sig_bytes = λ k m. (omega arith, tt);
  sig_size = λ k m. omega arith;
  key_copied = λ k. refl;
  sig_copied = λ k m. refl;
  signed = λ k m. refl;
  coded = same_sig;
}

abbrev a_file : Files
a_file = (text "a.bin", text "data") ∷ []

names_apart : text "a.bin" ≢ text "a.sig"
names_apart e = let same : false ≡ true = ap (λ s. bytes_eq s (text "a.sig")) e in cc

verify_bin_file-sign_bin_file_example :
    (sign_bin_file services none (text "key") (text "a.bin") (text "a.sig") a_file
      >>= verify_bin_file services (text "a.bin") (text "a.sig"))
    ≡ ok true
unfolding lookup
verify_bin_file-sign_bin_file_example =
    verify_bin_file-sign_bin_file services (text "key") (text "a.bin") (text "a.sig") (text "data")
      a_file services-IsSigning refl (omega arith) names_apart
