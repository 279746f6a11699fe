-- ===== src/Sig.antt =====
-- sig/sign.go and sig/verify.go: signatures in files. A file store maps names to contents. The texts
-- of errors are without the names and errors that are formatted into them.
pub mod RoundTrip
pub mod Stored
mod Tests
use bclib.Base.{
  ℕ, ◌-◌, Bool, true, false, ◌&&◌, ◌||◌, not, String, Option, none, some, List, [], ◌∷◌, leb, ltb,
  ◌==◌, length, if◌then◌else◌,
}
use bclib.Go.Result.{Result, ok, err, panic, guard, ◌>>=◌, ◌>>◌}
use bclib.Go.Text.{Bytes}
use bclib.Go.Format.{Decoded, hex_decode, hex_encode}
use bclib.Map.{Map, lookup, insert, bytes_key}

abbrev pub Files : Type 0
Files = Map Bytes Bytes

pub record FileSig : Type 0 where
  pub pub_key1 : Bytes
  pub pub_key2 : Bytes
  pub signature : Bytes

-- Packages go-crypto and encoding/json. `pub_key_from_bytes` and `signature_from_bytes` copy into an
-- array of the key's or signature's size.
pub record Signing : Type 0 where
  pub pub_key_of : Bytes → Bytes
  pub sign_bytes : Bytes → Bytes → Bytes
  pub verify_bytes : Bytes → Bytes → Bytes → Bool
  pub pub_key_from_bytes : Bytes → Bytes
  pub signature_from_bytes : Bytes → Bytes
  pub marshal_sig : FileSig → Result Bytes
  pub unmarshal_sig : Bytes → Result FileSig

-- strings.ToUpper on ASCII.
abbrev pub upper : ℕ → ℕ
upper c = if leb b'a' c && leb c b'z' then c - 32 else c

abbrev pub to_upper : Bytes → Bytes
to_upper [] = []
to_upper (c ∷ s) = upper c ∷ to_upper s

-- WriteFileAtomic, which fails where the environment gives an error.
abbrev pub write_file : Option String → Bytes → Bytes → Files → Result Files
write_file (some e) name content files = err e
write_file none name content files = ok (insert name content files)

abbrev pub found : Option Bytes → Result Bytes
found none = err "Read file failed"
found (some content) = ok content

abbrev pub read_file : Bytes → Files → Result Bytes
read_file name files = found (lookup name files)

unfoldable pub sign2file : Signing → Option String → Bytes → Bytes → Bytes → Files → Result Files
sign2file sv write_error private_key user_data sig_file files = do
  guard (not (length user_data == 0)) "user data which wants be signed length needs more than 0"
  json ← sv.marshal_sig (record {
    pub_key1 = hex_encode (sv.pub_key_of private_key);
    pub_key2 = [];
    signature = to_upper (hex_encode (sv.sign_bytes private_key user_data));
  })
  write_file write_error sig_file json files

unfoldable pub sign_bin_file :
    Signing → Option String → Bytes → Bytes → Bytes → Files → Result Files
unfolding sign2file
sign_bin_file sv write_error private_key bin_file sig_file files =
    read_file bin_file files >>= λ b. sign2file sv write_error private_key b sig_file files

unfoldable pub sign_text_file :
    Signing → Option String → Bytes → Bytes → Bytes → Files → Result Files
unfolding sign2file
sign_text_file sv write_error private_key text_file sig_file files =
    read_file text_file files >>= λ b. sign2file sv write_error private_key b sig_file files

unfoldable pub verify : Signing → Bytes → Bytes → Bytes → Result Bool
verify sv pub_key user_data sig = do
  guard (not (length pub_key == 0 || length sig == 0)) "pubkey and sign cannot to te empty"
  guard (sv.verify_bytes (sv.pub_key_from_bytes pub_key) user_data (sv.signature_from_bytes sig))
      "Verify signature failed"
  ok true

abbrev pub no_fault : Bytes → Option String → Result Bytes
no_fault bytes none = ok bytes
no_fault bytes (some e) = err "UnmarshalJSON from file failed"

abbrev pub decode_hex : Bytes → Result Bytes
decode_hex s = no_fault (hex_decode s).bytes (hex_decode s).error

abbrev pub file_key : FileSig → Result Bytes
file_key si =
    if not (length si.pub_key1 == 0)
    then decode_hex si.pub_key1
    else if not (length si.pub_key2 == 0)
    then decode_hex si.pub_key2
    else ok []

unfoldable pub verify_from_sig_file : Signing → Bytes → Bytes → Files → Result Bool
unfolding verify
verify_from_sig_file sv user_data sig_file files = do
  sig_bytes ← read_file sig_file files
  si ← sv.unmarshal_sig sig_bytes
  pub_key ← file_key si
  sig ← decode_hex si.signature
  verify sv pub_key user_data sig

unfoldable pub verify_bin_file : Signing → Bytes → Bytes → Files → Result Bool
unfolding verify_from_sig_file
verify_bin_file sv bin_file sig_file files =
    read_file bin_file files >>= λ b. verify_from_sig_file sv b sig_file files

unfoldable pub verify_text_file : Signing → Bytes → Bytes → Files → Result Bool
unfolding verify_from_sig_file
verify_text_file sv text_file sig_file files =
    read_file text_file files >>= λ b. verify_from_sig_file sv b sig_file files
