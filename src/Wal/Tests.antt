-- ===== src/Wal/Tests.antt =====
-- The theorems on accounts, with a cipher that leaves blocks as they are and one account.
use bclib.Base.{◌≡◌, refl, true, ◌&&◌, none, [], ◌∷◌, ◌++◌, leb, arith, replicate}
use bclib.Go.Result.{ok, ◌>>=◌}
use bclib.Go.Result.{err}
use bclib.Go.Text.{Bytes, text}
use bclib.Algorithm.Primitives.{Primitives, IsBlockCipher}
use bclib.Wal.{Account, Platform, check_password, import_account, load_account}
use bclib.Wal.Change.{load_account-save_account}
use bclib.Wal.Methods.{save_account}
use bclib.Wal.RoundTrip.{imported, load_account-import_account}
use bclib.Sig.{Files}
use bclib.Map.{lookup}
use bclib.Algorithm.Cipher.{decrypt_with_password, open_container, map_blocks, slice_size}
use bclib.Algorithm.Words.{bytes_to_int, bytes_to_int32}
use bclib.Go.Bytes.{of_bytes_from}
use bclib.Algorithm.Address.{sha3_256_of}

abbrev pub plain_cipher : Primitives
plain_cipher = record {
  sha3_256 = λ b. b;
  ripemd160 = λ b. b;
  md5 = λ b. b;
  aes_encrypt = λ k b. b;
  aes_decrypt = λ k b. b;
  base58_encode = λ b. b;
  base58_decode = λ b. b;
}

pub plain_cipher-IsBlockCipher : IsBlockCipher plain_cipher
plain_cipher-IsBlockCipher = record {
  encrypted_block = λ k b e h. e;
  decrypted_block = λ k b e h. refl;
  opened_block = λ k b e. e;
}

abbrev bob : Account
bob = record {
  name = text "bob";
  private_key = 1 ∷ 2 ∷ [];
  hash = text "bob" ++ (1 ∷ 2 ∷ []);
  key_store_file = [];
}

abbrev pub platform : Platform
platform = record {
  is_number = λ c. leb b'0' c && leb c b'9';
  is_upper = λ c. leb b'A' c && leb c b'Z';
  is_lower = λ c. leb b'a' c && leb c b'z';
  runes = λ s. s;
  marshal = λ a. ok (7 ∷ []);
  unmarshal = λ b. ok bob;
  join = λ a b. a ++ b;
  ask = err "no terminal";
}

abbrev pub password : Bytes
password = text "Secret#12"

pub password_strong : check_password platform password ≡ true
unfolding check_password
password_strong = refl

load_account-import_account_example :
    (import_account plain_cipher platform none (text "keys/") (text "bob") password (1 ∷ 2 ∷ []) []
      >>= (λ (a : Account × Files).
          load_account plain_cipher platform (text "keys/") (text "bob") password a.1))
    ≡ ok (imported plain_cipher platform (text "keys/") (text "bob") (1 ∷ 2 ∷ []))
unfolding lookup sha3_256_of
load_account-import_account_example =
    load_account-import_account plain_cipher platform (text "keys/") (text "bob") password
      (1 ∷ 2 ∷ []) (7 ∷ []) [] plain_cipher-IsBlockCipher refl (omega arith) password_strong
      (omega arith) refl refl (omega arith, tt) (omega arith) refl

abbrev bob_file : Bytes
bob_file = text "keys/bob.wal"

-- The sealed file of bob.
abbrev sealed_files : Files
sealed_files = (bob_file, (0x2e ∷ 0x77 ∷ 0x61 ∷ 0x6c ∷ 0 ∷ 0 ∷ 0 ∷ 1 ∷ 7 ∷ replicate 7 0)) ∷ []

abbrev loaded : Account
loaded = record bob { key_store_file = bob_file }

load_bob :
    load_account plain_cipher platform (text "keys/") (text "bob") password sealed_files ≡ ok loaded
unfolding load_account lookup decrypt_with_password open_container map_blocks slice_size
    bytes_to_int bytes_to_int32 of_bytes_from sha3_256_of
load_bob = refl

abbrev other_password : Bytes
other_password = text "Other!345"

other_strong : check_password platform other_password ≡ true
unfolding check_password
other_strong = refl

load_account-save_account_example :
    (save_account plain_cipher platform none loaded other_password sealed_files
      >>= load_account plain_cipher platform (text "keys/") (text "bob") other_password)
    ≡ ok loaded
load_account-save_account_example =
    load_account-save_account plain_cipher platform (text "keys/") (text "bob") password
      other_password (7 ∷ []) sealed_files loaded plain_cipher-IsBlockCipher load_bob (omega arith)
      other_strong (omega arith) refl (omega arith, tt) (omega arith) refl
