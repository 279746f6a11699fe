-- ===== src/HdWal/Tests.antt =====
-- The theorems on wallets, with a cipher that leaves blocks as they are, one mnemonic, and databases
-- in memory.
use bclib.Base.{
  ℕ, ◌≡◌, refl, Option, none, some, [], ◌∷◌, ◌++◌, ◌==◌, arith, replicate, if◌then◌else◌,
}
use bclib.Go.Result.{Result, ok, err}
use bclib.Go.Text.{Bytes, text}
use bclib.Algorithm.Primitives.{Primitives, IsBlockCipher}
use bclib.Algorithm.Cipher.{
  encrypt_with_password, gen_symmetrickey_from_password, map_blocks, plain_container, padding,
}
use bclib.Algorithm.Words.{int_to_bytes}
use bclib.Go.Bytes.{put_uint}
use bclib.Map.{insert, remove, lookup}
use bclib.Bcdb.{get, set, non_nil_bytes}
use bclib.Bcdb.Memory.{Memory, memory, memory-IsStore}
use bclib.HdWal.{
  HdWallet, Platform, key_of_hd_wal, encrypt_and_save, new_wallet, import_wallet, new_priv_key,
}
use bclib.HdWal.Recovery.{HasText, imported}
use bclib.HdWal.Fresh.{made, new_priv_key_restored}

abbrev plain_cipher : Primitives
plain_cipher = record {
  sha3_256 = λ b. b;
  ripemd160 = λ b. b;
  md5 = λ b. b;
  aes_encrypt = λ k b. b;
  aes_decrypt = λ k b. b;
  base58_encode = λ b. b;
  base58_decode = λ b. b;
}

plain_cipher-IsBlockCipher : IsBlockCipher plain_cipher
plain_cipher-IsBlockCipher = record {
  encrypted_block = λ k b e h. e;
  decrypted_block = λ k b e h. refl;
  opened_block = λ k b e. e;
}

abbrev word : Bytes
word = text "zoo"

abbrev seed : Bytes
seed = 1 ∷ 2 ∷ 3 ∷ []

abbrev made_wallet : HdWallet
made_wallet = record { mnemonic = word; seed = seed; hash = some (word ++ seed) }

abbrev json_of : Option Bytes → Result Bytes
json_of none = ok (7 ∷ [])
json_of (some h) = ok (8 ∷ [])

abbrev of_json : Bytes → Result HdWallet
of_json (c ∷ []) = if c == 7 then ok (imported word seed) else ok made_wallet
of_json _ = err "no wallet"

-- A child's key has its index in front.
abbrev platform : Platform Bytes
platform = record {
  new_mnemonic = λ e. ok word;
  new_seed = λ m. ok seed;
  sha256 = λ b. b;
  marshal = λ w. json_of w.hash;
  unmarshal = of_json;
  new_master = λ s. ok s;
  child = λ k i. ok (i ∷ k);
  key = λ k. k;
  parse_derivation_path = λ path. ok path;
  make_public_key = λ k. k;
}

imported-HasText : HasText platform (imported word seed)
imported-HasText = record {
  json = 7 ∷ [];
  marshals = refl;
  unmarshals = refl;
  is_bytes = (omega arith, tt);
  is_short = omega arith;
}

made-HasText : HasText platform (made platform word seed)
made-HasText = record {
  json = 8 ∷ [];
  marshals = refl;
  unmarshals = refl;
  is_bytes = (omega arith, tt);
  is_short = omega arith;
}

-- The database with the sealed wallet of one byte.
abbrev holding : ℕ → Memory
holding b = (key_of_hd_wal, 0x2e ∷ 0x77 ∷ 0x61 ∷ 0x6c ∷ 0 ∷ 0 ∷ 0 ∷ 1 ∷ b ∷ replicate 7 0) ∷ []

made_new : new_wallet memory plain_cipher platform [] (text "one") [] ≡ ok (word, holding 8)
unfolding new_wallet get encrypt_and_save set non_nil_bytes encrypt_with_password
    gen_symmetrickey_from_password map_blocks plain_container padding insert remove lookup
    int_to_bytes put_uint
made_new = refl

-- An import over an older wallet.
import_old :
    import_wallet memory plain_cipher platform word (text "two") (holding 8) ≡ ok (holding 7)
unfolding import_wallet encrypt_and_save set non_nil_bytes encrypt_with_password
    gen_symmetrickey_from_password map_blocks plain_container padding insert remove int_to_bytes
    put_uint
import_old = refl

new_priv_key_restored_example :
    new_priv_key memory plain_cipher platform (5 ∷ []) (text "two") (holding 7)
    ≡ new_priv_key memory plain_cipher platform (5 ∷ []) (text "one") (holding 8)
new_priv_key_restored_example =
    new_priv_key_restored memory memory-IsStore plain_cipher plain_cipher-IsBlockCipher platform []
      (text "one") (text "two") word seed (5 ∷ []) [] (holding 8) (holding 8) (holding 7)
      made-HasText imported-HasText refl refl made_new import_old
