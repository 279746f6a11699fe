-- ===== src/Algorithm/Primitives.antt =====
-- The cryptographic functions that package algorithm calls, as parameters: SHA3-256, RIPEMD-160 and
-- MD5 over everything written to the hasher, AES-128 on one block, and base58 of btcutil.
use bclib.Base.{ℕ, ◌≡◌, length}
use bclib.Go.Bytes.{IsBytes}
use bclib.Go.Text.{Bytes}

pub record Primitives : Type 0 where
  pub sha3_256 : Bytes → Bytes
  pub ripemd160 : Bytes → Bytes
  pub md5 : Bytes → Bytes
  -- the key, then the block
  pub aes_encrypt : Bytes → Bytes → Bytes
  pub aes_decrypt : Bytes → Bytes → Bytes
  pub base58_encode : Bytes → Bytes
  pub base58_decode : Bytes → Bytes

abbrev pub block_size : ℕ
block_size = 16

-- AES maps blocks to blocks, and decryption under the same key undoes encryption.
pub record IsBlockCipher (p : Primitives) : Type 0 where
  pub encrypted_block :
      (key block : Bytes)
      → length block ≡ block_size
      → IsBytes block
      → length (p.aes_encrypt key block) ≡ block_size
  pub decrypted_block :
      (key block : Bytes)
      → length block ≡ block_size
      → IsBytes block
      → p.aes_decrypt key (p.aes_encrypt key block) ≡ block
  pub opened_block :
      (key block : Bytes)
      → length block ≡ block_size
      → length (p.aes_decrypt key block) ≡ block_size

-- Base58 decoding undoes encoding, and a RIPEMD-160 digest has 20 bytes.
pub record HasAddressCode (p : Primitives) : Type 0 where
  pub decoded : (b : Bytes) → IsBytes b → p.base58_decode (p.base58_encode b) ≡ b
  pub digest_length : (b : Bytes) → length (p.ripemd160 b) ≡ 20
  pub digest_bytes : (b : Bytes) → IsBytes (p.ripemd160 b)
