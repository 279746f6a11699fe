-- ===== src/Algorithm/Tests.antt =====
-- The theorems of package algorithm at concrete inputs, over toy primitives that meet the laws.
use bclib.Base.{
  ◌-◌, ◌≡◌, refl, [], ◌∷◌, ◌++◌, length, take, replicate, arith, none, some, All-replicate, ◌≢◌,
}
use bclib.Go.Result.{ok}
use bclib.Go.Bytes.{IsByte, IsBytes, of_bytes_from, put_uint}
use bclib.Go.Text.{Bytes, text, replace_once, has_prefix}
use bclib.Algorithm.Words.{int_to_bytes, bytes_to_int, bytes_to_int32}
use bclib.Algorithm.Primitives.{Primitives, IsBlockCipher, HasAddressCode}
use bclib.Algorithm.Cipher.{
  magic, map_blocks, encrypt_with_password, decrypt_with_password, plain_container, padding,
  open_container, slice_size,
}
use bclib.Algorithm.Cipher.RoundTrip.{decrypt-encrypt}
use bclib.Algorithm.Address.{calc_contract_address, check_address}
use bclib.Algorithm.Address.Checks.{check_address-calc_contract_address}

-- A block is encrypted by the complement of its bytes.
complement : Bytes → Bytes
complement [] = []
complement (b ∷ bs) = (255 - b) ∷ complement bs

length-complement : (b : Bytes) → length (complement b) ≡ length b
unfolding complement
length-complement [] = refl
length-complement (b ∷ bs) = omega (arith, length-complement bs)

complement_twice : (b : Bytes) → IsBytes b → complement (complement b) ≡ b
unfolding complement
complement_twice [] h = refl
complement_twice (b ∷ bs) h = ground (arith, complement_twice bs h.1)

abbrev toy : Primitives
toy = record {
  sha3_256 = λ b. b;
  ripemd160 = λ b. replicate 20 7;
  md5 = take 16;
  aes_encrypt = λ key. complement;
  aes_decrypt = λ key. complement;
  base58_encode = λ b. b;
  base58_decode = λ b. b;
}

toy-IsBlockCipher : IsBlockCipher toy
toy-IsBlockCipher = record {
  encrypted_block = λ key block h b. rw (length-complement block) h;
  decrypted_block = λ key block h b. complement_twice block b;
  opened_block = λ key block h. rw (length-complement block) h;
}

toy-HasAddressCode : HasAddressCode toy
toy-HasAddressCode = record {
  decoded = λ b h. refl;
  digest_length = λ b. refl;
  digest_bytes = λ b. All-replicate IsByte 20 7 (omega arith);
}

abbrev secret : Bytes
secret = text "a private key"

decrypt-encrypt_example :
    decrypt_with_password toy
      (encrypt_with_password toy (some secret) (text "pw") none)
      (text "pw")
      none
    ≡ ok secret
decrypt-encrypt_example =
    decrypt-encrypt toy toy-IsBlockCipher (text "pw") none secret (omega arith) (omega arith)

abbrev forged : Bytes
forged = magic ++ (0 ∷ 0 ∷ 0 ∷ 9 ∷ replicate 8 1)

abbrev sealed : Bytes
sealed = complement (plain_container secret)

sealed_opens : decrypt_with_password toy (some sealed) (text "pw") none ≡ ok secret
unfolding complement plain_container padding int_to_bytes put_uint decrypt_with_password map_blocks
    open_container slice_size bytes_to_int bytes_to_int32 of_bytes_from
sealed_opens = refl

secret-sealed : encrypt_with_password toy (some secret) (text "pw") none ≡ some sealed
unfolding complement plain_container padding int_to_bytes put_uint encrypt_with_password map_blocks
secret-sealed = refl

abbrev bcb : Bytes
bcb = text "bcb"

bcb_given : bcb ≢ []
bcb_given e = cc

check_address-calc_contract_address_example :
    check_address toy bcb
      (calc_contract_address toy bcb (text "bcbowner") (text "token") (text "1.0"))
    ≡ ok tt
check_address-calc_contract_address_example =
    check_address-calc_contract_address toy bcb (text "bcbowner") (text "token") (text "1.0")
      toy-HasAddressCode bcb_given

abbrev address : Bytes
address = bcb ++ (9 ∷ replicate 4 7)

address_accepted : check_address toy bcb address ≡ ok tt
unfolding check_address replace_once has_prefix
address_accepted = refl
