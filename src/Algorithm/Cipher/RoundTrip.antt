-- ===== src/Algorithm/Cipher/RoundTrip.antt =====
-- What decryption makes of a container: a sealed one, any other, and a forged one.
use bclib.Base.{
  ℕ, ◌+◌, ◌*◌, ◌/◌, ◌%◌, ◌^◌, ◌≤◌, ◌<◌, ◌≡◌, refl, ap, ◌∙◌, false, Option, some, ◌⊎◌, length, take,
  drop, arith, append_assoc, ◌==◌, le→ltb, le→leb, lt→leb, length-take, length-drop,
  take-append_of_length, drop-append_of_length, take-append_length,
}
use bclib.Go.Result.{ok, panic, bad_slice}
use bclib.Go.Int.{ℤ, pos, negsuc, ◌≤ℤ◌, ◌+ℤ◌}
use bclib.Go.Bytes.{IsBytes}
use bclib.Go.Text.{Bytes}
use bclib.Algorithm.Words.{int_to_bytes, bytes_to_int}
use bclib.Algorithm.Words.Reading.{int_round_trip}
use bclib.Algorithm.Primitives.{Primitives, IsBlockCipher, block_size}
use bclib.Algorithm.Cipher.{
  magic, gen_symmetrickey_from_password, map_blocks, plain_container, slice_size, open_container,
  encrypt_with_password, decrypt_with_password,
}
use bclib.Algorithm.Cipher.Shape.{
  padding_aligns, length-int_to_bytes, length-plain_container, plain_container-IsBytes,
  length-map_blocks, length-map_blocks_decrypt, map_blocks_inverse,
}

container_aligned : (d : Bytes) → length (plain_container d) % block_size ≡ 0
container_aligned d =
    ap (λ k. k % block_size) (length-plain_container d) ∙ padding_aligns (8 + length d)

-- A decrypted text with the magic word opens to what its size field says, or panics.
opened :
    (dat : Bytes) (size : ℤ)
    → 8 ≤ length dat
    → take 4 dat ≡ magic
    → bytes_to_int (take 4 (drop 4 dat)) ≡ size
    → open_container dat ≡ slice_size dat size
unfolding open_container
opened dat size h m e = rw (le→ltb (length dat) 8 h, m, e)

magic_field : (d : Bytes) → take 4 (plain_container d) ≡ magic
unfolding plain_container
magic_field d = refl

module _ (d : Bytes) where
  size_field : take 4 (drop 4 (plain_container d)) ≡ int_to_bytes (pos (length d))
  unfolding plain_container
  size_field =
      rw (append_assoc (int_to_bytes (pos (length d))) d _)
        (take-append_of_length (int_to_bytes (pos (length d))) _ (length-int_to_bytes (length d)))

  content_field : take (length d) (drop 8 (plain_container d)) ≡ d
  unfolding plain_container
  content_field =
      ap (take (length d)) (
        ap (drop 4) (append_assoc (int_to_bytes (pos (length d))) d _)
        ∙ drop-append_of_length (int_to_bytes (pos (length d))) _ (length-int_to_bytes (length d)))
      ∙ take-append_length d _

-- A sealed container opens to its content.
open_container-plain_container :
    (d : Bytes) → length d < 2 ^ 31 → open_container (plain_container d) ≡ ok d
unfolding slice_size
open_container-plain_container d h =
    opened (plain_container d) (pos (length d)) (omega (arith, length-plain_container d))
      (magic_field d)
      (ap bytes_to_int (size_field d) ∙ int_round_trip (pos (length d)) (omega arith) (omega arith))
    ∙ rw (
      le→leb (8 + length d) (length (plain_container d)) (omega (arith, length-plain_container d)),
      content_field d,
    )

module _ (p : Primitives) (c : IsBlockCipher p) (password : Bytes) (keyword : Option Bytes) where
  -- The blocks that were encrypted under the same password are opened.
  decrypt_blocks :
      (n : ℕ) (plain : Bytes)
      → 0 < n
      → length plain ≡ n * block_size
      → IsBytes plain
      → decrypt_with_password p
          (some (
            map_blocks (p.aes_encrypt (gen_symmetrickey_from_password p password keyword)) n plain))
          password
          keyword
        ≡ open_container plain
  unfolding decrypt_with_password
  decrypt_blocks n plain positive h b =
      let key = gen_symmetrickey_from_password p password keyword in
      let sealed = length-map_blocks p c key n plain h b in
      let quotient : n * block_size / block_size ≡ n = omega arith in
      let aligned : n * block_size % block_size ≡ 0 = omega arith in
      let filled : (n * block_size == 0) ≡ false = ground arith in
      rw (sealed, quotient, aligned, filled)
        (ap open_container (map_blocks_inverse p c key n plain h b))

  -- Decryption under the same password and keyword gives back every content shorter than 2^31
  -- bytes.
  pub decrypt-encrypt :
      (content : Bytes)
      → IsBytes content
      → length content < 2 ^ 31
      → decrypt_with_password p
          (encrypt_with_password p (some content) password keyword)
          password
          keyword
        ≡ ok content
  unfolding encrypt_with_password
  decrypt-encrypt content b h =
      let plain = plain_container content in
      let whole = length-plain_container content in
      let aligned = container_aligned content in
      decrypt_blocks (length plain / block_size) plain (omega arith) (omega arith)
        (plain_container-IsBytes content b)
      ∙ open_container-plain_container content h

  -- A forged container: whole blocks with the magic word whose size field is negative or points
  -- behind the end. Decryption panics on it.
  decrypt_forged :
      (n : ℕ) (plain : Bytes) (size : ℤ)
      → 0 < n
      → length plain ≡ n * block_size
      → IsBytes plain
      → take 4 plain ≡ magic
      → bytes_to_int (take 4 (drop 4 plain)) ≡ size
      → size ≤ℤ negsuc 0 ⊎ pos (length plain) ≤ℤ size +ℤ pos 7
      → decrypt_with_password p
          (some (
            map_blocks (p.aes_encrypt (gen_symmetrickey_from_password p password keyword)) n plain))
          password
          keyword
        ≡ panic bad_slice
  unfolding slice_size ◌+ℤ◌
  decrypt_forged n plain (negsuc k) positive h b m e bad =
      decrypt_blocks n plain positive h b ∙ opened plain (negsuc k) (omega arith) m e
  decrypt_forged n plain (pos k) positive h b m e bad =
      decrypt_blocks n plain positive h b
      ∙ opened plain (pos k) (omega arith) m e
      ∙ rw (lt→leb (8 + k) (length plain) (outside bad))
    where
      outside : (pos k ≤ℤ negsuc 0) ⊎ (pos (length plain) ≤ℤ pos k +ℤ pos 7) → length plain < 8 + k
      outside bad' = ground arith

slice_size-fits :
    (dat : Bytes) (size : ℤ) (content : Bytes)
    → 8 ≤ length dat
    → slice_size dat size ≡ ok content
    → length content + 8 ≤ length dat
unfolding slice_size
slice_size-fits dat (negsuc n) content h e = cc
slice_size-fits dat (pos n) content h e =
    ground (arith, length-take n (drop 8 dat), length-drop 8 dat)

open_container-fits :
    (dat content : Bytes) → open_container dat ≡ ok content → length content + 8 ≤ length dat
unfolding open_container
open_container-fits dat content e =
    ground (arith, slice_size-fits dat (bytes_to_int (take 4 (drop 4 dat))) content)

-- Whatever the input, one that decrypts is a positive number of blocks, and the content is shorter
-- than it by 8 bytes at least.
pub decrypt_fits :
    (p : Primitives) (sealed password : Bytes) (keyword : Option Bytes) (content : Bytes)
    → IsBlockCipher p
    → decrypt_with_password p (some sealed) password keyword ≡ ok content
    → (length sealed % block_size ≡ 0) × (0 < length sealed) × (length content + 8 ≤ length sealed)
unfolding decrypt_with_password
decrypt_fits p sealed password keyword content c h =
    let key = gen_symmetrickey_from_password p password keyword in
    let n = length sealed / block_size in
    ground (
      arith,
      open_container-fits (map_blocks (p.aes_decrypt key) n sealed) content,
      length-map_blocks_decrypt p c key n sealed,
    )
