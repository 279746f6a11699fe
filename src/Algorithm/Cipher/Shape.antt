-- ===== src/Algorithm/Cipher/Shape.antt =====
-- The lengths of containers, and what blockwise encryption keeps.
use mathlib.Core.Option.{some-injective}
use bclib.Base.{
  ℕ, zero, suc, ◌+◌, ◌*◌, ◌/◌, ◌%◌, ◌≤◌, ◌<◌, ◌≡◌, refl, sym, ap, ◌∙◌, Option, some, ◌++◌, length,
  take, drop, replicate, arith, length-append, length-replicate, length-take, length-drop, All-take,
  All-drop, All-append, All-replicate, take-append-drop, take-append_of_length,
  drop-append_of_length,
}
use bclib.Go.Int.{pos}
use bclib.Go.Bytes.{IsByte, IsBytes, put_uint-IsBytes, length-put_uint}
use bclib.Go.Text.{Bytes}
use bclib.Algorithm.Words.{int_to_bytes}
use bclib.Algorithm.Primitives.{Primitives, IsBlockCipher, block_size}
use bclib.Algorithm.Cipher.{
  magic, gen_symmetrickey_from_password, map_blocks, padding, plain_container,
  encrypt_with_password,
}

pub padding_aligns : (n : ℕ) → (n + padding n) % block_size ≡ 0
unfolding padding
padding_aligns n = ground arith

pub padding-lt : (n : ℕ) → padding n < block_size
unfolding padding
padding-lt n = ground arith

pub length-int_to_bytes : (k : ℕ) → length (int_to_bytes (pos k)) ≡ 4
unfolding int_to_bytes
length-int_to_bytes k = length-put_uint 4 _

pub length-plain_container :
    (d : Bytes) → length (plain_container d) ≡ 8 + length d + padding (8 + length d)
unfolding plain_container
length-plain_container d =
    length-append (magic ++ (int_to_bytes (pos (length d)) ++ d)) _
    ∙ length-replicate_at (length (magic ++ (int_to_bytes (pos (length d)) ++ d)))
    ∙ ap (λ k. k + padding k) front
  where
    front : length (magic ++ (int_to_bytes (pos (length d)) ++ d)) ≡ 8 + length d
    front =
        omega
          (arith, length-append (int_to_bytes (pos (length d))) d, length-int_to_bytes (length d))

    length-replicate_at : (k : ℕ) → k + length (replicate {A = ℕ} (padding k) 0) ≡ k + padding k
    length-replicate_at k = omega (arith, length-replicate {A = ℕ} (padding k) 0)

pub plain_container-IsBytes : (d : Bytes) → IsBytes d → IsBytes (plain_container d)
unfolding plain_container int_to_bytes
plain_container-IsBytes d h =
    All-append IsByte (magic ++ (int_to_bytes (pos (length d)) ++ d)) _
      (All-append IsByte magic _ (omega arith)
        (All-append IsByte (int_to_bytes (pos (length d))) d (put_uint-IsBytes 4 _) h))
      (All-replicate IsByte _ 0 (omega arith))

module _ (p : Primitives) (c : IsBlockCipher p) (key : Bytes) where
  -- The first block of a text that has one more block than `n`.
  first_block : (n : ℕ) (dat : Bytes) → length dat ≡ suc n * block_size → length (take 16 dat) ≡ 16
  first_block n dat h = omega (arith, length-take 16 dat)

  later_blocks :
      (n : ℕ) (dat : Bytes)
      → length dat ≡ suc n * block_size
      → length (drop 16 dat) ≡ n * block_size
  later_blocks n dat h = omega (arith, length-drop 16 dat)

  pub length-map_blocks :
      (n : ℕ) (dat : Bytes)
      → length dat ≡ n * block_size
      → IsBytes dat
      → length (map_blocks (p.aes_encrypt key) n dat) ≡ n * block_size
  unfolding map_blocks
  length-map_blocks zero dat h b = h
  length-map_blocks (suc n) dat h b = omega (
    arith,
    length-append (p.aes_encrypt key (take 16 dat))
        (map_blocks (p.aes_encrypt key) n (drop 16 dat)),
    c.encrypted_block key (take 16 dat) (first_block n dat h) (All-take IsByte 16 dat b),
    length-map_blocks n (drop 16 dat) (later_blocks n dat h) (All-drop IsByte 16 dat b),
  )

  -- Decrypting block by block undoes encrypting block by block.
  pub map_blocks_inverse :
      (n : ℕ) (dat : Bytes)
      → length dat ≡ n * block_size
      → IsBytes dat
      → map_blocks (p.aes_decrypt key) n (map_blocks (p.aes_encrypt key) n dat) ≡ dat
  unfolding map_blocks
  map_blocks_inverse zero dat h b = refl
  map_blocks_inverse (suc n) dat h b =
      let block = take 16 dat in
      let whole = first_block n dat h in
      let bytes = All-take IsByte 16 dat b in
      let sealed = c.encrypted_block key block whole bytes in
      rw
        (
          take-append_of_length {n = 16} (p.aes_encrypt key block) _ sealed,
          drop-append_of_length {n = 16} (p.aes_encrypt key block) _ sealed,
          c.decrypted_block key block whole bytes,
          map_blocks_inverse n (drop 16 dat) (later_blocks n dat h) (All-drop IsByte 16 dat b),
        )
        (take-append-drop 16 dat)

  -- Decryption keeps the length of any whole number of blocks.
  pub length-map_blocks_decrypt :
      (n : ℕ) (dat : Bytes)
      → length dat ≡ n * block_size
      → length (map_blocks (p.aes_decrypt key) n dat) ≡ n * block_size
  unfolding map_blocks
  length-map_blocks_decrypt zero dat h = h
  length-map_blocks_decrypt (suc n) dat h = omega (
    arith,
    length-append (p.aes_decrypt key (take 16 dat))
        (map_blocks (p.aes_decrypt key) n (drop 16 dat)),
    c.opened_block key (take 16 dat) (first_block n dat h),
    length-map_blocks_decrypt n (drop 16 dat) (later_blocks n dat h),
  )

module _ (p : Primitives) (c : IsBlockCipher p) where
  -- A sealed container is a whole number of blocks, with at most 23 bytes more than its content.
  pub length-encrypt :
      (content password : Bytes) (keyword : Option Bytes) (sealed : Bytes)
      → encrypt_with_password p (some content) password keyword ≡ some sealed
      → IsBytes content
      → (length sealed % block_size ≡ 0)
        × (8 + length content ≤ length sealed)
        × (length sealed ≤ length content + 23)
  unfolding encrypt_with_password
  length-encrypt content password keyword sealed e b = omega (
    arith,
    length_sealed,
    length-plain_container content,
    padding_aligns (8 + length content),
    padding-lt (8 + length content),
  )
    where
      plain : Bytes
      plain = plain_container content

      aligned : length plain ≡ length plain / block_size * block_size
      aligned = omega (arith, length-plain_container content, padding_aligns (8 + length content))

      length_sealed : length sealed ≡ length plain
      length_sealed =
          sym (ap length (some-injective _ _ e))
          ∙ length-map_blocks p c (gen_symmetrickey_from_password p password keyword)
              (length plain / block_size) plain aligned (plain_container-IsBytes content b)
          ∙ sym aligned
