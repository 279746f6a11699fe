-- ===== src/Algorithm/Cipher.antt =====
-- algorithm/algorithm.go: the password-encrypted container of wallets and mnemonics. A plaintext is
-- put behind a magic word and its length, padded with zeros to whole blocks, and each block is
-- encrypted on its own. A slice that may be nil is an `Option`.
pub mod RoundTrip
pub mod Shape
use bclib.Base.{
  ℕ, zero, suc, ◌+◌, ◌-◌, ◌/◌, ◌%◌, ◌≡◌, Bool, Option, none, some, List, [], ◌∷◌, ◌++◌, length,
  take, drop, replicate, bytes_eq, leb, ltb, ◌==◌, if◌then◌else◌, ◌||◌, not,
}
use bclib.Go.Result.{Result, ok, err, panic, bad_slice, guard, ◌>>=◌, ◌>>◌}
use bclib.Go.Int.{ℤ, pos, negsuc}
use bclib.Go.Text.{Bytes, text}
use bclib.Algorithm.Words.{int_to_bytes, bytes_to_int}
use bclib.Algorithm.Primitives.{Primitives, block_size}

abbrev pub salt : Bytes
salt = text "7g$2HJJhh&&!^&!nNN8812MN31^%!@%*^&*&((&*152"

-- ".wal"
abbrev pub magic : Bytes
magic = 0x2e ∷ 0x77 ∷ 0x61 ∷ 0x6c ∷ []

abbrev pub or_empty : Option Bytes → Bytes
or_empty none = []
or_empty (some b) = b

unfoldable pub gen_symmetrickey_from_password : Primitives → Bytes → Option Bytes → Bytes
gen_symmetrickey_from_password p password keyword =
    p.md5 (p.sha3_256 (salt ++ (password ++ or_empty keyword)))

-- `for i := 0; i < n; i++`: `f` on each of the first n blocks, in place.
unfoldable pub map_blocks : (Bytes → Bytes) → ℕ → Bytes → Bytes
map_blocks f zero dat = dat
map_blocks f (suc n) dat = f (take block_size dat) ++ map_blocks f n (drop block_size dat)

-- What is appended to a length that is not a whole number of blocks.
unfoldable pub padding : ℕ → ℕ
padding n = if n % block_size == 0 then 0 else block_size - n % block_size

unfoldable pub plain_container : Bytes → Bytes
plain_container content =
    let dat = magic ++ (int_to_bytes (pos (length content)) ++ content) in
    dat ++ replicate (padding (length dat)) 0

unfoldable pub encrypt_with_password :
    Primitives → Option Bytes → Bytes → Option Bytes → Option Bytes
encrypt_with_password p none password keyword = none
encrypt_with_password p (some content) password keyword =
    let key = gen_symmetrickey_from_password p password keyword in
    let dat = plain_container content in
    some (map_blocks (p.aes_encrypt key) (length dat / block_size) dat)

-- `dat[8 : 8+size]`: the capacity of `dat` is its length.
unfoldable pub slice_size : Bytes → ℤ → Result Bytes
slice_size dat (negsuc n) = panic bad_slice
slice_size dat (pos n) =
    if leb (8 + n) (length dat) then ok (take n (drop 8 dat)) else panic bad_slice

-- What follows the decryption of the blocks.
unfoldable pub open_container : Bytes → Result Bytes
open_container dat = do
  guard (not (ltb (length dat) 8)) "Decrypt data failed!"
  guard (bytes_eq (take 4 dat) magic) "Decrypt data failed!"
  slice_size dat (bytes_to_int (take 4 (drop 4 dat)))

unfoldable pub decrypt_with_password :
    Primitives → Option Bytes → Bytes → Option Bytes → Result Bytes
decrypt_with_password p content password keyword =
    let dat = or_empty content in
    let key = gen_symmetrickey_from_password p password keyword in
    do
      guard (not (length dat == 0)) "Cannot decrypt empty data"
      guard (length dat % block_size == 0) "Decrypt data is not an integral multiple of a block"
      open_container (map_blocks (p.aes_decrypt key) (length dat / block_size) dat)
