-- ===== src/Algorithm/Address.antt =====
-- algorithm/algorithm.go: contract addresses, their check, and the hashes over joined fields.
pub mod Checks
use bclib.Base.{
  ℕ, zero, suc, ◌+◌, ◌-◌, ◌≡◌, Bool, Option, none, some, List, [], ◌∷◌, ◌++◌, length, take, drop,
  bytes_eq, leb, ltb, ◌==◌, if◌then◌else◌, not,
}
use bclib.Go.Result.{Result, ok, err, panic, out_of_range, bad_slice, guard, ◌>>=◌, ◌>>◌}
use bclib.Go.Int.{ℤ, pos, abs}
use bclib.Go.Bytes.{of_bytes, of_bytes_from, to_bytes}
use bclib.Go.Text.{Bytes, text, has_prefix, replace_once}
use bclib.Go.Format.{format_uint, format_int}
use bclib.Algorithm.Primitives.{Primitives}

-- What a call writes to one SHA3-256 hasher, in order.
abbrev pub join : List Bytes → Bytes
join [] = []
join (b ∷ bs) = b ++ join bs

unfoldable pub sha3_256_of : Primitives → List Bytes → Bytes
sha3_256_of p datas = p.sha3_256 (join datas)

unfoldable pub calc_contract_address : Primitives → Bytes → Bytes → Bytes → Bytes → Bytes
unfolding sha3_256_of
calc_contract_address p chain_id owner_addr contract_name version =
    let sha = sha3_256_of p (chain_id ∷ contract_name ∷ version ∷ owner_addr ∷ []) in
    let rpd = p.ripemd160 sha in
    let md = p.ripemd160 rpd in chain_id ++ p.base58_encode (rpd ++ take 4 md)

unfoldable pub check_address : Primitives → Bytes → Bytes → Result (Unit {0})
check_address p chain_id addr =
    let addr_data = p.base58_decode (replace_once addr chain_id []) in
    let body = length addr_data - 4 in
    let md = p.ripemd160 (take body addr_data) in
    do
      guard (not (length addr == 0)) "Address cannot be empty!"
      guard (has_prefix addr chain_id) "Address chainid is error!"
      guard (not (ltb (length addr_data) 4)) "Base58Addr parse error!"
      guard (bytes_eq (take 4 md) (drop body addr_data)) "Address checksum is error!"

unfoldable pub calc_udc_hash : Primitives → ℕ → Bytes → Bytes → ℤ → Bytes → Bytes
unfolding sha3_256_of
calc_udc_hash p nonce token owner value mature_date =
    sha3_256_of p (format_uint nonce 10 ∷ token ∷ owner ∷ to_bytes (abs value) ∷ mature_date ∷ [])

unfoldable pub calc_method_id : Primitives → Bytes → Bytes
calc_method_id p proto_type = take 4 (p.sha3_256 proto_type)

-- binary.BigEndian.Uint32 reads four bytes, and panics where there are fewer.
unfoldable pub convert_method_id : Bytes → Result Bytes
convert_method_id b =
    if ltb (length b) 4 then panic out_of_range else ok (format_int (pos (of_bytes (take 4 b))) 16)

unfoldable pub calc_code_hash : Primitives → Bytes → Bytes
calc_code_hash p code = p.sha3_256 code
