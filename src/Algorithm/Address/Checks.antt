-- ===== src/Algorithm/Address/Checks.antt =====
-- Computed addresses and their check.
use bclib.Base.{
  ◌-◌, ◌≤◌, ◌≡◌, refl, sym, ap, ◌∙◌, true, false, [], ◌∷◌, ◌++◌, length, take, drop, bytes_eq_refl,
  bytes_eq→eq, arith, All-append, All-take, append_assoc, length-append, length-take,
  take-append_of_length, drop-append_of_length, ◌==◌, ◌≢◌, le→ltb,
}
use bclib.Go.Result.{ok}
use bclib.Go.Bytes.{IsByte, IsBytes}
use bclib.Go.Text.{Bytes, has_prefix, replace_once, has_prefix-append, replace_once-prefix}
use bclib.Algorithm.Primitives.{Primitives, HasAddressCode}
use bclib.Algorithm.Address.{sha3_256_of, calc_contract_address, check_address}

not_empty : (s t : Bytes) → s ≢ [] → (length (s ++ t) == 0) ≡ false
not_empty [] t h = absurd (h refl)
not_empty (c ∷ s) t h = ground arith

-- The address that the check accepts: the chain's id, then the base58 form of a body with the
-- first four bytes of the body's digest behind it.
pub check_address-sealed :
    (p : Primitives)
    → HasAddressCode p
    → (chain_id body : Bytes) → chain_id ≢ []
    → IsBytes body
    → check_address p chain_id (chain_id ++ p.base58_encode (body ++ take 4 (p.ripemd160 body)))
      ≡ ok tt
unfolding check_address
check_address-sealed p c chain_id body ne b =
    let tag = take 4 (p.ripemd160 body) in
    rw (
      replace_once-prefix chain_id (p.base58_encode (body ++ tag)),
      has_prefix-append chain_id (p.base58_encode (body ++ tag)),
      c.decoded (body ++ tag)
          (All-append IsByte body tag b (All-take IsByte 4 _ (c.digest_bytes body))),
      cut,
      take-append_of_length body tag refl,
      drop-append_of_length body tag refl,
      bytes_eq_refl tag,
      not_empty chain_id (p.base58_encode (body ++ tag)) ne,
      le→ltb (length (body ++ tag)) 4 room,
    )
  where
    cut : length (body ++ take 4 (p.ripemd160 body)) - 4 ≡ length body
    cut = omega (
      arith,
      length-append body (take 4 (p.ripemd160 body)),
      length-take 4 (p.ripemd160 body),
      c.digest_length body,
    )

    room : 4 ≤ length (body ++ take 4 (p.ripemd160 body))
    room = omega (
      arith,
      length-append body (take 4 (p.ripemd160 body)),
      length-take 4 (p.ripemd160 body),
      c.digest_length body,
    )

-- Every computed contract address passes the check under its own chain id.
pub check_address-calc_contract_address :
    (p : Primitives) (chain_id owner contract_name version : Bytes)
    → HasAddressCode p
    → chain_id ≢ []
    → check_address p chain_id (calc_contract_address p chain_id owner contract_name version)
      ≡ ok tt
unfolding calc_contract_address
check_address-calc_contract_address p chain_id owner contract_name version c ne =
    check_address-sealed p c chain_id _ ne (c.digest_bytes _)

-- An accepted address begins with the chain id, and its base58 body carries its own checksum.
check_address_sound :
    (p : Primitives) (chain_id addr : Bytes)
    → check_address p chain_id addr ≡ ok tt
    → let addr_data = p.base58_decode (replace_once addr chain_id []) in
      let body = length addr_data - 4 in
      (has_prefix addr chain_id ≡ true)
      × (4 ≤ length addr_data)
      × (take 4 (p.ripemd160 (take body addr_data)) ≡ drop body addr_data)
unfolding check_address
check_address_sound p chain_id addr h =
    let addr_data = p.base58_decode (replace_once addr chain_id []) in
    let body = length addr_data - 4 in
    ground (arith, bytes_eq→eq (take 4 (p.ripemd160 (take body addr_data))) (drop body addr_data))

-- Two contracts whose names and versions join to the same text have the same address.
calc_contract_address_collides :
    (p : Primitives) (chain_id owner name suffix version : Bytes)
    → calc_contract_address p chain_id owner (name ++ suffix) version
      ≡ calc_contract_address p chain_id owner name (suffix ++ version)
unfolding calc_contract_address sha3_256_of
calc_contract_address_collides p chain_id owner name suffix version =
    ap
      (λ rest.
        let rpd = p.ripemd160 (p.sha3_256 (chain_id ++ rest)) in
        chain_id ++ p.base58_encode (rpd ++ take 4 (p.ripemd160 rpd)))
      (joined name suffix version (owner ++ []))
  where
    joined : (a b c d : Bytes) → (a ++ b) ++ (c ++ d) ≡ a ++ ((b ++ c) ++ d)
    joined a b c d = append_assoc a b (c ++ d) ∙ ap (λ t. a ++ t) (sym (append_assoc b c d))
