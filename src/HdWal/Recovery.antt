-- ===== src/HdWal/Recovery.antt =====
-- A wallet that is saved, and read back.
use bclib.Base.{
  ◌^◌, ◌<◌, ◌≡◌, refl, ap, ◌∙◌, true, not, none, some, ◌==◌, length, bytes_eq_refl, inl,
  if◌then◌else◌,
}
use bclib.Go.Result.{ok, guard, guard-true, >>=-eq-ok}
use bclib.Go.Bytes.{IsBytes}
use bclib.Go.Text.{Bytes}
use bclib.Algorithm.Primitives.{Primitives, IsBlockCipher}
use bclib.Algorithm.Cipher.{encrypt_with_password, decrypt_with_password}
use bclib.Algorithm.Cipher.RoundTrip.{decrypt-encrypt}
use bclib.Bcdb.{LevelDb, IsStore, get, contents, non_nil_bytes}
use bclib.Bcdb.Laws.{get-set}
use bclib.HdWal.{
  HdWallet, Platform, key_of_hd_wal, encrypt_and_save, get_hd_wal, export, import_wallet, derived,
  new_priv_key,
}

unfoldable pub sealed : Primitives → Bytes → Bytes → Bytes
sealed p json password = contents (encrypt_with_password p (some json) password none)

pub encrypted_sealed :
    (p : Primitives) (json password : Bytes)
    → encrypt_with_password p (some json) password none ≡ some (sealed p json password)
unfolding encrypt_with_password sealed
encrypted_sealed p json password = refl

-- What can be decrypted is not empty.
pub decrypted_there :
    (p : Primitives) (c password json : Bytes)
    → decrypt_with_password p (some c) password none ≡ ok json
    → not (length c == 0) ≡ true
unfolding decrypt_with_password
decrypted_there p c password json e =
    let (u, there, rest) =
      >>=-eq-ok (guard (not (length c == 0)) "Cannot decrypt empty data") _ e in
    guard-true (not (length c == 0)) "Cannot decrypt empty data" u there

-- The codec writes the wallet as JSON of bytes, shorter than 2^31, and reads it back.
pub record HasText {K : Type 0} (pf : Platform K) (wallet : HdWallet) : Type 0 where
  pub json : Bytes
  pub marshals : pf.marshal wallet ≡ ok json
  pub unmarshals : pf.unmarshal json ≡ ok wallet
  pub is_bytes : IsBytes json
  pub is_short : length json < 2 ^ 31

module _ {D K : Type 0} (ldb : LevelDb D) (law : IsStore ldb) (p : Primitives) (c : IsBlockCipher p)
    (pf : Platform K) where
  pub saved :
      (password : Bytes) (wallet : HdWallet) (h : HasText pf wallet) (db db' : D)
      → encrypt_and_save ldb p pf password wallet db ≡ ok db'
      → get ldb db' (some key_of_hd_wal) ≡ ok (some (sealed p h.json password))
  unfolding encrypt_and_save non_nil_bytes
  saved password wallet h db db' e =
      get-set ldb law (some key_of_hd_wal) (encrypt_with_password p (some h.json) password none)
        (some key_of_hd_wal) db db' (inl (rw h.marshals at e))
      ∙ ap
          (λ b.
            if b
            then ok (some (non_nil_bytes (encrypt_with_password p (some h.json) password none)))
            else get ldb db (some key_of_hd_wal))
          (bytes_eq_refl (non_nil_bytes (some key_of_hd_wal)))
      ∙ ap (λ o. ok (some (non_nil_bytes o))) (encrypted_sealed p h.json password)

  pub get_hd_wal-encrypt_and_save :
      (password : Bytes) (wallet : HdWallet) (h : HasText pf wallet) (db db' : D)
      → encrypt_and_save ldb p pf password wallet db ≡ ok db'
      → get_hd_wal ldb p pf password db' ≡ ok wallet
  unfolding get_hd_wal
  get_hd_wal-encrypt_and_save password wallet h db db' e =
      let open_it : decrypt_with_password p (some (sealed p h.json password)) password none
          ≡ ok h.json =
        rw (encrypted_sealed p h.json password) at
          (decrypt-encrypt p c password none h.json h.is_bytes h.is_short) in
      rw
        (
          saved password wallet h db db' e,
          decrypted_there p (sealed p h.json password) password h.json open_it,
          open_it,
        )
        h.unmarshals

-- The wallet that Import makes.
abbrev pub imported : Bytes → Bytes → HdWallet
imported mnemonic seed = record { mnemonic = mnemonic; seed = seed; hash = none }

module _ {D K : Type 0} (ldb : LevelDb D) (law : IsStore ldb) (p : Primitives) (c : IsBlockCipher p)
    (pf : Platform K) where
  -- After an Import of a mnemonic that returned no error, whatever wallet there was before, Export
  -- with the same password gives the mnemonic, and NewPrivKey with it gives, at every path, the key
  -- that is derived from the mnemonic's seed. The codec carries the wallet.
  pub new_priv_key-import_wallet :
      (mnemonic password seed path : Bytes) (db db' : D)
      → HasText pf (imported mnemonic seed)
      → pf.new_seed mnemonic ≡ ok seed
      → import_wallet ldb p pf mnemonic password db ≡ ok db'
      → (export ldb p pf password db' ≡ ok mnemonic)
        × (new_priv_key ldb p pf path password db' ≡ derived pf seed path)
  unfolding import_wallet export new_priv_key
  new_priv_key-import_wallet mnemonic password seed path db db' h s e =
      let read =
        get_hd_wal-encrypt_and_save ldb law p c pf password (imported mnemonic seed) h db db'
          (rw s at e) in
      (rw read refl, rw read refl)
