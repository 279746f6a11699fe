-- ===== src/HdWal/Fresh.antt =====
-- A wallet with a new mnemonic, and its restoration elsewhere.
use bclib.Base.{◌≡◌, refl, sym, ap, ◌∙◌, Bool, true, false, not, none, some, ◌++◌, ◌==◌, length}
use bclib.Go.Result.{ok, err, guard, >>=-eq-ok, ok-injective}
use bclib.Go.Text.{Bytes}
use bclib.Algorithm.Primitives.{Primitives, IsBlockCipher}
use bclib.Algorithm.Cipher.RoundTrip.{decrypt-encrypt}
use bclib.Bcdb.{LevelDb, IsStore, get, contents}
use bclib.HdWal.{
  HdWallet, Platform, key_of_hd_wal, encrypt_and_save, new_wallet, export, import_wallet,
  new_priv_key,
}
use bclib.HdWal.Recovery.{
  HasText, sealed, saved, encrypted_sealed, decrypted_there, get_hd_wal-encrypt_and_save, imported,
  new_priv_key-import_wallet,
}

-- The wallet that Mnemonic makes.
abbrev pub made : {K : Type 0} → Platform K → Bytes → Bytes → HdWallet
made pf mnemonic seed = record {
  mnemonic = mnemonic;
  seed = seed;
  hash = some (pf.sha256 (mnemonic ++ seed));
}

module _ {D K : Type 0} (ldb : LevelDb D) (p : Primitives) (pf : Platform K) where
  -- A call of Mnemonic that succeeds has saved the wallet.
  new_wallet-saves :
      (entropy password mnemonic seed : Bytes) (db db' : D)
      → pf.new_mnemonic entropy ≡ ok mnemonic
      → pf.new_seed mnemonic ≡ ok seed
      → new_wallet ldb p pf entropy password db ≡ ok (mnemonic, db')
      → encrypt_and_save ldb p pf password (made pf mnemonic seed) db ≡ ok db'
  unfolding new_wallet
  new_wallet-saves entropy password mnemonic seed db db' m s e =
      let (bytes, got, rest) = >>=-eq-ok (get ldb db (some key_of_hd_wal)) _ e in
      let (u, empty, rest') =
        >>=-eq-ok (guard (length (contents bytes) == 0) "Mnemonic already exists!") _ rest in
      let (db'', kept, same) =
        >>=-eq-ok (encrypt_and_save ldb p pf password (made pf mnemonic seed) db) _
          (rw (m, s) at rest') in
      kept ∙ ap ok (ap (λ (r : Bytes × D). r.1) (ok-injective same))

not-true : (b : Bool) → not b ≡ true → b ≡ false
not-true true h = cc
not-true false h = refl

module _ {D K : Type 0} (ldb : LevelDb D) (law : IsStore ldb) (p : Primitives) (c : IsBlockCipher p)
    (pf : Platform K) where
  -- After a call of Mnemonic that succeeded, Export with the same password gives the mnemonic that
  -- was returned, and every later call of Mnemonic fails, as there is one. The codec carries the
  -- wallet.
  pub export-new_wallet :
      (entropy password mnemonic seed : Bytes) (db db' : D)
      → HasText pf (made pf mnemonic seed)
      → pf.new_mnemonic entropy ≡ ok mnemonic
      → pf.new_seed mnemonic ≡ ok seed
      → new_wallet ldb p pf entropy password db ≡ ok (mnemonic, db')
      → (export ldb p pf password db' ≡ ok mnemonic)
        × ((entropy' password' : Bytes)
            → new_wallet ldb p pf entropy' password' db' ≡ err "Mnemonic already exists!")
  unfolding export new_wallet
  export-new_wallet entropy password mnemonic seed db db' h m s e =
      let kept = new_wallet-saves ldb p pf entropy password mnemonic seed db db' m s e in
      let read =
        get_hd_wal-encrypt_and_save ldb law p c pf password (made pf mnemonic seed) h db db' kept in
      (
        rw read refl,
        λ entropy' password'.
            rw
              (
                saved ldb law p c pf password (made pf mnemonic seed) h db db' kept,
                not-true (length (sealed p h.json password) == 0) (
                    decrypted_there p (sealed p h.json password) password h.json (
                      rw (encrypted_sealed p h.json password) at
                        (decrypt-encrypt p c password none h.json h.is_bytes h.is_short))),
              )
              refl,
      )

  -- A mnemonic that one database made is imported into another, under whatever password: NewPrivKey
  -- then gives the same result at every path on both. The codec carries both wallets.
  pub new_priv_key_restored :
      (entropy password password' mnemonic seed path : Bytes) (db db' old new : D)
      → HasText pf (made pf mnemonic seed)
      → HasText pf (imported mnemonic seed)
      → pf.new_mnemonic entropy ≡ ok mnemonic
      → pf.new_seed mnemonic ≡ ok seed
      → new_wallet ldb p pf entropy password db ≡ ok (mnemonic, db')
      → import_wallet ldb p pf mnemonic password' old ≡ ok new
      → new_priv_key ldb p pf path password' new ≡ new_priv_key ldb p pf path password db'
  unfolding new_priv_key
  new_priv_key_restored entropy password password' mnemonic seed path db db' old new h h' m s e e' =
      let kept = new_wallet-saves ldb p pf entropy password mnemonic seed db db' m s e in
      let read =
        get_hd_wal-encrypt_and_save ldb law p c pf password (made pf mnemonic seed) h db db' kept in
      let (x, there) =
        new_priv_key-import_wallet ldb law p c pf mnemonic password' seed path old new h' s e' in
      there ∙ sym (rw read refl)
