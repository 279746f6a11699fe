-- ===== src/HdWal.antt =====
-- hdwal/hdwal.go: the wallet's mnemonic, kept under one key of a database, encrypted under a password,
-- and the keys derived from it. The database is the one of Bcdb. The parameters are package bip39,
-- amino's JSON of the wallet, crypto.Sha256, the entropy of the machine, the key derivation of
-- extendedKey.go and parsePath.go, and ed25519.MakePublicKey.
pub mod Recovery
pub mod Fresh
mod Tests
use bclib.Base.{
  ℕ, ◌≡◌, Bool, true, false, not, String, Option, none, some, List, [], ◌∷◌, ◌++◌, ◌==◌, length,
  take, replicate, if◌then◌else◌,
}
use bclib.Go.Result.{Result, ok, err, panic, guard, ◌>>=◌, ◌>>◌}
use bclib.Go.Text.{Bytes, text}
use bclib.Algorithm.Primitives.{Primitives}
use bclib.Algorithm.Cipher.{encrypt_with_password, decrypt_with_password}
use bclib.Bcdb.{LevelDb, get, set, contents}

-- type HdWal
pub record HdWallet : Type 0 where
  pub mnemonic : Bytes
  pub seed : Bytes
  pub hash : Option Bytes

-- `K` is ExtendedKey.
pub record Platform (K : Type 0) : Type 0 where
  pub new_mnemonic : Bytes → Result Bytes
  pub new_seed : Bytes → Result Bytes
  pub sha256 : Bytes → Bytes
  pub marshal : HdWallet → Result Bytes
  pub unmarshal : Bytes → Result HdWallet
  pub new_master : Bytes → Result K
  pub child : K → ℕ → Result K
  pub key : K → Bytes
  pub parse_derivation_path : Bytes → Result (List ℕ)
  pub make_public_key : Bytes → Bytes

abbrev pub key_of_hd_wal : Bytes
key_of_hd_wal = text "/hdWallet/hdwal"

-- `fmt.Errorf("…: %s", err)` keeps no more of an error than its text.
abbrev pub wrong_password {ℓ} : {A : Type ℓ} → Result A → Result A
wrong_password (ok a) = ok a
wrong_password (err e) = err "The password is wrong"
wrong_password (panic e) = panic e

-- copy(privkey[:32], key) into an array of zeros
abbrev pub private_half : Bytes → Bytes
private_half key = take 32 (key ++ replicate 32 0) ++ replicate 32 0

module _ {D K : Type 0} (ldb : LevelDb D) (p : Primitives) (pf : Platform K) where
  unfoldable pub encrypt_and_save : Bytes → HdWallet → D → Result D
  unfolding set
  encrypt_and_save password wallet db = do
    json ← pf.marshal wallet
    set ldb (some key_of_hd_wal) (encrypt_with_password p (some json) password none) db

  unfoldable pub get_hd_wal : Bytes → D → Result HdWallet
  unfolding get
  get_hd_wal password db = do
    bytes ← get ldb db (some key_of_hd_wal)
    guard (not (length (contents bytes) == 0)) "Mnemonic does not exist!"
    json ← wrong_password (decrypt_with_password p bytes password none)
    pf.unmarshal json

  -- Mnemonic, with the machine's entropy.
  unfoldable pub new_wallet : Bytes → Bytes → D → Result (Bytes × D)
  unfolding encrypt_and_save
  new_wallet entropy password db = do
    bytes ← get ldb db (some key_of_hd_wal)
    guard (length (contents bytes) == 0) "Mnemonic already exists!"
    mnemonic ← pf.new_mnemonic entropy
    seed ← pf.new_seed mnemonic
    db' ←
        encrypt_and_save password
          (record { mnemonic = mnemonic; seed = seed; hash = some (pf.sha256 (mnemonic ++ seed)) })
          db
    ok (mnemonic, db')

  unfoldable pub export : Bytes → D → Result Bytes
  unfolding get_hd_wal
  export password db = do wallet ← get_hd_wal password db; ok wallet.mnemonic

  -- Import
  unfoldable pub import_wallet : Bytes → Bytes → D → Result D
  unfolding encrypt_and_save
  import_wallet mnemonic password db = do
    seed ← pf.new_seed mnemonic
    encrypt_and_save password (record { mnemonic = mnemonic; seed = seed; hash = none }) db

module _ {K : Type 0} (pf : Platform K) where
  -- The loop of NewPrivKey.
  unfoldable pub children : K → List ℕ → Result K
  children k [] = ok k
  children k (i ∷ path) = pf.child k i >>= λ c. children c path

  -- The key of a seed at a path.
  unfoldable pub derived : Bytes → Bytes → Result Bytes
  unfolding children
  derived seed path = do
    master ← pf.new_master seed
    indices ← pf.parse_derivation_path path
    k ← children master indices
    ok (pf.make_public_key (private_half (pf.key k)))

module _ {D K : Type 0} (ldb : LevelDb D) (p : Primitives) (pf : Platform K) where
  unfoldable pub new_priv_key : Bytes → Bytes → D → Result Bytes
  unfolding get_hd_wal derived
  new_priv_key path password db = do
    wallet ← get_hd_wal ldb p pf password db
    derived pf wallet.seed path
