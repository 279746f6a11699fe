-- ===== src/Bcdb.antt =====
-- bcdb/level_db.go: a database over LevelDB, which is a parameter. A slice that may be nil is an
-- `Option`; a write returns the new state of the database.
pub mod Laws
pub mod Batch
pub mod Keys
pub mod Memory
mod Tests
use bclib.Base.{
  ℕ, ◌≡◌, ◌≢◌, Bool, true, false, Option, none, some, List, [], ◌∷◌, ◌++◌, map, bytes_eq,
  if◌then◌else◌, String,
}
use bclib.Go.Result.{Result, ok, err, panic, ◌>>=◌}
use bclib.Go.Text.{Bytes}

-- One entry of a leveldb.Batch.
pub data Entry : Type 0 where
  put_entry : Bytes → Bytes → Entry
  delete_entry : Bytes → Entry

-- What the code calls of goleveldb, on databases of type `D`. `read` gives no value for
-- ErrNotFound; the flag of a write is WriteOptions.Sync; `entries` is what an iterator goes through.
pub record LevelDb (D : Type 0) : Type 0 where
  pub read : D → Bytes → Result (Option Bytes)
  pub put : Bool → Bytes → Bytes → D → Result D
  pub erase : Bool → Bytes → D → Result D
  pub write : Bool → List Entry → D → Result D
  pub entries : D → List (Bytes × Bytes)

-- What a lookup gives after one entry, and after a batch, the first entry first.
abbrev pub after_entry : Entry → (Bytes → Result (Option Bytes)) → Bytes → Result (Option Bytes)
after_entry (put_entry k v) before j = if bytes_eq k j then ok (some v) else before j
after_entry (delete_entry k) before j = if bytes_eq k j then ok none else before j

abbrev pub after : List Entry → (Bytes → Result (Option Bytes)) → Bytes → Result (Option Bytes)
after [] before = before
after (e ∷ es) before = after es (after_entry e before)

-- What goleveldb documents: a write that returns no error is seen by every later lookup, and
-- changes no other key; the entries of a batch count in their order.
pub record IsStore {D : Type 0} (ldb : LevelDb D) : Type 0 where
  pub read-put :
      (sync : Bool) (k v : Bytes) (d d' : D) (j : Bytes)
      → ldb.put sync k v d ≡ ok d'
      → ldb.read d' j ≡ after_entry (put_entry k v) (ldb.read d) j
  pub read-erase :
      (sync : Bool) (k : Bytes) (d d' : D) (j : Bytes)
      → ldb.erase sync k d ≡ ok d'
      → ldb.read d' j ≡ after_entry (delete_entry k) (ldb.read d) j
  pub read-write :
      (sync : Bool) (es : List Entry) (d d' : D) (j : Bytes)
      → ldb.write sync es d ≡ ok d'
      → ldb.read d' j ≡ after es (ldb.read d) j

unfoldable pub non_nil_bytes : Option Bytes → Bytes
non_nil_bytes none = []
non_nil_bytes (some bz) = bz

-- A batch is the list of its entries; leveldb.Batch takes a nil slice for an empty one.
abbrev pub contents : Option Bytes → Bytes
contents none = []
contents (some bz) = bz

unfoldable pub batch_set : Option Bytes → Option Bytes → List Entry → List Entry
batch_set key value batch = batch ++ put_entry (contents key) (contents value) ∷ []

unfoldable pub batch_delete : Option Bytes → List Entry → List Entry
batch_delete key batch = batch ++ delete_entry (contents key) ∷ []

-- The error of Get is dropped.
abbrev pub is_value : Result (Option Bytes) → Bool
is_value (ok (some v)) = true
is_value _ = false

-- strings.Join with a separator of one byte.
abbrev pub join : ℕ → List Bytes → Bytes
join sep [] = []
join sep (s ∷ []) = s
join sep (s ∷ t ∷ r) = s ++ sep ∷ join sep (t ∷ r)

abbrev pub joined_keys : List (Bytes × Bytes) → Option Bytes
joined_keys [] = none
joined_keys (e ∷ es) = some (join b';' (map (λ (p : Bytes × Bytes). p.0) (e ∷ es)))

abbrev pub each {ℓ} : {A : Type ℓ} → (Bytes → Bytes → A → A) → List (Bytes × Bytes) → A → A
each f [] a = a
each f ((k, v) ∷ es) a = each f es (f k v a)

module _ {D : Type 0} (ldb : LevelDb D) where
  unfoldable pub get : D → Option Bytes → Result (Option Bytes)
  unfolding non_nil_bytes
  get db key = ldb.read db (non_nil_bytes key)

  unfoldable pub has : D → Option Bytes → Bool
  unfolding get
  has db key = is_value (get db key)

  unfoldable pub set : Option Bytes → Option Bytes → D → Result D
  unfolding non_nil_bytes
  set key value db = ldb.put false (non_nil_bytes key) (non_nil_bytes value) db

  unfoldable pub set_sync : Option Bytes → Option Bytes → D → Result D
  unfolding non_nil_bytes
  set_sync key value db = ldb.put true (non_nil_bytes key) (non_nil_bytes value) db

  unfoldable pub delete : Option Bytes → D → Result D
  unfolding non_nil_bytes
  delete key db = ldb.erase false (non_nil_bytes key) db

  unfoldable pub delete_sync : Option Bytes → D → Result D
  unfolding non_nil_bytes
  delete_sync key db = ldb.erase true (non_nil_bytes key) db

  unfoldable pub commit : List Entry → D → Result D
  commit batch db = ldb.write true batch db

  -- GetAllKey returns nil where there is no key.
  unfoldable pub get_all_key : D → Option Bytes
  get_all_key db = joined_keys (ldb.entries db)

  -- Iterator calls `f` on every entry; `A` is what `f` changes.
  unfoldable pub iterator : {A : Type 0} → D → (Bytes → Bytes → A → A) → A → A
  iterator db f a = each f (ldb.entries db) a

  -- What queryDB writes.
  unfoldable pub query_db : D → Bytes → (String → Bytes) → Bytes
  unfolding get
  query_db db uri bytes_of = elim (get db (some uri)) [
    | ok value ↦ contents value
    | err e ↦ bytes_of e
    | panic e ↦ bytes_of e
  ]
