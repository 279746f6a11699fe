-- ===== src/Bcdb/Laws.antt =====
-- What a database gives after a write.
use bclib.Base.{
  ◌≡◌, ◌⊎◌, refl, ap, ◌∙◌, Bool, true, false, not, Option, none, some, bytes_eq, bytes_eq_refl,
  if◌then◌else◌, inl, inr,
}
use bclib.Go.Result.{Result, ok}
use bclib.Go.Text.{Bytes}
use bclib.Bcdb.{
  LevelDb, IsStore, non_nil_bytes, get, is_value, has, set, set_sync, delete, delete_sync,
}

module _ {D : Type 0} (ldb : LevelDb D) (law : IsStore ldb) where
  -- After a Set, or a SetSync, that returned no error, Get gives the value for the same key, where
  -- nil and empty slices are the same, and what it gave before for any other key.
  pub get-set :
      (key value j : Option Bytes) (db db' : D)
      → (set ldb key value db ≡ ok db') ⊎ (set_sync ldb key value db ≡ ok db')
      → get ldb db' j ≡ (
          if bytes_eq (non_nil_bytes key) (non_nil_bytes j)
          then ok (some (non_nil_bytes value))
          else get ldb db j)
  unfolding set set_sync get
  get-set key value j db db' (inl e) =
      law.read-put false (non_nil_bytes key) (non_nil_bytes value) db db' (non_nil_bytes j) e
  get-set key value j db db' (inr e) =
      law.read-put true (non_nil_bytes key) (non_nil_bytes value) db db' (non_nil_bytes j) e

  pub get-delete :
      (key j : Option Bytes) (db db' : D)
      → (delete ldb key db ≡ ok db') ⊎ (delete_sync ldb key db ≡ ok db')
      → get ldb db' j
        ≡ (if bytes_eq (non_nil_bytes key) (non_nil_bytes j) then ok none else get ldb db j)
  unfolding delete delete_sync get
  get-delete key j db db' (inl e) =
      law.read-erase false (non_nil_bytes key) db db' (non_nil_bytes j) e
  get-delete key j db db' (inr e) =
      law.read-erase true (non_nil_bytes key) db db' (non_nil_bytes j) e

  -- Where a key was set and another deleted, in this order and without an error, Has finds the first
  -- exactly when the two keys differ, and never the second.
  pub has-delete-set :
      (key value other : Option Bytes) (db db' db'' : D)
      → set ldb key value db ≡ ok db'
      → delete ldb other db' ≡ ok db''
      → (has ldb db'' key ≡ not (bytes_eq (non_nil_bytes other) (non_nil_bytes key)))
        × (has ldb db'' other ≡ false)
  unfolding has
  has-delete-set key value other db db' db'' e e' = (
    ap is_value (get-delete other key db' db'' (inl e'))
        ∙ first (bytes_eq (non_nil_bytes other) (non_nil_bytes key)) (get ldb db' key)
            (non_nil_bytes value)
            (get-set key value key db db' (inl e) ∙ rw (bytes_eq_refl (non_nil_bytes key)) refl),
    ap is_value (get-delete other other db' db'' (inl e'))
        ∙ ap (λ b. is_value (if b then ok none else get ldb db' other))
            (bytes_eq_refl (non_nil_bytes other)),
  )
    where
      first :
          (b : Bool) (r : Result (Option Bytes)) (v : Bytes)
          → r ≡ ok (some v)
          → is_value (if b then ok none else r) ≡ not b
      first true r v h = refl
      first false r v h = ap is_value h
