-- ===== src/Bcdb/Batch.antt =====
-- Batches, and the same operations one by one.
use mathlib.Core.Path.{fun_ext}
use bclib.Base.{
  ◌≡◌, refl, sym, ap, ◌∙◌, true, false, Option, none, some, List, [], ◌∷◌, ◌++◌, append_assoc,
  append-nil,
}
use bclib.Go.Result.{Result, ok, ◌>>=◌, ok-injective, >>=-eq-ok}
use bclib.Go.Text.{Bytes}
use bclib.Bcdb.{
  LevelDb, IsStore, Entry, put_entry, delete_entry, after_entry, after, contents, non_nil_bytes,
  get, set, delete, batch_set, batch_delete, commit,
}

-- A write of the program: a Set or a Delete.
pub data Operation : Type 0 where
  setting : Option Bytes → Option Bytes → Operation
  deleting : Option Bytes → Operation

-- The operation on a batch.
abbrev pub queue_one : Operation → List Entry → List Entry
queue_one (setting k v) batch = batch_set k v batch
queue_one (deleting k) batch = batch_delete k batch

unfoldable pub queue_all : List Operation → List Entry → List Entry
unfolding batch_set batch_delete
queue_all [] batch = batch
queue_all (o ∷ os) batch = queue_all os (queue_one o batch)

module _ {D : Type 0} (ldb : LevelDb D) where
  -- The operation on the database.
  abbrev pub perform_one : Operation → D → Result D
  perform_one (setting k v) db = set ldb k v db
  perform_one (deleting k) db = delete ldb k db

  unfoldable pub perform_all : List Operation → D → Result D
  unfolding set delete
  perform_all [] db = ok db
  perform_all (o ∷ os) db = perform_one o db >>= λ db'. perform_all os db'

abbrev entry : Operation → Entry
entry (setting k v) = put_entry (contents k) (contents v)
entry (deleting k) = delete_entry (contents k)

abbrev entries : List Operation → List Entry
entries [] = []
entries (o ∷ os) = entry o ∷ entries os

queue_all-entries :
    (os : List Operation) (batch : List Entry) → queue_all os batch ≡ batch ++ entries os
unfolding queue_all batch_set batch_delete
queue_all-entries [] batch = sym (append-nil batch)
queue_all-entries (setting k v ∷ os) batch =
    queue_all-entries os (batch_set k v batch)
    ∙ append_assoc batch (put_entry (contents k) (contents v) ∷ []) (entries os)
queue_all-entries (deleting k ∷ os) batch =
    queue_all-entries os (batch_delete k batch)
    ∙ append_assoc batch (delete_entry (contents k) ∷ []) (entries os)

same_bytes : (o : Option Bytes) → non_nil_bytes o ≡ contents o
unfolding non_nil_bytes
same_bytes none = refl
same_bytes (some b) = refl

module _ {D : Type 0} (ldb : LevelDb D) (law : IsStore ldb) where
  perform_one-entry :
      (o : Operation) (db db' : D)
      → perform_one ldb o db ≡ ok db'
      → ldb.read db' ≡ after_entry (entry o) (ldb.read db)
  unfolding set delete
  perform_one-entry (setting k v) db db' e = fun_ext (λ j.
      law.read-put false (non_nil_bytes k) (non_nil_bytes v) db db' j e ∙ λ i.
      after_entry (put_entry (same_bytes k i) (same_bytes v i)) (ldb.read db) j)
  perform_one-entry (deleting k) db db' e = fun_ext (λ j.
      law.read-erase false (non_nil_bytes k) db db' j e ∙ λ i.
      after_entry (delete_entry (same_bytes k i)) (ldb.read db) j)

  perform_all-after :
      (os : List Operation) (db db' : D)
      → perform_all ldb os db ≡ ok db'
      → ldb.read db' ≡ after (entries os) (ldb.read db)
  unfolding perform_all
  perform_all-after [] db db' e = ap ldb.read (sym (ok-injective e))
  perform_all-after (o ∷ os) db db' e =
      let (mid, one, more) = >>=-eq-ok (perform_one ldb o db) _ e in
      perform_all-after os mid db' more ∙ ap (after (entries os)) (perform_one-entry o db mid one)

  -- Sets and Deletes that are put in a batch and committed without an error leave, for every key,
  -- what the same calls leave that are made one by one, none of them with an error.
  pub commit-queue_all :
      (os : List Operation) (db together one_by_one : D) (key : Option Bytes)
      → commit ldb (queue_all os []) db ≡ ok together
      → perform_all ldb os db ≡ ok one_by_one
      → get ldb together key ≡ get ldb one_by_one key
  unfolding commit get
  commit-queue_all os db together one_by_one key e e' =
      law.read-write true (queue_all os []) db together (non_nil_bytes key) e
      ∙ (λ i. after (queue_all-entries os [] i) (ldb.read db) (non_nil_bytes key))
      ∙ ap (λ (f : Bytes → Result (Option Bytes)). f (non_nil_bytes key))
          (sym (perform_all-after os db one_by_one e'))
