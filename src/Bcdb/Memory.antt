-- ===== src/Bcdb/Memory.antt =====
-- A database that is a map in memory.
use mathlib.Core.Path.{fun_ext}
use bclib.Base.{
  ◌≡◌, refl, sym, ap, ◌∙◌, Bool, true, false, Option, none, some, List, [], ◌∷◌, bytes_eq,
  if◌then◌else◌,
}
use bclib.Go.Result.{Result, ok, ok-injective}
use bclib.Go.Text.{Bytes}
use bclib.Map.{Map, lookup, insert, remove, bytes_key, lookup-insert, lookup-remove}
use bclib.Bcdb.{LevelDb, IsStore, Entry, put_entry, delete_entry, after}

abbrev pub Memory : Type 0
Memory = Map Bytes Bytes

abbrev pub write_all : List Entry → Memory → Memory
write_all [] m = m
write_all (put_entry k v ∷ es) m = write_all es (insert k v m)
write_all (delete_entry k ∷ es) m = write_all es (remove k m)

abbrev pub memory : LevelDb Memory
memory = record {
  read = λ m k. ok (lookup k m);
  put = λ sync k v m. ok (insert k v m);
  erase = λ sync k m. ok (remove k m);
  write = λ sync es m. ok (write_all es m);
  entries = λ m. m;
}

ok_if : (b : Bool) (x y : Option Bytes) → ok (if b then x else y) ≡ (if b then ok x else ok y)
ok_if true x y = refl
ok_if false x y = refl

read_insert :
    (k v : Bytes) (m : Memory) (j : Bytes)
    → ok (lookup j (insert k v m)) ≡ (if bytes_eq k j then ok (some v) else ok (lookup j m))
read_insert k v m j = ap ok (lookup-insert k j v m) ∙ ok_if (bytes_eq k j) (some v) (lookup j m)

read_remove :
    (k : Bytes) (m : Memory) (j : Bytes)
    → ok (lookup j (remove k m)) ≡ (if bytes_eq k j then ok none else ok (lookup j m))
read_remove k m j = ap ok (lookup-remove k j m) ∙ ok_if (bytes_eq k j) none (lookup j m)

read_write_all :
    (es : List Entry) (m : Memory) (j : Bytes)
    → ok (lookup j (write_all es m)) ≡ after es (λ i. ok (lookup i m)) j
read_write_all [] m j = refl
read_write_all (put_entry k v ∷ es) m j =
    read_write_all es (insert k v m) j
    ∙ ap (λ (f : Bytes → Result (Option Bytes)). after es f j) (fun_ext (λ i. read_insert k v m i))
read_write_all (delete_entry k ∷ es) m j =
    read_write_all es (remove k m) j
    ∙ ap (λ (f : Bytes → Result (Option Bytes)). after es f j) (fun_ext (λ i. read_remove k m i))

pub memory-IsStore : IsStore memory
memory-IsStore = record {
  read-put = λ sync k v d d' j e.
      ap (λ (m : Memory). ok (lookup j m)) (sym (ok-injective e)) ∙ read_insert k v d j;
  read-erase = λ sync k d d' j e.
      ap (λ (m : Memory). ok (lookup j m)) (sym (ok-injective e)) ∙ read_remove k d j;
  read-write = λ sync es d d' j e.
      ap (λ (m : Memory). ok (lookup j m)) (sym (ok-injective e)) ∙ read_write_all es d j;
}
