-- ===== src/Bcdb/Tests.antt =====
-- The theorems on the database, over a map in memory.
use bclib.Base.{ℕ, ◌≡◌, ◌≢◌, refl, none, some, List, [], ◌∷◌, arith}
use bclib.Go.Result.{ok}
use bclib.Go.Text.{Bytes}
use bclib.Map.{insert, remove, bytes_key}
use bclib.Bcdb.{non_nil_bytes, get, set, delete, batch_set, batch_delete, commit}
use bclib.Bcdb.Batch.{Operation, setting, deleting, queue_all, perform_all, commit-queue_all}
use bclib.Bcdb.Memory.{Memory, memory, memory-IsStore}

abbrev key : Bytes
key = 1 ∷ 2 ∷ []

-- The key is set and the empty one deleted, written as nil.
abbrev with_key : Memory
with_key = (key, 9 ∷ []) ∷ []

set_key : set memory (some key) (some (9 ∷ [])) [] ≡ ok with_key
unfolding set non_nil_bytes insert remove
set_key = refl

delete_nil : delete memory none with_key ≡ ok with_key
unfolding delete non_nil_bytes remove
delete_nil = refl

abbrev writes : List Operation
writes = setting (some key) none ∷ deleting none ∷ setting (some (3 ∷ [])) (some key) ∷ []

abbrev written : Memory
written = (3 ∷ [], key) ∷ (key, []) ∷ []

committed : commit memory (queue_all writes []) [] ≡ ok written
unfolding commit queue_all batch_set batch_delete insert remove
committed = refl

performed : perform_all memory writes [] ≡ ok written
unfolding perform_all set delete non_nil_bytes insert remove
performed = refl

commit-queue_all_example : get memory written (some key) ≡ get memory written (some key)
commit-queue_all_example =
    commit-queue_all memory memory-IsStore writes [] written written (some key) committed performed

key_of_three : ◌≢◌ {A = ℕ} 3 b';'
key_of_three e = omega arith

key_of_one : ◌≢◌ {A = ℕ} 1 b';'
key_of_one e = omega arith

key_of_two : ◌≢◌ {A = ℕ} 2 b';'
key_of_two e = omega arith
