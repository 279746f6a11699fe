-- ===== src/MemCache/Store/Spec.antt =====
-- mc/memcache.go, as its clients see it: committed values, and for each transaction the values of
-- the keys that it has opened. `perform` is what a client does with the instance; `serve` is the
-- same on the abstract state.
pub mod Calls
pub mod Opens
pub mod Refines
use bclib.Base.{Bool, ◌&&◌, Option, none, some, List, [], ◌∷◌, bytes_eq, if◌then◌else◌, ℕ}
use bclib.Go.Int.{ℤ}
use bclib.Go.Text.{Bytes}
use bclib.Map.{lookup, bytes_key, int_eq}
use bclib.MemCache.{Value, MemCache, top}
use bclib.MemCache.Store.{
  Instance, caches, new_mc, get_at, set_at, dirty_key, clear, commit_trans, dirty_trans,
}

pub record View : Type 0 where
  pub committed : Bytes → Option Value
  pub opened : ℤ → Bytes → Option Value

abbrev pub top_at : (ℕ → MemCache) → Option ℕ → Option Value
top_at heap none = none
top_at heap (some a) = some (top (heap a))

-- What an instance stands for.
unfoldable pub view : Instance → View
view mi = record {
  committed = λ k. lookup k mi.ll_cache;
  opened = λ t k. top_at mi.heap (lookup k (caches mi t));
}

-- A client's request: Get and Set of a key in a transaction through NewMc, and the calls of the
-- instance.
pub data Request : Type 0 where
  reads : ℤ → Bytes → Request
  writes : ℤ → ℤ → Bytes → Value → Request
  commits drops : ℤ → Request
  dirties : Bytes → Request
  clears : Request

abbrev pub quiet : Instance → Instance × Value
quiet mi = (mi, none)

unfoldable pub perform : Instance → Request → Instance × Value
perform mi (reads t k) = let (mi', a) = new_mc mi t k in (mi', get_at mi' a)
perform mi (writes t tx_id k v) = let (mi', a) = new_mc mi t k in quiet (set_at mi' a tx_id v)
perform mi (commits t) = quiet (commit_trans mi t)
perform mi (drops t) = quiet (dirty_trans mi t)
perform mi (dirties k) = quiet (dirty_key mi k)
perform mi clears = quiet (clear mi)

-- The values that a list of requests gets.
unfoldable pub answers : Instance → List Request → List Value
unfolding perform
answers mi [] = []
answers mi (r ∷ rs) = (perform mi r).1 ∷ answers (perform mi r).0 rs

abbrev pub or_nil : Option Value → Value
or_nil none = none
or_nil (some v) = v

-- A key that a transaction has not opened reads as committed.
abbrev pub read_as : Option Value → Option Value → Value
read_as none old = or_nil old
read_as (some v) old = v

abbrev pub seen : View → ℤ → Bytes → Value
seen s t k = read_as (s.opened t k) (s.committed k)

abbrev pub at_place :
    ℤ → Bytes → Option Value → (ℤ → Bytes → Option Value) → ℤ → Bytes → Option Value
at_place t k v opened u j = if int_eq t u && bytes_eq k j then v else opened u j

abbrev pub published : Option Value → Option Value → Option Value
published none old = old
published (some v) old = some v

unfoldable pub serve : View → Request → View × Value
serve s (reads t k) = (record s { opened = at_place t k (some (seen s t k)) s.opened }, seen s t k)
serve s (writes t tx_id k v) = (record s { opened = at_place t k (some v) s.opened }, none)
serve s (commits t) = (
  record {
    committed = λ k. published (s.opened t k) (s.committed k);
    opened = λ u k. if int_eq t u then none else s.opened u k;
  },
  none,
)
serve s (drops t) = (record s { opened = λ u k. if int_eq t u then none else s.opened u k }, none)
serve s (dirties k) = (
  record {
    committed = λ j. if bytes_eq k j then none else s.committed j;
    opened = λ t j. if bytes_eq k j then none else s.opened t j;
  },
  none,
)
serve s clears = (record { committed = λ k. none; opened = λ t k. none }, none)

unfoldable pub served : View → List Request → List Value
unfolding serve
served s [] = []
served s (r ∷ rs) = (serve s r).1 ∷ served (serve s r).0 rs
