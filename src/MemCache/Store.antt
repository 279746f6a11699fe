-- ===== src/MemCache/Store.antt =====
-- mc/memcache.go: the instance. A *MemCache is an address into `heap`: a caller may keep it after
-- the instance has dropped it from its maps. `next` is the first address that is free.
pub mod Commit
pub mod Owned
pub mod Spec
use bclib.Base.{
  ℕ, suc, ◌+◌, ◌==◌, Bool, true, false, Option, none, some, List, [], ◌∷◌, ◌||◌, bytes_eq,
  if◌then◌else◌,
}
use bclib.Go.Int.{ℤ}
use bclib.Go.Text.{Bytes}
use bclib.Map.{Map, lookup, insert, remove, bytes_key, int_key}
use bclib.MemCache.{Value, MemCache, top, get, set, dirty, newmc}

pub record Instance : Type 0 where
  pub ll_cache : Map Bytes Value
  pub mc_cache : Map ℤ (Map Bytes ℕ)
  pub heap : ℕ → MemCache
  pub next : ℕ

abbrev pub update : (ℕ → MemCache) → ℕ → MemCache → ℕ → MemCache
update heap a mc b = if b == a then mc else heap b

-- What the heap holds where nothing was allocated.
abbrev pub no_cache : MemCache
no_cache = record { trans_id = bclib.Go.Int.pos 0; key = []; tx = [] }

unfoldable pub new_mc_instance : Instance
new_mc_instance = record { ll_cache = []; mc_cache = []; heap = λ a. no_cache; next = 0 }

abbrev pub or_empty {ℓ} : {A : Type ℓ} → Option (List A) → List A
or_empty none = []
or_empty (some m) = m

-- The caches of a transaction; none where the map has no entry for it.
abbrev pub caches : Instance → ℤ → Map Bytes ℕ
caches mi trans_id = or_empty (lookup trans_id mi.mc_cache)

abbrev pub allocate : Instance → ℤ → Bytes → Instance
allocate mi trans_id key = record mi {
  mc_cache = insert trans_id (insert key mi.next (caches mi trans_id)) mi.mc_cache;
  heap = update mi.heap mi.next (newmc trans_id key (lookup key mi.ll_cache));
  next = suc mi.next;
}

abbrev known_or_new : Instance → ℤ → Bytes → Option ℕ → Instance × ℕ
known_or_new mi trans_id key none = (allocate mi trans_id key, mi.next)
known_or_new mi trans_id key (some a) = (mi, a)

-- Returns the pointer to the cache of the key in the transaction.
unfoldable pub new_mc : Instance → ℤ → Bytes → Instance × ℕ
new_mc mi trans_id key = known_or_new mi trans_id key (lookup key (caches mi trans_id))

-- The methods of a MemCache through its pointer.
unfoldable pub get_at : Instance → ℕ → Value
get_at mi a = get (mi.heap a)

unfoldable pub set_at : Instance → ℕ → ℤ → Value → Instance
set_at mi a tx_id content = record mi { heap = update mi.heap a (set tx_id content (mi.heap a)) }

unfoldable pub dirty_at : Instance → ℕ → ℤ → Instance
dirty_at mi a tx_id = record mi { heap = update mi.heap a (dirty tx_id (mi.heap a)) }

-- Does one of the caches carry the key?
abbrev pub carries : (ℕ → MemCache) → Bytes → Map Bytes ℕ → Bool
carries heap key [] = false
carries heap key ((k, a) ∷ mcs) = bytes_eq (heap a).key key || carries heap key mcs

abbrev pub dropped : (ℕ → MemCache) → Bytes → Map Bytes ℕ → Map Bytes ℕ
dropped heap key mcs = if carries heap key mcs then remove key mcs else mcs

abbrev pub dropped_all : (ℕ → MemCache) → Bytes → Map ℤ (Map Bytes ℕ) → Map ℤ (Map Bytes ℕ)
dropped_all heap key [] = []
dropped_all heap key ((t, mcs) ∷ rest) = (t, dropped heap key mcs) ∷ dropped_all heap key rest

unfoldable pub dirty_key : Instance → Bytes → Instance
dirty_key mi key = record mi {
  mc_cache = dropped_all mi.heap key mi.mc_cache;
  ll_cache = remove key mi.ll_cache;
}

unfoldable pub clear : Instance → Instance
clear mi = record mi { ll_cache = []; mc_cache = [] }

-- `for _, mc := range mcs { mi.llCache[mc.key] = mc.top() }`
unfoldable pub stored : (ℕ → MemCache) → Map Bytes ℕ → Map Bytes Value → Map Bytes Value
stored heap [] ll = ll
stored heap ((k, a) ∷ mcs) ll = stored heap mcs (insert (heap a).key (top (heap a)) ll)

unfoldable pub commit_trans : Instance → ℤ → Instance
commit_trans mi trans_id = elim (lookup trans_id mi.mc_cache) [
  | none ↦ mi
  | some mcs ↦ record mi {
    ll_cache = stored mi.heap mcs mi.ll_cache;
    mc_cache = remove trans_id mi.mc_cache;
  }
]

unfoldable pub dirty_trans : Instance → ℤ → Instance
dirty_trans mi trans_id = record mi { mc_cache = remove trans_id mi.mc_cache }

-- `for _, mc := range mi.mcCache[transID] { mc.Dirty(txID) }`
unfoldable pub dirty_each : Map Bytes ℕ → ℤ → Instance → Instance
unfolding dirty_at
dirty_each [] tx_id mi = mi
dirty_each ((k, a) ∷ mcs) tx_id mi = dirty_each mcs tx_id (dirty_at mi a tx_id)

unfoldable pub dirty_trans_tx : Instance → ℤ → ℤ → Instance
dirty_trans_tx mi trans_id tx_id = dirty_each (caches mi trans_id) tx_id mi

-- A call of the package by one of its clients.
pub data Call : Type 0 where
  opens : ℤ → Bytes → Call
  sets : ℕ → ℤ → Value → Call
  dirties_at : ℕ → ℤ → Call
  dirties : Bytes → Call
  clears : Call
  commits drops : ℤ → Call
  dirties_tx : ℤ → ℤ → Call

unfoldable pub step : Instance → Call → Instance
step mi (opens t k) = (new_mc mi t k).0
step mi (sets a tx_id v) = set_at mi a tx_id v
step mi (dirties_at a tx_id) = dirty_at mi a tx_id
step mi (dirties k) = dirty_key mi k
step mi clears = clear mi
step mi (commits t) = commit_trans mi t
step mi (drops t) = dirty_trans mi t
step mi (dirties_tx t tx_id) = dirty_trans_tx mi t tx_id

unfoldable pub run : Instance → List Call → Instance
run mi [] = mi
run mi (c ∷ cs) = run (step mi c) cs
