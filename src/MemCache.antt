-- ===== src/MemCache.antt =====
-- mc/memcache.go: the cache of one key in one transaction. `tx` is the slice of values written by
-- the transaction's calls, the newest first: its head is `mc.tx[mc.lastTx()]`. A value is a byte
-- slice, none where it is nil. The mutexes make each method one step.
pub mod Undo
pub mod Store
mod Tests
use bclib.Base.{ℕ, ◌+◌, ◌≡◌, Bool, true, false, Option, none, some, List, [], ◌∷◌, if◌then◌else◌}
use bclib.Go.Int.{ℤ, pos}
use bclib.Go.Text.{Bytes}
use bclib.Map.{int_eq}

abbrev pub Value : Type 0
Value = Option Bytes

pub record TxCache : Type 0 where
  pub id : ℤ
  pub value : Value

pub record MemCache : Type 0 where
  pub trans_id : ℤ
  pub key : Bytes
  pub tx : List TxCache

abbrev pub top_of : List TxCache → Value
top_of [] = none
top_of (t ∷ ts) = t.value

unfoldable pub top : MemCache → Value
top mc = top_of mc.tx

unfoldable pub get : MemCache → Value
unfolding top
get mc = top mc

abbrev pub pushed : ℤ → Value → List TxCache → List TxCache
pushed txid content [] = record { id = txid; value = content } ∷ []
pushed txid content (t ∷ ts) =
    if int_eq t.id txid
    then record t { value = content } ∷ ts
    else record { id = txid; value = content } ∷ (t ∷ ts)

unfoldable pub push : ℤ → Value → MemCache → MemCache
push txid content mc = record mc { tx = pushed txid content mc.tx }

unfoldable pub set : ℤ → Value → MemCache → MemCache
unfolding push
set tx_id content mc = push tx_id content mc

abbrev pub undone : ℤ → List TxCache → List TxCache
undone txid [] = []
undone txid (t ∷ ts) = if int_eq t.id txid then ts else t ∷ ts

unfoldable pub dirty : ℤ → MemCache → MemCache
dirty tx_id mc = record mc { tx = undone tx_id mc.tx }

abbrev rest_of : List TxCache → List TxCache
rest_of [] = []
rest_of (t ∷ ts) = ts

abbrev pub is_there : Value → Bool
is_there none = false
is_there (some b) = true

-- A nil top is returned and stays.
unfoldable pub pop : MemCache → Value × MemCache
unfolding top
pop mc = (top mc, if is_there (top mc) then record mc { tx = rest_of mc.tx } else mc)

unfoldable pub empty : MemCache → Bool
empty mc = elim mc.tx [ [] ↦ true | t ∷ ts ↦ false ]

-- `newmc`: what the first level holds for the key becomes the entry of call 0.
unfoldable pub newmc : ℤ → Bytes → Option Value → MemCache
newmc transid key none = record { trans_id = transid; key = key; tx = [] }
newmc transid key (some v) = record {
  trans_id = transid;
  key = key;
  tx = record { id = pos 0; value = v } ∷ [];
}
