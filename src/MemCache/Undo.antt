-- ===== src/MemCache/Undo.antt =====
-- Writes of one call and their undoing.
use bclib.Base.{◌≡◌, refl, true, false, List, [], ◌∷◌, arith, All, Bool-cases, inl, inr}
use bclib.Go.Int.{ℤ, pos, ◌≤ℤ◌, ◌+ℤ◌, +ℤ_parts}
use bclib.Map.{int_eq, int_eq→eq, int_eq_refl}
use bclib.MemCache.{Value, TxCache, MemCache, top_of, top, get, pushed, push, set, undone, dirty}

-- A value that was set is read back.
pub get-set : (txid : ℤ) (v : Value) (mc : MemCache) → get (set txid v mc) ≡ v
unfolding get set top
get-set txid v mc = read mc.tx
  where
    read : (ts : List TxCache) → top_of (pushed txid v ts) ≡ v
    read [] = refl
    read (t ∷ ts) = ground arith

-- No two neighbours come from one call.
abbrev pub Alternates : List TxCache → Type 0
Alternates [] = Unit {0}
Alternates (t ∷ []) = Unit {0}
Alternates (t ∷ u ∷ ts) = (int_eq t.id u.id ≡ false) × Alternates (u ∷ ts)

-- No entry comes from the call.
abbrev pub Without : ℤ → List TxCache → Type 0
Without txid ts = All (λ (t : TxCache). int_eq t.id txid ≡ false) ts

-- The newest entry, if there is one, comes from another call.
abbrev pub IsNewCall : ℤ → List TxCache → Type 0
IsNewCall txid [] = Unit {0}
IsNewCall txid (t ∷ ts) = int_eq t.id txid ≡ false

-- The writes of one call, in order.
unfoldable pub set_all : ℤ → List Value → MemCache → MemCache
set_all txid [] mc = mc
set_all txid (v ∷ vs) mc = set_all txid vs (set txid v mc)

undone_new : (txid : ℤ) (ts : List TxCache) → IsNewCall txid ts → undone txid ts ≡ ts
undone_new txid [] h = refl
undone_new txid (t ∷ ts) h = rw h

-- What a call has on top of the entries of the calls before it.
abbrev On : ℤ → List TxCache → List TxCache → Type 0
On txid base ts = (v : Value) × (ts ≡ record { id = txid; value = v } ∷ base)

pushed-new :
    (txid : ℤ) (v : Value) (base : List TxCache)
    → IsNewCall txid base
    → pushed txid v base ≡ record { id = txid; value = v } ∷ base
pushed-new txid v [] h = refl
pushed-new txid v (t ∷ ts) h = rw h

undone-On : (txid : ℤ) (base ts : List TxCache) → On txid base ts → undone txid ts ≡ base
undone-On txid base ts (v, e) = rw (e, int_eq_refl txid)

set_all-On :
    (txid : ℤ) (vs : List Value) (base : List TxCache) (mc : MemCache)
    → On txid base mc.tx
    → undone txid (set_all txid vs mc).tx ≡ base
unfolding set_all set push
set_all-On txid [] base mc h = undone-On txid base mc.tx h
set_all-On txid (v ∷ vs) base mc (w, e) = set_all-On txid vs base _ (v, rw (e, int_eq_refl txid))

set_all_owner :
    (txid : ℤ) (vs : List Value) (mc : MemCache)
    → ((set_all txid vs mc).trans_id ≡ mc.trans_id) × ((set_all txid vs mc).key ≡ mc.key)
unfolding set_all set push
set_all_owner txid [] mc = (refl, refl)
set_all_owner txid (v ∷ vs) mc = set_all_owner txid vs _

dirty-set_new :
    (txid : ℤ) (vs : List Value) (mc : MemCache)
    → IsNewCall txid mc.tx
    → dirty txid (set_all txid vs mc) ≡ mc
unfolding dirty set_all
dirty-set_new txid [] mc h = λ i. record mc { tx = undone_new txid mc.tx h i }
dirty-set_new txid (v ∷ vs) mc h = λ i. record {
  trans_id = (set_all_owner txid (v ∷ vs) mc).0 i;
  key = (set_all_owner txid (v ∷ vs) mc).1 i;
  tx = set_all-On txid vs mc.tx (set txid v mc) (v, unfold set push in pushed-new txid v mc.tx h) i;
}

Without-IsNewCall : (txid : ℤ) (ts : List TxCache) → Without txid ts → IsNewCall txid ts
Without-IsNewCall txid [] h = tt
Without-IsNewCall txid (t ∷ ts) (other, h) = other

-- On a cache that has no entry of a call, one Dirty takes back everything that the call has written
-- since, and leaves the cache as the call found it.
pub dirty-set_all :
    (txid : ℤ) (vs : List Value) (mc : MemCache)
    → Without txid mc.tx
    → dirty txid (set_all txid vs mc) ≡ mc
dirty-set_all txid vs mc h = dirty-set_new txid vs mc (Without-IsNewCall txid mc.tx h)

-- Each call wrote after the calls with lower ids, and all ids lie below the bound.
abbrev pub Below : ℤ → List TxCache → Type 0
Below b [] = Unit {0}
Below b (t ∷ ts) = (¬ (b ≤ℤ t.id)) × Below t.id ts

Below-Without : (b txid : ℤ) (ts : List TxCache) → b ≤ℤ txid → Below b ts → Without txid ts
Below-Without b txid [] h k = tt
Below-Without b txid (t ∷ ts) h (k, ks) =
    (apart (λ e. k (rw (int_eq→eq t.id txid e) h)), Below-Without t.id txid ts (omega arith) ks)
  where
    apart : ((int_eq t.id txid ≡ true) → ⊥) → int_eq t.id txid ≡ false
    apart no_match = elim (Bool-cases (int_eq t.id txid)) [
      | inl e ↦ absurd (no_match e)
      | inr e ↦ e
    ]

-- Where calls write in the order of their ids, Dirty on the latest call leaves none of its entries.
pub dirty-Without :
    (b txid : ℤ) (mc : MemCache)
    → Below b mc.tx
    → b ≤ℤ txid +ℤ pos 1
    → Without txid (dirty txid mc).tx
unfolding dirty
dirty-Without b txid mc h k = latest mc.tx h
  where
    latest : (ts : List TxCache) → Below b ts → Without txid (undone txid ts)
    latest [] l = tt
    latest (t ∷ ts) l = elim (Bool-cases (int_eq t.id txid)) [
      | inl own ↦
          rw own (Below-Without t.id txid ts (rw (int_eq→eq t.id txid own) (omega arith)) l.1)
      | inr other ↦
          rw other (other, Below-Without t.id txid ts (omega (arith, +ℤ_parts txid (pos 1))) l.1)
    ]

-- An entry of the call below another call's entry stays, although the call is said to be undone.
dirty_keeps_buried :
    (txid : ℤ) (mc : MemCache) (t : TxCache) (ts : List TxCache)
    → mc.tx ≡ t ∷ ts
    → int_eq t.id txid ≡ false
    → ¬ (Without txid ts)
    → ¬ (Without txid (dirty txid mc).tx)
unfolding dirty
dirty_keeps_buried txid mc t ts e other buried all = buried (rw (e, other) at all).1
