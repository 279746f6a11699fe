-- ===== src/MemCache/Store/Owned.antt =====
-- The invariant of the instance: each cache that the maps hold was allocated, and carries the
-- transaction and the key under which it stands.
use bclib.Base.{
  ℕ, suc, ◌≤◌, ◌<◌, ◌≡◌, refl, sym, ◌∙◌, inl, inr, ◌==◌, true, Option, none, some, List, [], ◌∷◌,
  arith, Bool-cases, Option-cases,
}
use bclib.Go.Int.{ℤ}
use bclib.Go.Text.{Bytes}
use bclib.Map.{
  Map, lookup, insert, remove, bytes_key, int_key, int_eq, IsUnique, IsUnique-insert,
  IsUnique-remove, Entries, Entries-insert, Entries-remove, Entries-lookup, Entries-mono,
}
use bclib.MemCache.{Value, MemCache, set, push, dirty, newmc}
use bclib.MemCache.Store.{
  Instance, new_mc_instance, caches, update, new_mc, set_at, dirty_at, dirty_key, clear, dropped,
  dropped_all, carries, Call, opens, sets, dirties_at, dirties, clears, commits, drops, dirties_tx,
  step, run, commit_trans, dirty_trans, dirty_trans_tx, dirty_each,
}

abbrev pub Owns : (ℕ → MemCache) → ℕ → ℤ → Bytes → ℕ → Type 0
Owns heap next t k a = ((heap a).trans_id ≡ t) × ((heap a).key ≡ k) × (a < next)

abbrev pub OwnsAll : (ℕ → MemCache) → ℕ → ℤ → Map Bytes ℕ → Type 0
OwnsAll heap next t mcs = IsUnique mcs × Entries (Owns heap next t) mcs

pub record Inv (mi : Instance) : Type 0 where
  pub unique : IsUnique mi.mc_cache
  pub owned : Entries (OwnsAll mi.heap mi.next) mi.mc_cache

pub new_mc_instance-Inv : Inv new_mc_instance
unfolding new_mc_instance
new_mc_instance-Inv = record { unique = tt; owned = tt }

-- Two heaps that agree on the owners of all caches below `next`.
abbrev SameOwners : (ℕ → MemCache) → (ℕ → MemCache) → ℕ → Type 0
SameOwners h h' next =
    (a : ℕ) → a < next → ((h' a).trans_id ≡ (h a).trans_id) × ((h' a).key ≡ (h a).key)

module _ (h h' : ℕ → MemCache) (next next' : ℕ) (more : next ≤ next')
    (same : SameOwners h h' next) where
  Owns-mono : (t : ℤ) (k : Bytes) (a : ℕ) → Owns h next t k a → Owns h' next' t k a
  Owns-mono t k a (p, q, r) = ((same a r).0 ∙ p, (same a r).1 ∙ q, omega arith)

  OwnsAll-mono : (t : ℤ) (mcs : Map Bytes ℕ) → OwnsAll h next t mcs → OwnsAll h' next' t mcs
  OwnsAll-mono t mcs (u, o) = (u, Entries-mono (Owns-mono t) mcs o)

  all_mono : (m : Map ℤ (Map Bytes ℕ)) → Entries (OwnsAll h next) m → Entries (OwnsAll h' next') m
  all_mono m o = Entries-mono OwnsAll-mono m o

-- The caches of a transaction, under the invariant.
pub caches-OwnsAll : (mi : Instance) (t : ℤ) → Inv mi → OwnsAll mi.heap mi.next t (caches mi t)
caches-OwnsAll mi t inv = elim (Option-cases (lookup t mi.mc_cache)) [
  | inl e ↦ rw e (tt, tt)
  | inr (mcs, e) ↦ rw e (Entries-lookup (OwnsAll mi.heap mi.next) t mcs mi.mc_cache inv.owned e)
]

newmc_owner :
    (t : ℤ) (k : Bytes) (o : Option Value) → ((newmc t k o).trans_id ≡ t) × ((newmc t k o).key ≡ k)
unfolding newmc
newmc_owner t k none = (refl, refl)
newmc_owner t k (some v) = (refl, refl)

update_fresh : (h : ℕ → MemCache) (mc : MemCache) (next : ℕ) → SameOwners h (update h next mc) next
update_fresh h mc next a l = ground arith

update_same :
    (h : ℕ → MemCache) (b : ℕ) (mc : MemCache) (next : ℕ)
    → mc.trans_id ≡ (h b).trans_id
    → mc.key ≡ (h b).key
    → SameOwners h (update h b mc) next
update_same h b mc next p q a l = elim (Bool-cases (a == b)) [
  | inl e ↦ rw e (let s : a ≡ b = ground arith in (rw s p, rw s q))
  | inr e ↦ rw e (refl, refl)
]

pub new_mc-Inv : (mi : Instance) (t : ℤ) (k : Bytes) → Inv mi → Inv (new_mc mi t k).0
unfolding new_mc
new_mc-Inv mi t k inv = elim (Option-cases (lookup k (caches mi t))) [
  | inl e ↦ rw e (record {
    unique = IsUnique-insert t _ mi.mc_cache inv.unique;
    owned = Entries-insert (OwnsAll heap' (suc mi.next)) t _ mi.mc_cache fresh (
        all_mono mi.heap heap' mi.next (suc mi.next) (omega arith) (update_fresh mi.heap _ mi.next)
          mi.mc_cache inv.owned);
  })
  | inr (a, e) ↦ rw e inv
]
  where
    heap' : ℕ → MemCache
    heap' = update mi.heap mi.next (newmc t k (lookup k mi.ll_cache))

    own : (mi.next == mi.next) ≡ true
    own = ground arith

    here : Owns heap' (suc mi.next) t k mi.next
    here = rw own (
      (newmc_owner t k (lookup k mi.ll_cache)).0,
      (newmc_owner t k (lookup k mi.ll_cache)).1,
      omega arith,
    )

    fresh : OwnsAll heap' (suc mi.next) t (insert k mi.next (caches mi t))
    fresh =
        let old = caches-OwnsAll mi t inv in
        (
          IsUnique-insert k mi.next (caches mi t) old.0,
          Entries-insert (Owns heap' (suc mi.next) t) k mi.next (caches mi t) here (
              Entries-mono
                (Owns-mono mi.heap heap' mi.next (suc mi.next) (omega arith)
                  (update_fresh mi.heap _ mi.next) t)
                (caches mi t) old.1),
        )

heap-Inv :
    (mi : Instance) (b : ℕ) (mc : MemCache)
    → mc.trans_id ≡ (mi.heap b).trans_id
    → mc.key ≡ (mi.heap b).key
    → Inv mi
    → Inv (record mi { heap = update mi.heap b mc })
heap-Inv mi b mc p q inv = record {
  unique = inv.unique;
  owned =
      all_mono mi.heap (update mi.heap b mc) mi.next mi.next (omega arith)
        (update_same mi.heap b mc mi.next p q) mi.mc_cache inv.owned;
}

pub set_at-Inv :
    (mi : Instance) (a : ℕ) (tx_id : ℤ) (v : Value) → Inv mi → Inv (set_at mi a tx_id v)
unfolding set_at set push
set_at-Inv mi a tx_id v inv = heap-Inv mi a _ refl refl inv

pub dirty_at-Inv : (mi : Instance) (a : ℕ) (tx_id : ℤ) → Inv mi → Inv (dirty_at mi a tx_id)
unfolding dirty_at dirty
dirty_at-Inv mi a tx_id inv = heap-Inv mi a _ refl refl inv

dirty_each-Inv :
    (mcs : Map Bytes ℕ) (tx_id : ℤ) (mi : Instance) → Inv mi → Inv (dirty_each mcs tx_id mi)
unfolding dirty_each
dirty_each-Inv [] tx_id mi inv = inv
dirty_each-Inv ((k, a) ∷ mcs) tx_id mi inv =
    dirty_each-Inv mcs tx_id (dirty_at mi a tx_id) (dirty_at-Inv mi a tx_id inv)

pub without-Inv :
    (mi : Instance) (t : ℤ) (ll : Map Bytes Value)
    → Inv mi
    → Inv (record mi { ll_cache = ll; mc_cache = remove t mi.mc_cache })
without-Inv mi t ll inv = record {
  unique = IsUnique-remove t mi.mc_cache inv.unique;
  owned = Entries-remove (OwnsAll mi.heap mi.next) t mi.mc_cache inv.owned;
}

pub commit_trans-Inv : (mi : Instance) (t : ℤ) → Inv mi → Inv (commit_trans mi t)
unfolding commit_trans
commit_trans-Inv mi t inv = elim (Option-cases (lookup t mi.mc_cache)) [
  | inl e ↦ rw (e, commit_trans) inv
  | inr (mcs, e) ↦ rw (e, commit_trans) (without-Inv mi t _ inv)
]

dropped-OwnsAll :
    (h : ℕ → MemCache) (next : ℕ) (key : Bytes) (t : ℤ) (mcs : Map Bytes ℕ)
    → OwnsAll h next t mcs
    → OwnsAll h next t (dropped h key mcs)
dropped-OwnsAll h next key t mcs (u, o) = elim (Bool-cases (carries h key mcs)) [
  | inl e ↦ rw e (IsUnique-remove key mcs u, Entries-remove (Owns h next t) key mcs o)
  | inr e ↦ rw e (u, o)
]

dropped_all-absent :
    (h : ℕ → MemCache) (key : Bytes) (t : ℤ) (m : Map ℤ (Map Bytes ℕ))
    → lookup t m ≡ none
    → lookup t (dropped_all h key m) ≡ none
unfolding lookup
dropped_all-absent h key t [] e = refl
dropped_all-absent h key t ((u, mcs) ∷ m) e = elim (Bool-cases (int_eq u t)) [
  | inl same ↦ cc (rw same at e)
  | inr other ↦ rw other (dropped_all-absent h key t m (rw other at e))
]

dropped_all-Inv :
    (h : ℕ → MemCache) (next : ℕ) (key : Bytes) (m : Map ℤ (Map Bytes ℕ))
    → IsUnique m
    → Entries (OwnsAll h next) m
    → IsUnique (dropped_all h key m) × Entries (OwnsAll h next) (dropped_all h key m)
dropped_all-Inv h next key [] u o = (tt, tt)
dropped_all-Inv h next key ((t, mcs) ∷ m) (fresh, u) (own, o) =
    let rest = dropped_all-Inv h next key m u o in
    ((dropped_all-absent h key t m fresh, rest.0), (dropped-OwnsAll h next key t mcs own, rest.1))

pub dirty_key-Inv : (mi : Instance) (key : Bytes) → Inv mi → Inv (dirty_key mi key)
unfolding dirty_key
dirty_key-Inv mi key inv =
    let kept = dropped_all-Inv mi.heap mi.next key mi.mc_cache inv.unique inv.owned in
    record { unique = kept.0; owned = kept.1 }

-- Every call of the package, through the instance or through a pointer, keeps the invariant.
step-Inv : (mi : Instance) (c : Call) → Inv mi → Inv (step mi c)
unfolding step clear dirty_trans dirty_trans_tx
step-Inv mi (opens t k) inv = new_mc-Inv mi t k inv
step-Inv mi (sets a tx_id v) inv = set_at-Inv mi a tx_id v inv
step-Inv mi (dirties_at a tx_id) inv = dirty_at-Inv mi a tx_id inv
step-Inv mi (dirties k) inv = dirty_key-Inv mi k inv
step-Inv mi clears inv = record { unique = tt; owned = tt }
step-Inv mi (commits t) inv = commit_trans-Inv mi t inv
step-Inv mi (drops t) inv = without-Inv mi t mi.ll_cache inv
step-Inv mi (dirties_tx t tx_id) inv = dirty_each-Inv (caches mi t) tx_id mi inv

pub run-Inv : (mi : Instance) (cs : List Call) → Inv mi → Inv (run mi cs)
unfolding run
run-Inv mi [] inv = inv
run-Inv mi (c ∷ cs) inv = run-Inv (step mi c) cs (step-Inv mi c inv)

-- After any calls on a new instance, two places that hold one cache are the same place: the
-- transactions and the keys are equal.
pub places_apart :
    (cs : List Call) (t u : ℤ) (j k : Bytes) (a : ℕ)
    → lookup j (caches (run new_mc_instance cs) t) ≡ some a
    → lookup k (caches (run new_mc_instance cs) u) ≡ some a
    → (t ≡ u) × (j ≡ k)
places_apart cs t u j k a p q =
    let mi = run new_mc_instance cs in
    let inv = run-Inv new_mc_instance cs new_mc_instance-Inv in
    let left =
      Entries-lookup (Owns mi.heap mi.next t) j a (caches mi t) (caches-OwnsAll mi t inv).1 p in
    let right =
      Entries-lookup (Owns mi.heap mi.next u) k a (caches mi u) (caches-OwnsAll mi u inv).1 q in
    (sym left.0 ∙ right.0, sym left.1 ∙ right.1)
