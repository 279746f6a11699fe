-- ===== src/MemCache/Store/Commit.antt =====
-- What a commit publishes, and what stays apart until then.
use bclib.Base.{
  ℕ, ◌≡◌, refl, sym, ap, ◌∙◌, ◌≢◌, ◌⊎◌, ◌==◌, true, Option, none, some, [], ◌∷◌, arith,
  if◌then◌else◌, Bool-cases, Option-cases, inl, inr, bytes_eq, bytes_eq→eq,
}
use bclib.Go.Int.{ℤ}
use bclib.Go.Text.{Bytes}
use bclib.Map.{
  Map, lookup, insert, bytes_key, int_key, int_eq, int_eq→eq, IsUnique, Entries, Entries-lookup,
  Entries-mono, lookup-insert, lookup-remove,
}
use bclib.MemCache.{Value, MemCache, top, get, newmc}
use bclib.MemCache.Store.{Instance, caches, new_mc, get_at, set_at, stored, commit_trans}
use bclib.MemCache.Store.Owned.{Inv, Owns, OwnsAll, caches-OwnsAll}

-- The value of a cache that is there, or else the old one.
abbrev pub chosen : (ℕ → MemCache) → Option ℕ → Option Value → Option Value
chosen heap none old = old
chosen heap (some a) old = some (top (heap a))

abbrev IsKeyed : (ℕ → MemCache) → Bytes → ℕ → Type 0
IsKeyed heap k a = (heap a).key ≡ k

lookup-stored :
    (heap : ℕ → MemCache) (mcs : Map Bytes ℕ) (ll : Map Bytes Value) (j : Bytes)
    → IsUnique mcs
    → Entries (IsKeyed heap) mcs
    → lookup j (stored heap mcs ll) ≡ chosen heap (lookup j mcs) (lookup j ll)
unfolding stored top
lookup-stored heap [] ll j u h = unfold lookup in refl
lookup-stored heap ((k, a) ∷ mcs) ll j (fresh, u) (own, h) = rw own (
    lookup-stored heap mcs (insert k (top (heap a)) ll) j u h
    ∙ ap (chosen heap (lookup j mcs)) (lookup-insert k j (top (heap a)) ll)
    ∙ split)
  where
    split :
        chosen heap (lookup j mcs) (if bytes_eq k j then some (top (heap a)) else lookup j ll)
        ≡ chosen heap (lookup j ((k, a) ∷ mcs)) (lookup j ll)
    split = elim (Bool-cases (bytes_eq k j)) [
      | inl e ↦
          let fresh' : lookup j mcs ≡ none = rw (bytes_eq→eq k j e) at fresh in
          unfold lookup in rw (e, fresh')
      | inr e ↦ unfold lookup in rw e
    ]

keyed :
    (mi : Instance) (t : ℤ) (mcs : Map Bytes ℕ)
    → OwnsAll mi.heap mi.next t mcs
    → Entries (IsKeyed mi.heap) mcs
keyed mi t mcs own = Entries-mono (λ k a o. o.1) mcs own.1

-- A commit gives the first level the newest value of each key that the transaction has opened,
-- leaves the other keys of the first level, and forgets this transaction and no other.
pub commit_trans_lem :
    (mi : Instance) (t u : ℤ) (j : Bytes)
    → Inv mi
    → (lookup j (commit_trans mi t).ll_cache
        ≡ chosen mi.heap (lookup j (caches mi t)) (lookup j mi.ll_cache))
      × (lookup u (commit_trans mi t).mc_cache
          ≡ (if int_eq t u then none else lookup u mi.mc_cache))
unfolding commit_trans lookup
commit_trans_lem mi t u j inv = elim (Option-cases (lookup t mi.mc_cache)) [
  | inl e ↦ rw (e, commit_trans) (refl, forgotten e)
  | inr (mcs, e) ↦
      let own = Entries-lookup (OwnsAll mi.heap mi.next) t mcs mi.mc_cache inv.owned e in
      rw (e, commit_trans)
        (
          lookup-stored mi.heap mcs mi.ll_cache j own.0 (keyed mi t mcs own),
          lookup-remove t u mi.mc_cache,
        )
]
  where
    forgotten :
        lookup t mi.mc_cache ≡ none
        → lookup u mi.mc_cache ≡ (if int_eq t u then none else lookup u mi.mc_cache)
    forgotten e = elim (Bool-cases (int_eq t u)) [
      | inl same ↦ rw same (rw (int_eq→eq t u same) at e)
      | inr other ↦ rw other
    ]

-- A transaction that opens a key after the commit reads what the committed one read last.
pub get_at-commit_trans :
    (mi : Instance) (t u : ℤ) (j : Bytes) (a : ℕ)
    → Inv mi
    → lookup j (caches mi t) ≡ some a
    → lookup j (caches (commit_trans mi t) u) ≡ none
    → let (mi', b) = new_mc (commit_trans mi t) u j in get_at mi' b ≡ get_at mi a
unfolding new_mc get_at get newmc top
get_at-commit_trans mi t u j a inv e absent =
    let published = (commit_trans_lem mi t u j inv).0 in
    let own : ((commit_trans mi t).next == (commit_trans mi t).next) ≡ true = ground arith in
    rw (absent, own, published, e)

-- A write in one place is not read in another: not under another key, nor in another
-- transaction.
pub get_at-set_at :
    (mi : Instance) (t u tx_id : ℤ) (j k : Bytes) (a b : ℕ) (v : Value)
    → Inv mi
    → lookup j (caches mi t) ≡ some a
    → lookup k (caches mi u) ≡ some b
    → (t ≢ u) ⊎ (j ≢ k)
    → (get_at (set_at mi a tx_id v) b ≡ get_at mi b)
      × ((set_at mi a tx_id v).ll_cache ≡ mi.ll_cache)
unfolding get_at set_at
get_at-set_at mi t u tx_id j k a b v inv p q apart = elim (Bool-cases (b == a)) [
  | inl same ↦ absurd (shared (ground arith) apart)
  | inr other ↦ rw other (refl, refl)
]
  where
    left : Owns mi.heap mi.next t j a
    left = Entries-lookup (Owns mi.heap mi.next t) j a (caches mi t) (caches-OwnsAll mi t inv).1 p

    right : Owns mi.heap mi.next u k b
    right = Entries-lookup (Owns mi.heap mi.next u) k b (caches mi u) (caches-OwnsAll mi u inv).1 q

    shared : b ≡ a → (t ≢ u) ⊎ (j ≢ k) → ⊥
    shared e (inl h) = h (sym left.0 ∙ ap (λ c. (mi.heap c).trans_id) (sym e) ∙ right.0)
    shared e (inr h) = h (sym left.1 ∙ ap (λ c. (mi.heap c).key) (sym e) ∙ right.1)
