-- ===== src/MemCache/Store/Spec/Calls.antt =====
-- What the calls of the instance do to what is read.
use bclib.Base.{
  ◌≡◌, refl, sym, ap, ◌∙◌, ℕ, Bool, true, false, Option, none, some, [], ◌∷◌, bytes_eq, bytes_eq→eq,
  if◌then◌else◌, Bool-cases, Option-cases, inl, inr,
}
use bclib.Go.Int.{ℤ}
use bclib.Go.Text.{Bytes}
use bclib.Map.{Map, lookup, bytes_key, int_key, int_eq, Entries, lookup-remove}
use bclib.MemCache.{Value, MemCache}
use bclib.MemCache.Store.{
  Instance, caches, or_empty, dirty_key, commit_trans, dropped, dropped_all, carries,
}
use bclib.MemCache.Store.Owned.{Inv, Owns, caches-OwnsAll}
use bclib.MemCache.Store.Commit.{commit_trans_lem, chosen}
use bclib.MemCache.Store.Spec.{top_at, published}

abbrev pub opened : Instance → ℤ → Bytes → Option Value
opened mi t k = top_at mi.heap (lookup k (caches mi t))

-- A transaction that the maps forget has opened nothing.
pub opened-forgotten :
    (mi mi' : Instance) (t u : ℤ) (k : Bytes)
    → mi'.heap ≡ mi.heap
    → lookup u mi'.mc_cache ≡ (if int_eq t u then none else lookup u mi.mc_cache)
    → opened mi' u k ≡ (if int_eq t u then none else opened mi u k)
opened-forgotten mi mi' t u k same e =
    ap (λ h. top_at h (lookup k (caches mi' u))) same
    ∙ ap (λ o. top_at mi.heap (lookup k (or_empty o))) e
    ∙ split (int_eq t u)
  where
    split :
        (b : Bool)
        → top_at mi.heap (lookup k (or_empty (if b then none else lookup u mi.mc_cache)))
          ≡ (if b then none else opened mi u k)
    split true = unfold lookup in refl
    split false = refl

pub heap-commit_trans : (mi : Instance) (t : ℤ) → (commit_trans mi t).heap ≡ mi.heap
unfolding commit_trans
heap-commit_trans mi t = elim (Option-cases (lookup t mi.mc_cache)) [
  | inl e ↦ rw (e, commit_trans) refl
  | inr (mcs, e) ↦ rw (e, commit_trans) refl
]

pub committed-commit_trans :
    (mi : Instance) (t : ℤ) (k : Bytes)
    → Inv mi
    → lookup k (commit_trans mi t).ll_cache ≡ published (opened mi t k) (lookup k mi.ll_cache)
committed-commit_trans mi t k inv =
    (commit_trans_lem mi t t k inv).0 ∙ same (lookup k (caches mi t))
  where
    same :
        (o : Option ℕ)
        → chosen mi.heap o (lookup k mi.ll_cache)
          ≡ published (top_at mi.heap o) (lookup k mi.ll_cache)
    same none = refl
    same (some a) = refl

carries-absent :
    (heap : ℕ → MemCache) (next : ℕ) (t : ℤ) (key : Bytes) (mcs : Map Bytes ℕ)
    → Entries (Owns heap next t) mcs
    → carries heap key mcs ≡ false
    → lookup key mcs ≡ none
unfolding lookup
carries-absent heap next t key [] h e = refl
carries-absent heap next t key ((k, a) ∷ mcs) h e = elim (Bool-cases (bytes_eq k key)) [
  | inl hit ↦ cc (rw (h.0.1, hit) at e)
  | inr miss ↦ rw miss (carries-absent heap next t key mcs h.1 (rw (h.0.1, miss) at e))
]

lookup-dropped :
    (heap : ℕ → MemCache) (next : ℕ) (t : ℤ) (key j : Bytes) (mcs : Map Bytes ℕ)
    → Entries (Owns heap next t) mcs
    → lookup j (dropped heap key mcs) ≡ (if bytes_eq key j then none else lookup j mcs)
lookup-dropped heap next t key j mcs h = elim (Bool-cases (carries heap key mcs)) [
  | inl e ↦ rw e (lookup-remove key j mcs)
  | inr e ↦ rw e (elim (Bool-cases (bytes_eq key j)) [
    | inl same ↦ rw same (
        ap (λ x. lookup x mcs) (sym (bytes_eq→eq key j same))
        ∙ carries-absent heap next t key mcs h e)
    | inr other ↦ rw other refl
  ])
]

caches-dropped_all :
    (heap : ℕ → MemCache) (key : Bytes) (t : ℤ) (m : Map ℤ (Map Bytes ℕ))
    → or_empty (lookup t (dropped_all heap key m)) ≡ dropped heap key (or_empty (lookup t m))
unfolding lookup
caches-dropped_all heap key t [] = refl
caches-dropped_all heap key t ((u, mcs) ∷ m) = elim (Bool-cases (int_eq u t)) [
  | inl e ↦ rw e refl
  | inr e ↦ rw e (caches-dropped_all heap key t m)
]

pub opened-dirty_key :
    (mi : Instance) (key : Bytes) (t : ℤ) (j : Bytes)
    → Inv mi
    → opened (dirty_key mi key) t j ≡ (if bytes_eq key j then none else opened mi t j)
unfolding dirty_key
opened-dirty_key mi key t j inv =
    ap (λ m. top_at mi.heap (lookup j m)) (caches-dropped_all mi.heap key t mi.mc_cache)
    ∙ ap (top_at mi.heap)
        (lookup-dropped mi.heap mi.next t key j (caches mi t) (caches-OwnsAll mi t inv).1)
    ∙ split (bytes_eq key j)
  where
    split :
        (b : Bool)
        → top_at mi.heap (if b then none else lookup j (caches mi t))
          ≡ (if b then none else opened mi t j)
    split true = refl
    split false = refl
