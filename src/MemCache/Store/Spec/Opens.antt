-- ===== src/MemCache/Store/Spec/Opens.antt =====
-- The cache that NewMc opens for a place (mc/memcache.go), read through the abstract state.
use bclib.Base.{
  ℕ, suc, ◌≡◌, refl, sym, ap, ◌∙◌, ◌≢◌, Bool, true, false, ◌&&◌, ◌==◌, Option, none, some, arith,
  bytes_eq, bytes_eq→eq, bytes_eq_refl, if◌then◌else◌, Bool-cases, Option-cases, inl, inr,
}
use bclib.Go.Int.{ℤ}
use bclib.Go.Text.{Bytes}
use bclib.Map.{
  Map, lookup, insert, bytes_key, int_key, int_eq, int_eq→eq, int_eq_refl, Entries-lookup,
  lookup-insert,
}
use bclib.MemCache.{Value, MemCache, top, get, newmc, set, push}
use bclib.MemCache.Store.{
  Instance, caches, update, new_mc, allocate, get_at, set_at, dirty_key, clear, commit_trans,
  dirty_trans, dropped, dropped_all, carries, new_mc_instance,
}
use bclib.MemCache.Store.Owned.{Inv, Owns, caches-OwnsAll}
use bclib.MemCache.Store.Spec.{view, top_at, or_nil, seen, at_place}
use bclib.MemCache.Store.Spec.Calls.{opened}

-- A cache that the maps hold is its place's own, and was allocated.
pub owner :
    (mi : Instance) (t : ℤ) (k : Bytes) (a : ℕ)
    → Inv mi
    → lookup k (caches mi t) ≡ some a
    → Owns mi.heap mi.next t k a
owner mi t k a inv e =
    Entries-lookup (Owns mi.heap mi.next t) k a (caches mi t) (caches-OwnsAll mi t inv).1 e

-- What NewMc allocates reads as the committed value.
top-newmc : (t : ℤ) (k : Bytes) (o : Option Value) → top (newmc t k o) ≡ or_nil o
unfolding top newmc
top-newmc t k none = refl
top-newmc t k (some v) = refl

caches-insert :
    (mi : Instance) (t u : ℤ) (mcs : Map Bytes ℕ) (heap : ℕ → MemCache) (next : ℕ)
    → caches (record mi { mc_cache = insert t mcs mi.mc_cache; heap = heap; next = next }) u
      ≡ (if int_eq t u then mcs else caches mi u)
caches-insert mi t u mcs heap next = rw (lookup-insert t u mcs mi.mc_cache) (split (int_eq t u))
  where
    split :
        (b : Bool)
        → bclib.MemCache.Store.or_empty (if b then some mcs else lookup u mi.mc_cache)
          ≡ (if b then mcs else bclib.MemCache.Store.or_empty (lookup u mi.mc_cache))
    split true = refl
    split false = refl

-- A heap that is changed at one address reads as before at the others.
pub top_at-update :
    (heap : ℕ → MemCache) (a : ℕ) (mc : MemCache) (o : Option ℕ)
    → ((b : ℕ) → o ≡ some b → b ≢ a)
    → top_at (update heap a mc) o ≡ top_at heap o
top_at-update heap a mc none h = refl
top_at-update heap a mc (some b) h = elim (Bool-cases (b == a)) [
  | inl e ↦ absurd (h b refl (ground arith))
  | inr e ↦ rw e refl
]

-- The pointer that NewMc returns is the place's, and the place reads as it did.
pub record Opens (mi : Instance) (t : ℤ) (k : Bytes) (r : Instance × ℕ) : Type 0 where
  pub there : lookup k (caches r.0 t) ≡ some r.1
  pub value : top (r.0.heap r.1) ≡ seen (view mi) t k
  pub same :
      (u : ℤ) (j : Bytes)
      → opened r.0 u j ≡ at_place t k (some (seen (view mi) t k)) (opened mi) u j
  pub committed : r.0.ll_cache ≡ mi.ll_cache

place_refl : (t : ℤ) (k : Bytes) → (int_eq t t && bytes_eq k k) ≡ true
place_refl t k = rw (int_eq_refl t, bytes_eq_refl k) refl

seen_known :
    (mi : Instance) (t : ℤ) (k : Bytes) (a : ℕ)
    → lookup k (caches mi t) ≡ some a
    → seen (view mi) t k ≡ top (mi.heap a)
unfolding view
seen_known mi t k a e = rw e refl

seen_new :
    (mi : Instance) (t : ℤ) (k : Bytes)
    → lookup k (caches mi t) ≡ none
    → seen (view mi) t k ≡ or_nil (lookup k mi.ll_cache)
unfolding view
seen_new mi t k e = rw e refl

-- To put what is there changes nothing.
at_place_same :
    (f : ℤ → Bytes → Option Value) (t u : ℤ) (k j : Bytes) (v : Option Value)
    → f t k ≡ v
    → f u j ≡ at_place t k v f u j
at_place_same f t u k j v e = elim (Bool-cases (int_eq t u)) [
  | inl p ↦ elim (Bool-cases (bytes_eq k j)) [
    | inl q ↦
        rw (p, q) (ap (λ x. f x j) (sym (int_eq→eq t u p)) ∙ ap (f t) (sym (bytes_eq→eq k j q)) ∙ e)
    | inr q ↦ rw (p, q) refl
  ]
  | inr p ↦ rw p refl
]

not_next :
    (mi : Instance) (u : ℤ) (j : Bytes)
    → Inv mi
    → (b : ℕ) → lookup j (caches mi u) ≡ some b
    → b ≢ mi.next
not_next mi u j inv b e same = omega (arith, (owner mi u j b inv e).2)

pub own_next : (n : ℕ) → (n == n) ≡ true
own_next n = ground arith

opened-allocate :
    (mi : Instance) (t u : ℤ) (k j : Bytes)
    → Inv mi
    → lookup k (caches mi t) ≡ none
    → opened (allocate mi t k) u j ≡ at_place t k (some (seen (view mi) t k)) (opened mi) u j
opened-allocate mi t u k j inv e =
    ap (λ m. top_at (allocate mi t k).heap (lookup j m))
      (caches-insert mi t u _ (allocate mi t k).heap (suc mi.next))
    ∙ elim (Bool-cases (int_eq t u)) [
      | inl p ↦ elim (Bool-cases (bytes_eq k j)) [
        | inl q ↦
            rw
              (
                p,
                lookup-insert k j mi.next (caches mi t),
                q,
                own_next mi.next,
                top-newmc t k (lookup k mi.ll_cache),
              )
              (ap some (sym (seen_new mi t k e)))
        | inr q ↦
            rw (p, lookup-insert k j mi.next (caches mi t), q)
              (top_at-update mi.heap mi.next _ (lookup j (caches mi t)) (not_next mi t j inv)
                ∙ ap (λ x. opened mi x j) (int_eq→eq t u p))
      ]
      | inr p ↦
          rw p (top_at-update mi.heap mi.next _ (lookup j (caches mi u)) (not_next mi u j inv))
    ]

allocated :
    (mi : Instance) (t : ℤ) (k : Bytes) → lookup k (caches (allocate mi t k) t) ≡ some mi.next
allocated mi t k =
    ap (lookup k) (caches-insert mi t t _ (allocate mi t k).heap (suc mi.next))
    ∙ rw (int_eq_refl t, lookup-insert k k mi.next (caches mi t), bytes_eq_refl k) refl

pub new_mc-Opens : (mi : Instance) (t : ℤ) (k : Bytes) → Inv mi → Opens mi t k (new_mc mi t k)
unfolding new_mc
new_mc-Opens mi t k inv = elim (Option-cases (lookup k (caches mi t))) [
  | inr (a, e) ↦ rw e (record {
    there = e;
    value = sym (seen_known mi t k a e);
    same =
        λ u j. at_place_same (opened mi) t u k j _ (rw e (ap some (sym (seen_known mi t k a e))));
    committed = refl;
  })
  | inl e ↦ rw e (record {
    there = allocated mi t k;
    value = rw (own_next mi.next) (top-newmc t k (lookup k mi.ll_cache) ∙ sym (seen_new mi t k e));
    same = λ u j. opened-allocate mi t u k j inv e;
    committed = refl;
  })
]
