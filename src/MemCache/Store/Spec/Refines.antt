-- ===== src/MemCache/Store/Spec/Refines.antt =====
-- The instance against its abstract state.
use mathlib.Core.Path.{fun_ext}
use bclib.Base.{
  ℕ, ◌≡◌, refl, sym, ap, ◌∙◌, false, ◌&&◌, Option, none, some, List, [], ◌∷◌, bytes_eq, bytes_eq→eq,
  bytes_eq_refl, Bool-cases, inl, inr,
}
use bclib.Go.Int.{ℤ}
use bclib.Go.Text.{Bytes}
use bclib.Map.{lookup, bytes_key, int_key, int_eq, int_eq→eq, int_eq_refl, lookup-remove}
use bclib.MemCache.{Value, MemCache, top, get, set}
use bclib.MemCache.Undo.{get-set}
use bclib.MemCache.Store.{
  Instance, caches, update, new_mc, get_at, set_at, dirty_key, clear, commit_trans, dirty_trans,
  new_mc_instance,
}
use bclib.MemCache.Store.Owned.{
  Inv, new_mc-Inv, set_at-Inv, dirty_key-Inv, commit_trans-Inv, without-Inv, new_mc_instance-Inv,
}
use bclib.MemCache.Store.Commit.{commit_trans_lem}
use bclib.MemCache.Store.Spec.{
  View, view, top_at, Request, reads, writes, commits, drops, dirties, clears, perform, answers,
  seen, at_place, serve, served,
}
use bclib.MemCache.Store.Spec.Calls.{
  opened, opened-forgotten, heap-commit_trans, committed-commit_trans, opened-dirty_key,
}
use bclib.MemCache.Store.Spec.Opens.{owner, top_at-update, own_next, new_mc-Opens}

-- A Set through the pointer of a place changes what is read in that place alone.
opened-set_at :
    (mi : Instance) (t u : ℤ) (k j : Bytes) (a : ℕ) (tx_id : ℤ) (v : Value)
    → Inv mi
    → lookup k (caches mi t) ≡ some a
    → opened (set_at mi a tx_id v) u j ≡ at_place t k (some v) (opened mi) u j
unfolding set_at
opened-set_at mi t u k j a tx_id v inv e = elim (Bool-cases (int_eq t u)) [
  | inl p ↦ elim (Bool-cases (bytes_eq k j)) [
    | inl q ↦
        rw (p, q)
          (ap (top_at (update mi.heap a (set tx_id v (mi.heap a)))) (
              ap (λ x. lookup j (caches mi x)) (sym (int_eq→eq t u p))
              ∙ ap (λ x. lookup x (caches mi t)) (sym (bytes_eq→eq k j q))
              ∙ e)
            ∙ rw (own_next a) (ap some (written tx_id v (mi.heap a))))
    | inr q ↦
        rw (p, q)
          (top_at-update mi.heap a _ (lookup j (caches mi u))
            (λ b f same. apart b f same (λ tt' kk. differs q kk)))
  ]
  | inr p ↦ rw p (
      top_at-update mi.heap a _ (lookup j (caches mi u))
        (λ b f same. apart b f same (λ tt' kk. differs_int p tt')))
]
  where
    written : (tx_id : ℤ) (v : Value) (mc : MemCache) → top (set tx_id v mc) ≡ v
    written tx_id' v' mc = unfold get in get-set tx_id' v' mc

    differs : bytes_eq k j ≡ false → k ≡ j → ⊥
    differs q e' = cc (rw e' at q, bytes_eq_refl j)

    differs_int : int_eq t u ≡ false → t ≡ u → ⊥
    differs_int q e' = cc (rw e' at q, int_eq_refl u)

    apart : (b : ℕ) → lookup j (caches mi u) ≡ some b → b ≡ a → (t ≡ u → k ≡ j → ⊥) → ⊥
    apart b f same h =
        let left = owner mi t k a inv e in
        let right = owner mi u j b inv f in
        h (sym left.0 ∙ ap (λ c. (mi.heap c).trans_id) (sym same) ∙ right.0)
          (sym left.1 ∙ ap (λ c. (mi.heap c).key) (sym same) ∙ right.1)

View-ext :
    (s s' : View)
    → ((k : Bytes) → s.committed k ≡ s'.committed k)
    → ((t : ℤ) (k : Bytes) → s.opened t k ≡ s'.opened t k)
    → s ≡ s'
View-ext s s' p q = λ i. record { committed = fun_ext p i; opened = fun_ext (λ t. fun_ext (q t)) i }

-- A second value in a place hides the first.
at_place_twice :
    (t : ℤ) (k : Bytes) (v w : Option Value) (f g : ℤ → Bytes → Option Value) (u : ℤ) (j : Bytes)
    → f u j ≡ at_place t k w g u j
    → at_place t k v f u j ≡ at_place t k v g u j
at_place_twice t k v w f g u j e = elim (Bool-cases (int_eq t u && bytes_eq k j)) [
  | inl here ↦ rw here refl
  | inr other ↦ rw other (e ∙ rw other refl)
]

-- What one request does: the invariant stays, the abstract state follows, and the answer is its.
pub record Agrees (mi : Instance) (r : Request) : Type 0 where
  pub inv : Inv (perform mi r).0
  pub next : view (perform mi r).0 ≡ (serve (view mi) r).0
  pub answer : (perform mi r).1 ≡ (serve (view mi) r).1

perform-Agrees : (mi : Instance) (r : Request) → Inv mi → Agrees mi r
unfolding perform serve view
perform-Agrees mi (reads t k) inv =
    let o = new_mc-Opens mi t k inv in
    record {
      inv = new_mc-Inv mi t k inv;
      next = View-ext _ _ (λ j. ap (lookup j) o.committed) (λ u j. o.same u j);
      answer = unfold get_at get in o.value;
    }
perform-Agrees mi (writes t tx_id k v) inv =
    let o = new_mc-Opens mi t k inv in
    let (mi', a) = new_mc mi t k in
    record {
      inv = set_at-Inv mi' a tx_id v (new_mc-Inv mi t k inv);
      next =
          View-ext _ _ (λ j. unfold set_at in ap (lookup j) o.committed)
            (λ u j.
              opened-set_at mi' t u k j a tx_id v (new_mc-Inv mi t k inv) o.there
              ∙ at_place_twice t k (some v) (some (seen (view mi) t k)) (opened mi') (opened mi) u j
                  (o.same u j));
      answer = refl;
    }
perform-Agrees mi (commits t) inv = record {
  inv = commit_trans-Inv mi t inv;
  next =
      View-ext _ _ (λ k. committed-commit_trans mi t k inv)
        (λ u k.
          opened-forgotten mi (commit_trans mi t) t u k (heap-commit_trans mi t)
            (commit_trans_lem mi t u k inv).1);
  answer = refl;
}
perform-Agrees mi (drops t) inv = record {
  inv = unfold dirty_trans in without-Inv mi t mi.ll_cache inv;
  next =
      unfold dirty_trans in
      View-ext _ _ (λ k. refl)
        (λ u k. opened-forgotten mi (dirty_trans mi t) t u k refl (lookup-remove t u mi.mc_cache));
  answer = refl;
}
perform-Agrees mi (dirties k) inv = record {
  inv = dirty_key-Inv mi k inv;
  next =
      View-ext _ _ (λ j. unfold dirty_key in lookup-remove k j mi.ll_cache)
        (λ t j. opened-dirty_key mi k t j inv);
  answer = refl;
}
perform-Agrees mi clears inv = record {
  inv = unfold clear in record { unique = tt; owned = tt };
  next = unfold clear lookup in refl;
  answer = refl;
}

answers-served : (mi : Instance) (rs : List Request) → Inv mi → answers mi rs ≡ served (view mi) rs
unfolding answers served
answers-served mi [] inv = refl
answers-served mi (r ∷ rs) inv =
    let a = perform-Agrees mi r inv in
    λ i. a.answer i ∷ (answers-served (perform mi r).0 rs a.inv ∙ ap (λ s. served s rs) a.next) i

-- Nothing is committed, and no transaction has opened a key.
abbrev pub nothing : View
nothing = record { committed = λ k. none; opened = λ t k. none }

-- The instance implements its abstract state: to any requests a new instance answers what the state
-- of committed and opened values answers, with no heap, no pointers and no stack of values.
pub answers_refine : (rs : List Request) → answers new_mc_instance rs ≡ served nothing rs
unfolding new_mc_instance view
answers_refine rs =
    answers-served new_mc_instance rs new_mc_instance-Inv
    ∙ ap (λ s. served s rs) (unfold lookup in View-ext _ _ (λ k. refl) (λ t k. refl))
