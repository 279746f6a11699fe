-- ===== src/Pool/Filling.antt =====
-- What NewConnectionPool returns.
use mathlib.Core.Path.{fst_path}
use bclib.Base.{
  ℕ, zero, suc, ◌+◌, ◌≡◌, refl, sym, ap, ◌∙◌, Option, none, some, List, [], ◌∷◌, length,
  length-append, arith,
}
use bclib.Go.Result.{Result, ok, err, panic}
use bclib.Go.Int.{ℤ, pos, ◌+ℤ◌, +ℤ_parts, eq_of_parts, pos-add}
use bclib.Pool.{
  Pool, incr_capacity, fill, head_dial, tail_dials, new_connection_pool, clamped, empty_pool,
}

record Grew (n : ℕ) (p q : Pool) : Type 0 where
  idle : length q.idle ≡ length p.idle + n
  busy : q.busy ≡ p.busy
  counted : q.cur_cap ≡ p.cur_cap +ℤ pos n

incr_capacity-Grew : (p q : Pool) (dial : Option ℕ) → incr_capacity p dial ≡ ok q → Grew 1 p q
unfolding incr_capacity
incr_capacity-Grew p q none e = absurd (ground arith)
incr_capacity-Grew p q (some c) e = record {
  idle = ground (arith, length-append p.idle (c ∷ []));
  busy = ground arith;
  counted = ground arith;
}

add_zero : (a : ℤ) → a ≡ a +ℤ pos 0
add_zero a = eq_of_parts a (a +ℤ pos 0) (omega (arith, +ℤ_parts a (pos 0)))

add_one_more : (a : ℤ) (n : ℕ) → a +ℤ pos 1 +ℤ pos n ≡ a +ℤ pos (suc n)
add_one_more a n =
    eq_of_parts _ _
      (omega (arith, +ℤ_parts a (pos 1), +ℤ_parts (a +ℤ pos 1) (pos n), +ℤ_parts a (pos (suc n))))

fill-Grew :
    (rounds : ℕ) (p q : Pool) (dials : List (Option ℕ))
    → fill rounds p dials ≡ (q, ok tt)
    → Grew rounds p q
unfolding fill
fill-Grew zero p q dials e =
    rw (sym (fst_path e)) (record { idle = omega arith; busy = refl; counted = add_zero p.cur_cap })
fill-Grew (suc rounds) p q dials e =
    grown (incr_capacity p (head_dial dials)) refl
      (λ p' e'. fill-Grew rounds p' q (tail_dials dials) e') e
  where
    grown :
        (r : Result Pool)
        → incr_capacity p (head_dial dials) ≡ r
        → ((p' : Pool) → fill rounds p' (tail_dials dials) ≡ (q, ok tt) → Grew rounds p' q)
        → (elim r [
          | ok p' ↦ fill rounds p' (tail_dials dials)
          | err m ↦ (p, err m)
          | panic m ↦ (p, panic m)
        ])
          ≡ (q, ok tt)
        → Grew (suc rounds) p q
    grown (ok p') step rest e' =
        let first = incr_capacity-Grew p p' (head_dial dials) step in
        let more = rest p' e' in
        record {
          idle = omega (arith, first.idle, more.idle);
          busy = more.busy ∙ first.busy;
          counted =
              more.counted
              ∙ ap (λ a. a +ℤ pos rounds) first.counted
              ∙ add_one_more p.cur_cap rounds;
        }
    grown (err m) step rest e' = cc
    grown (panic m) step rest e' = cc

-- A pool that is returned without an error has the wanted number of idle clients, cut to the range
-- from 0 to 10, none lent, and counts them all.
new_connection_pool_lem :
    (cur_cap : ℤ) (dials : List (Option ℕ)) (q : Pool)
    → new_connection_pool cur_cap dials ≡ (q, ok tt)
    → (length q.idle ≡ clamped cur_cap) × (q.busy ≡ []) × (q.cur_cap ≡ pos (clamped cur_cap))
unfolding new_connection_pool
new_connection_pool_lem cur_cap dials q e =
    let grew = fill-Grew (clamped cur_cap) empty_pool q dials e in
    (
      omega (arith, grew.idle),
      grew.busy,
      grew.counted ∙ pos-add 0 (clamped cur_cap) ∙ ap pos (omega arith),
    )
