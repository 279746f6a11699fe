-- ===== src/Pool/Closing.antt =====
-- The end of Close of socket/connectionpool.go, when no client is lent: it closes the idle clients, and
-- the goroutine of each closed client calls closeCB once the mutex is free.
use bclib.Base.{ℕ, ◌+◌, ◌≡◌, sym, ap, ◌∙◌, ==_refl, ==_iff, List, [], ◌∷◌, length, arith}
use bclib.Go.Int.{pos, ◌-ℤ◌}
use bclib.Pool.{Pool, delete, remove_first, close_cb}
use bclib.Pool.Capacity.{Inv, count, count-remove_first, length-remove_first, none_counted}

-- The calls of closeCB, in the order of the goroutines.
unfoldable pub call_back : List ℕ → Pool → Pool
unfolding close_cb
call_back [] p = p
call_back (c ∷ cs) p = call_back cs (close_cb p c)

abbrev pub closed_pool : Pool → Pool
closed_pool p = record p { idle = []; busy = []; cur_cap = pos 0 }

one_less : (n k : ℕ) → n + 1 ≡ k → pos k -ℤ pos 1 ≡ pos n
unfolding ◌-ℤ◌
one_less n k h = ground arith

emptied :
    (cs : List ℕ) (p : Pool)
    → ((d : ℕ) → count d cs ≡ count d p.idle)
    → p.busy ≡ []
    → p.cur_cap ≡ pos (length p.idle)
    → call_back cs p ≡ closed_pool p
unfolding call_back close_cb
emptied [] p same b c =
    let i : p.idle ≡ [] = none_counted p.idle (λ d. sym (same d)) in
    λ j. record {
      busy = b j;
      idle = i j;
      max_cap = p.max_cap;
      cur_cap = (c ∙ ap (λ l. pos (length l)) i) j;
    }
emptied (x ∷ cs) p same b c =
    emptied cs (close_cb p x)
      (λ d. ground (arith, same d, count-remove_first d x p.idle, ==_iff x d)) (ap (delete x) b)
      (ap (λ t. t -ℤ pos 1) c
        ∙ one_less (length (remove_first x p.idle)) (length p.idle)
            (ground (arith, same x, length-remove_first x p.idle, ==_refl x)))

-- Close in a pool that lends no client leaves it empty and with the count 0, when each idle client that
-- it closed has called closeCB, in any order.
pub call_back-idle :
    (cs : List ℕ) (p : Pool)
    → Inv p
    → p.busy ≡ []
    → ((d : ℕ) → count d cs ≡ count d p.idle)
    → call_back cs p ≡ closed_pool p
call_back-idle cs p inv none_lent same =
    emptied cs p same none_lent
      (inv.counted ∙ ap pos (omega (arith, ap (length {A = ℕ}) none_lent)))
