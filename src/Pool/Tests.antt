-- ===== src/Pool/Tests.antt =====
-- The pool's theorems at concrete pools.
use bclib.Base.{
  ℕ, ◌≡◌, ◌≢◌, refl, none, some, [], ◌∷◌, ◌==◌, List, Option, arith, if◌then◌else◌, Bool-cases, inl,
  inr,
}
use bclib.Go.Result.{ok}
use bclib.Go.Int.{pos, ◌+ℤ◌}
use bclib.Pool.{Pool, get_client, incr_capacity, add_client, new_connection_pool, empty_pool}
use bclib.Pool.Capacity.{Inv, Reach, here, next, Reach-Inv}
use bclib.Pool.Capacity as Capacity
use bclib.Pool.Waiting.{Machine, await_none_lent, unlock, get_code, close_code, release_code, run}
use bclib.Pool.Waiting.Stuck.{Outside, ended, closes, gets, releases, IsStart, close_deadlock}
use bclib.Pool.Closing.{call_back, closed_pool, call_back-idle}

empty_pool-Inv : Inv empty_pool
empty_pool-Inv = record { counted = refl; within = omega arith; once = λ c. omega arith }

-- One client, number 7, which is lent.
abbrev lent_pool : Pool
lent_pool = record { busy = 7 ∷ []; idle = []; max_cap = pos 10; cur_cap = pos 1 }

abbrev lent_history : Pool
lent_history = (get_client empty_pool (some 7)).0

first_step : Reach empty_pool lent_history
first_step = next here (Capacity.gets (some 7) (omega arith))

-- A new pool lends a client that it made.
Reach-Inv_example : Inv lent_history
Reach-Inv_example = Reach-Inv first_step empty_pool-Inv

lent_pool-Inv : Inv lent_pool
lent_pool-Inv = record { counted = refl; within = omega arith; once = λ c. ground arith }

-- A goroutine that takes a client, one that closes the pool, and one that releases the client.
abbrev three : Machine
three = record {
  pool = empty_pool;
  holder = none;
  code = λ i. if i == 0 then get_code (some 7) else if i == 1 then close_code else release_code 7;
}

three-IsStart : IsStart three
three-IsStart = record { free = refl; methods = method }
  where
    method : (i : ℕ) → Outside (three.code i)
    method i = elim (Bool-cases (i == 0)) [
      | inl first ↦ rw first (gets (some 7) ended)
      | inr later ↦ elim (Bool-cases (i == 1)) [
        | inl second ↦ rw (later, second) (closes ended)
        | inr third ↦ rw (later, third) (releases 7 ended)
      ]
    ]

-- The client is taken, and Close has the mutex.
close_waits : (run (0 ∷ 0 ∷ 0 ∷ 1 ∷ []) three).code 1 ≡ await_none_lent ∷ unlock ∷ []
unfolding run
close_waits = refl

client_lent : (run (0 ∷ 0 ∷ 0 ∷ 1 ∷ []) three).pool.busy ≢ []
unfolding run get_client incr_capacity add_client
client_lent e = cc

-- ReleaseClient waits for ever.
close_deadlock_example :
    run (2 ∷ 1 ∷ 2 ∷ []) (run (0 ∷ 0 ∷ 0 ∷ 1 ∷ []) three) ≡ run (0 ∷ 0 ∷ 0 ∷ 1 ∷ []) three
close_deadlock_example =
    close_deadlock three 1 (unlock ∷ []) (0 ∷ 0 ∷ 0 ∷ 1 ∷ []) (2 ∷ 1 ∷ 2 ∷ []) three-IsStart
      close_waits client_lent

abbrev two_dials : List (Option ℕ)
two_dials = some 7 ∷ some 8 ∷ []

abbrev two_idle : Pool
two_idle = record { busy = []; idle = 7 ∷ 8 ∷ []; max_cap = pos 10; cur_cap = pos 2 }

two_filled : new_connection_pool (pos 2) two_dials ≡ (two_idle, ok tt)
unfolding new_connection_pool ◌+ℤ◌
two_filled = refl

two_idle-Inv : Inv two_idle
two_idle-Inv = record { counted = refl; within = omega arith; once = λ c. ground arith }

-- Client 8 calls back first.
call_back-idle_example : call_back (8 ∷ 7 ∷ []) two_idle ≡ closed_pool two_idle
call_back-idle_example = call_back-idle (8 ∷ 7 ∷ []) two_idle two_idle-Inv refl (λ d. ground arith)
