-- ===== src/Pool.antt =====
-- socket/connectionpool.go: the pool of client connections. A client is the number of its pointer;
-- whether a connection can be made is the environment's choice: `dial` is the client that NewClient
-- made, none where it returned an error. Each method runs under the pool's mutex.
pub mod Capacity
pub mod Waiting
pub mod Filling
pub mod Closing
mod Tests
use bclib.Base.{
  ℕ, zero, suc, ◌+◌, ◌-◌, ◌≡◌, Bool, true, false, ◌||◌, Option, none, some, List, [], ◌∷◌, ◌++◌,
  ◌==◌, leb, ltb, length, if◌then◌else◌,
}
use bclib.Go.Result.{Result, ok, err, panic, nil_pointer}
use bclib.Go.Int.{ℤ, pos, negsuc, ◌+ℤ◌, ◌-ℤ◌, pos_part, neg_part}

pub record Pool : Type 0 where
  pub busy : List ℕ
  pub idle : List ℕ
  pub max_cap : ℤ
  pub cur_cap : ℤ

abbrev pub member : ℕ → List ℕ → Bool
member c [] = false
member c (d ∷ ds) = d == c || member c ds

-- The keys of `busyConnS`: a set.
abbrev pub add_busy : ℕ → List ℕ → List ℕ
add_busy c ds = if member c ds then ds else c ∷ ds

abbrev pub delete : ℕ → List ℕ → List ℕ
delete c [] = []
delete c (d ∷ ds) = let rest = delete c ds in if d == c then rest else d ∷ rest

-- The loop that removes the first element equal to the client from the list.
abbrev pub remove_first : ℕ → List ℕ → List ℕ
remove_first c [] = []
remove_first c (d ∷ ds) = let rest = remove_first c ds in if d == c then ds else d ∷ rest

abbrev leb_ℤ : ℤ → ℤ → Bool
leb_ℤ a b = leb (pos_part a + neg_part b) (pos_part b + neg_part a)

unfoldable pub add_client : Pool → Option ℕ → Result Pool
add_client p none = err "new client err"
add_client p (some c) = ok (record p { idle = p.idle ++ c ∷ []; cur_cap = p.cur_cap +ℤ pos 1 })

unfoldable pub incr_capacity : Pool → Option ℕ → Result Pool
unfolding add_client
incr_capacity p dial =
    if leb_ℤ p.max_cap p.cur_cap then err "no more connection" else add_client p dial

-- The front of the idle list becomes busy. Past the test above the list has a front; Front() of an
-- empty one would be a nil pointer.
abbrev pub take_front : Pool → List ℕ → Pool × Result ℕ
take_front p [] = (p, panic nil_pointer)
take_front p (c ∷ rest) = (record p { idle = rest; busy = add_busy c p.busy }, ok c)

abbrev pub take_grown : Pool → Result Pool → Pool × Result ℕ
take_grown p (ok q) = take_front q q.idle
take_grown p (err e) = (p, err e)
take_grown p (panic e) = (p, panic e)

unfoldable pub get_client : Pool → Option ℕ → Pool × Result ℕ
unfolding incr_capacity
get_client p dial =
    if length p.idle == 0 then take_grown p (incr_capacity p dial) else take_front p p.idle

unfoldable pub release_client : Pool → ℕ → Pool
release_client p c = record p { idle = p.idle ++ c ∷ []; busy = delete c p.busy }

unfoldable pub close_cb : Pool → ℕ → Pool
close_cb p c = record p {
  busy = delete c p.busy;
  idle = remove_first c p.idle;
  cur_cap = p.cur_cap -ℤ pos 1;
}

-- `if curCap < 0 { curCap = 0 }; if curCap > 10 { curCap = 10 }`
abbrev pub clamped : ℤ → ℕ
clamped (pos n) = if ltb 10 n then 10 else n
clamped (negsuc n) = 0

abbrev pub empty_pool : Pool
empty_pool = record { busy = []; idle = []; max_cap = pos 10; cur_cap = pos 0 }

-- `for pool.idleConnS.Len() < curCap`: every round that goes on adds one idle client, so the rounds
-- left are counted. A dial that the list does not have fails. An error leaves what was filled.
abbrev head_dial : List (Option ℕ) → Option ℕ
head_dial [] = none
head_dial (d ∷ ds) = d

abbrev tail_dials : List (Option ℕ) → List (Option ℕ)
tail_dials [] = []
tail_dials (d ∷ ds) = ds

unfoldable pub fill : ℕ → Pool → List (Option ℕ) → Pool × Result (Unit {0})
fill zero p dials = (p, ok tt)
fill (suc rounds) p dials = elim (incr_capacity p (head_dial dials)) [
  | ok q ↦ fill rounds q (tail_dials dials)
  | err e ↦ (p, err e)
  | panic e ↦ (p, panic e)
]

unfoldable pub new_connection_pool : ℤ → List (Option ℕ) → Pool × Result (Unit {0})
unfolding fill incr_capacity
new_connection_pool cur_cap dials = fill (clamped cur_cap) empty_pool dials
