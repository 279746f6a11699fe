-- ===== src/Pool/Waiting.antt =====
-- socket/connectionpool.go: the methods as goroutines run them, one instruction after the other, with
-- the mutex of the pool. A goroutine whose instruction cannot go on does nothing.
pub mod Stuck
use bclib.Base.{ℕ, ◌≡◌, Bool, true, false, Option, none, some, List, [], ◌∷◌, ◌==◌, if◌then◌else◌}
use bclib.Pool.{Pool, get_client, release_client, close_cb}

pub data Instr : Type 0 where
  lock : Instr
  -- the loop of Close, which goes on once no client is lent
  await_none_lent : Instr
  update : (Pool → Pool) → Instr
  unlock : Instr

-- The methods. The connections that Close closes stay in the idle list.
abbrev pub close_code : List Instr
close_code = lock ∷ await_none_lent ∷ unlock ∷ []

abbrev pub get_code : Option ℕ → List Instr
get_code dial = lock ∷ update (λ p. (get_client p dial).0) ∷ unlock ∷ []

abbrev pub release_code : ℕ → List Instr
release_code c = lock ∷ update (λ p. release_client p c) ∷ unlock ∷ []

abbrev pub close_cb_code : ℕ → List Instr
close_cb_code c = lock ∷ update (λ p. close_cb p c) ∷ unlock ∷ []

-- The pool, the goroutine that has the mutex, and what each goroutine has still to run.
pub record Machine : Type 0 where
  pub pool : Pool
  pub holder : Option ℕ
  pub code : ℕ → List Instr

abbrev pub goes_on : ℕ → List Instr → Machine → Machine
goes_on i rest m = record m { code = λ j. if j == i then rest else m.code j }

abbrev pub if_free : Option ℕ → Machine → Machine → Machine
if_free none m m' = m
if_free (some i) m m' = m'

abbrev pub if_none : List ℕ → Machine → Machine → Machine
if_none [] m m' = m
if_none (c ∷ cs) m m' = m'

-- One instruction of the goroutine, where it can go on.
abbrev pub turn : ℕ → List Instr → Machine → Machine
turn i [] m = m
turn i (lock ∷ rest) m = if_free m.holder (record (goes_on i rest m) { holder = some i }) m
turn i (await_none_lent ∷ rest) m = if_none m.pool.busy (goes_on i rest m) m
turn i (update f ∷ rest) m = record (goes_on i rest m) { pool = f m.pool }
turn i (unlock ∷ rest) m = record (goes_on i rest m) { holder = none }

-- Goroutines run in the given order, an instruction at a time.
unfoldable pub run : List ℕ → Machine → Machine
run [] m = m
run (i ∷ is) m = run is (turn i (m.code i) m)
