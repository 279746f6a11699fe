-- ===== src/Pool/Waiting/Stuck.antt =====
-- Close while a client is lent.
use mathlib.Core.Path.{subst}
use bclib.Base.{
  ℕ, ◌≡◌, ◌≢◌, refl, ap, ◌∙◌, Option, none, some, List, [], ◌∷◌, ◌++◌, ◌==◌, arith, if◌then◌else◌,
  Bool-cases, inl, inr, ◌⊎◌,
}
use bclib.Pool.{Pool}
use bclib.Pool.Waiting.{
  Instr, await_none_lent, update, unlock, close_code, get_code, release_code, close_cb_code,
  Machine, goes_on, if_free, if_none, turn, run,
}

-- What a goroutine runs before it has the mutex, or after it gave it back: methods, one after the other.
pub data Outside : List Instr → Type 0 where
  ended : Outside []
  closes : {rest : List Instr} → Outside rest → Outside (close_code ++ rest)
  gets : {rest : List Instr} (dial : Option ℕ) → Outside rest → Outside (get_code dial ++ rest)
  releases : {rest : List Instr} (c : ℕ) → Outside rest → Outside (release_code c ++ rest)
  calls_back : {rest : List Instr} (c : ℕ) → Outside rest → Outside (close_cb_code c ++ rest)

-- What a goroutine that has the mutex runs.
data Inside : List Instr → Type 0 where
  waits : {rest : List Instr} → Outside rest → Inside (await_none_lent ∷ unlock ∷ rest)
  updates : {rest : List Instr} (f : Pool → Pool) → Outside rest → Inside (update f ∷ unlock ∷ rest)
  leaves : {rest : List Instr} → Outside rest → Inside (unlock ∷ rest)

-- The mutex is free, and every goroutine is to run some methods.
pub record IsStart (m : Machine) : Type 0 where
  pub free : m.holder ≡ none
  pub methods : (i : ℕ) → Outside (m.code i)

-- A goroutine is inside a method exactly when it has the mutex.
abbrev Placed : Option ℕ → ℕ → List Instr → Type 0
Placed h i code = ((h ≡ some i) × Inside code) ⊎ ((h ≢ some i) × Outside code)

abbrev IsGuarded : Machine → Type 0
IsGuarded m = (i : ℕ) → Placed m.holder i (m.code i)

placed :
    (h : Option ℕ) (i : ℕ) (rest : List Instr) (code : ℕ → List Instr)
    → Placed h i rest
    → ((j : ℕ) → j ≢ i → Placed h j (code j))
    → (j : ℕ) → Placed h j (if j == i then rest else code j)
placed h i rest code mine others j = elim (Bool-cases (j == i)) [
  | inl same ↦ rw same (subst (λ k. Placed h k rest) (ground arith) mine)
  | inr other ↦ rw other (others j (ground arith))
]

-- A goroutine takes the free mutex.
lock-IsGuarded :
    (i : ℕ) (rest : List Instr) (m : Machine) (h : Option ℕ)
    → m.holder ≡ h
    → Inside rest
    → IsGuarded m
    → IsGuarded (if_free h (record (goes_on i rest m) { holder = some i }) m)
lock-IsGuarded i rest m (some k) e inside g = g
lock-IsGuarded i rest m none e inside g =
    placed (some i) i rest m.code (inl (refl, inside)) (λ j other. elim (g j) [
      | inl (held, x) ↦ cc (e, held)
      | inr (away, o) ↦ inr ((λ k. other (cc (k))), o)
    ])

-- One that has the mutex goes on with it.
hold-IsGuarded :
    (i : ℕ) (rest : List Instr) (m : Machine)
    → m.holder ≡ some i
    → Inside rest
    → IsGuarded m
    → IsGuarded (goes_on i rest m)
hold-IsGuarded i rest m held inside g =
    placed m.holder i rest m.code (inl (held, inside)) (λ j other. g j)

await-IsGuarded :
    (i : ℕ) (rest : List Instr) (busy : List ℕ) (m : Machine)
    → m.holder ≡ some i
    → Inside rest
    → IsGuarded m
    → IsGuarded (if_none busy (goes_on i rest m) m)
await-IsGuarded i rest [] m held inside g = hold-IsGuarded i rest m held inside g
await-IsGuarded i rest (c ∷ cs) m held inside g = g

unlock-IsGuarded :
    (i : ℕ) (rest : List Instr) (m : Machine)
    → m.holder ≡ some i
    → Outside rest
    → IsGuarded m
    → IsGuarded (record (goes_on i rest m) { holder = none })
unlock-IsGuarded i rest m held outside g =
    placed none i rest m.code (inr ((λ k. cc), outside)) (λ j other. elim (g j) [
      | inl (mine, x) ↦ absurd (other (cc (held, mine)))
      | inr (away, o) ↦ inr ((λ k. cc), o)
    ])

turn-IsGuarded :
    (i : ℕ) (code : List Instr) (m : Machine)
    → Placed m.holder i code
    → IsGuarded m
    → IsGuarded (turn i code m)
turn-IsGuarded i _ m (inl (held, waits o)) g = await-IsGuarded i _ m.pool.busy m held (leaves o) g
turn-IsGuarded i _ m (inl (held, updates f o)) g = hold-IsGuarded i _ m held (leaves o) g
turn-IsGuarded i _ m (inl (held, leaves o)) g = unlock-IsGuarded i _ m held o g
turn-IsGuarded i _ m (inr (away, ended)) g = g
turn-IsGuarded i _ m (inr (away, closes o)) g = lock-IsGuarded i _ m m.holder refl (waits o) g
turn-IsGuarded i _ m (inr (away, gets d o)) g = lock-IsGuarded i _ m m.holder refl (updates _ o) g
turn-IsGuarded i _ m (inr (away, releases c o)) g =
    lock-IsGuarded i _ m m.holder refl (updates _ o) g
turn-IsGuarded i _ m (inr (away, calls_back c o)) g =
    lock-IsGuarded i _ m m.holder refl (updates _ o) g

run-IsGuarded : (is : List ℕ) (m : Machine) → IsGuarded m → IsGuarded (run is m)
unfolding run
run-IsGuarded [] m g = g
run-IsGuarded (i ∷ is) m g = run-IsGuarded is _ (turn-IsGuarded i (m.code i) m (g i) g)

start-IsGuarded : (m : Machine) → IsStart m → IsGuarded m
start-IsGuarded m s i = inr ((λ k. cc (s.free, k)), s.methods i)

-- Close waits, and has the mutex.
abbrev Stuck : ℕ → List Instr → Machine → Type 0
Stuck t rest m = (m.holder ≡ some t) × (m.code t ≡ await_none_lent ∷ rest) × (m.pool.busy ≢ [])

busy_waits : (busy : List ℕ) (m m' : Machine) → busy ≢ [] → if_none busy m m' ≡ m'
busy_waits [] m m' lent = absurd (lent refl)
busy_waits (c ∷ cs) m m' lent = refl

held_waits : (h : Option ℕ) (t : ℕ) (m m' : Machine) → h ≡ some t → if_free h m m' ≡ m'
held_waits none t m m' e = cc
held_waits (some k) t m m' e = refl

Outside-turn :
    (i t : ℕ) (code : List Instr) (m : Machine)
    → Outside code
    → m.holder ≡ some t
    → turn i code m ≡ m
Outside-turn i t _ m ended held = refl
Outside-turn i t _ m (closes o) held = held_waits m.holder t _ m held
Outside-turn i t _ m (gets d o) held = held_waits m.holder t _ m held
Outside-turn i t _ m (releases c o) held = held_waits m.holder t _ m held
Outside-turn i t _ m (calls_back c o) held = held_waits m.holder t _ m held

Stuck-turn :
    (i t : ℕ) (rest : List Instr) (m : Machine)
    → IsGuarded m
    → Stuck t rest m
    → turn i (m.code i) m ≡ m
Stuck-turn i t rest m g (held, waiting, lent) = elim (g i) [
  | inl (mine, x) ↦
      let same : i ≡ t = cc (held, mine) in
      ap (λ k. turn i (m.code k) m) same
      ∙ ap (λ code. turn i code m) waiting
      ∙ busy_waits m.pool.busy _ m lent
  | inr (away, o) ↦ Outside-turn i t (m.code i) m o held
]

Stuck-run :
    (t : ℕ) (rest : List Instr) (is : List ℕ) (m : Machine)
    → IsGuarded m
    → Stuck t rest m
    → run is m ≡ m
unfolding run
Stuck-run t rest [] m g s = refl
Stuck-run t rest (i ∷ is) m g s =
    ap (run is) (Stuck-turn i t rest m g s) ∙ Stuck-run t rest is m g s

waiting-held :
    (h : Option ℕ) (t : ℕ) (code rest : List Instr)
    → Placed h t code
    → code ≡ await_none_lent ∷ rest
    → h ≡ some t
waiting-held h t code rest (inl (held, x)) e = held
waiting-held h t code rest (inr (away, o)) e = absurd (apart o e)
  where
    apart : {code : List Instr} → Outside code → code ≡ await_none_lent ∷ rest → ⊥
    apart ended e = cc
    apart (closes o) e = cc
    apart (gets d o) e = cc
    apart (releases c o) e = cc
    apart (calls_back c o) e = cc

-- From a free mutex, whatever methods the goroutines run and in whatever order: once a Close waits
-- while a client is lent, no instruction of any goroutine goes on any more, those of ReleaseClient and
-- closeCB for the lent client included.
pub close_deadlock :
    (m : Machine) (t : ℕ) (rest : List Instr) (before after : List ℕ)
    → IsStart m
    → (run before m).code t ≡ await_none_lent ∷ rest
    → (run before m).pool.busy ≢ []
    → run after (run before m) ≡ run before m
close_deadlock m t rest before after s waiting lent =
    let g = run-IsGuarded before m (start-IsGuarded m s) in
    let held = waiting-held _ t _ rest (g t) waiting in
    Stuck-run t rest after (run before m) g (held, waiting, lent)
