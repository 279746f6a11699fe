-- ===== src/Socket/Client/Matching.antt =====
-- Responses and the calls that wait for them.
use mathlib.Core.Path.{subst}
use bclib.Base.{
  ℕ, ◌≡◌, refl, sym, ap, ◌∙◌, ◌≢◌, true, false, Option, none, some, List, [], ◌∷◌, ◌==◌, arith, All,
  if◌then◌else◌, Bool-cases, inl, inr,
}
use bclib.Socket.Client.{Response, Waiting, kept_or, did_recv_response}

-- No call waits for the index.
abbrev pub Absent : ℕ → List Waiting → Type 0
Absent i ws = All (λ (w : Waiting). w.index ≢ i) ws

abbrev pub Distinct : List Waiting → Type 0
Distinct [] = Unit {0}
Distinct (w ∷ ws) = Absent w.index ws × Distinct ws

-- Responses that arrive one after the other.
unfoldable pub deliver : List Response → List Waiting → List Waiting
unfolding did_recv_response
deliver [] ws = ws
deliver (r ∷ rs) ws = deliver rs (did_recv_response r ws)

-- The first of the responses that has the index.
abbrev pub found : ℕ → List Response → Option Response
found i [] = none
found i (r ∷ rs) = let rest = found i rs in if i == r.index then some r else rest

-- Every call with what it had, or else the first response to its own index.
abbrev pub answered : List Response → List Waiting → List Waiting
answered rs [] = []
answered rs (w ∷ ws) =
    record w { resp_chan = kept_or w.resp_chan (found w.index rs) } ∷ answered rs ws

answered_none : (ws : List Waiting) → ws ≡ answered [] ws
answered_none [] = refl
answered_none (w ∷ ws) = λ i. record w { resp_chan = same w.resp_chan i } ∷ answered_none ws i
  where
    same : (o : Option Response) → o ≡ kept_or o none
    same none = refl
    same (some r) = refl

did_recv_response-Absent :
    (r : Response) (ws : List Waiting) → Absent r.index ws → did_recv_response r ws ≡ ws
unfolding did_recv_response
did_recv_response-Absent r [] h = refl
did_recv_response-Absent r (w ∷ ws) (other, h) =
    rw (misses w other) (ap (λ t. w ∷ t) (did_recv_response-Absent r ws h))
  where
    misses : (w : Waiting) → w.index ≢ r.index → (w.index == r.index) ≡ false
    misses w' h' = ground arith

pub misses_of : (i j : ℕ) → i ≢ j → (i == j) ≡ false
misses_of i j h = ground arith

pub hits_of : (i j : ℕ) → (i == j) ≡ true → i ≡ j
hits_of i j h = ground arith

kept_or_twice :
    (o x : Option Response) (r : Response) → kept_or (kept_or o (some r)) x ≡ kept_or o (some r)
kept_or_twice none x r = refl
kept_or_twice (some a) x r = refl

pub answered-Absent :
    (r : Response) (rs : List Response) (ws : List Waiting)
    → Absent r.index ws
    → answered (r ∷ rs) ws ≡ answered rs ws
answered-Absent r rs [] h = refl
answered-Absent r rs (w ∷ ws) (other, h) = rw (misses_of w.index r.index other) (
    ap (λ t. record w { resp_chan = kept_or w.resp_chan (found w.index rs) } ∷ t)
      (answered-Absent r rs ws h))

answered-did_recv_response :
    (r : Response) (rs : List Response) (ws : List Waiting)
    → Distinct ws
    → answered rs (did_recv_response r ws) ≡ answered (r ∷ rs) ws
unfolding did_recv_response
answered-did_recv_response r rs [] h = refl
answered-did_recv_response r rs (w ∷ ws) (apart, h) = elim (Bool-cases (w.index == r.index)) [
  | inl hit ↦
      let away : Absent r.index ws = subst (λ i. Absent i ws) (hits_of w.index r.index hit) apart in
      rw hit (λ i.
        record w { resp_chan = kept_or_twice w.resp_chan (found w.index rs) r i }
        ∷ sym (answered-Absent r rs ws away) i)
  | inr miss ↦ rw miss (
      ap (λ t. record w { resp_chan = kept_or w.resp_chan (found w.index rs) } ∷ t)
        (answered-did_recv_response r rs ws h))
]

Absent-did_recv_response :
    (i : ℕ) (r : Response) (ws : List Waiting) → Absent i ws → Absent i (did_recv_response r ws)
unfolding did_recv_response
Absent-did_recv_response i r [] h = h
Absent-did_recv_response i r (w ∷ ws) (other, h) = elim (Bool-cases (w.index == r.index)) [
  | inl hit ↦ rw hit (other, h)
  | inr miss ↦ rw miss (other, Absent-did_recv_response i r ws h)
]

pub did_recv_response-Distinct :
    (r : Response) (ws : List Waiting) → Distinct ws → Distinct (did_recv_response r ws)
unfolding did_recv_response
did_recv_response-Distinct r [] h = h
did_recv_response-Distinct r (w ∷ ws) (apart, h) = elim (Bool-cases (w.index == r.index)) [
  | inl hit ↦ rw hit (apart, h)
  | inr miss ↦
      rw miss (Absent-did_recv_response w.index r ws apart, did_recv_response-Distinct r ws h)
]

-- Where the waiting calls have distinct indices, delivering responses one after the other, in
-- whatever order they come, gives each call whose channel is empty the first response with its own
-- index, if there is one, and changes nothing else.
pub deliver-answered :
    (rs : List Response) (ws : List Waiting) → Distinct ws → deliver rs ws ≡ answered rs ws
unfolding deliver
deliver-answered [] ws h = answered_none ws
deliver-answered (r ∷ rs) ws h =
    deliver-answered rs (did_recv_response r ws) (did_recv_response-Distinct r ws h)
    ∙ answered-did_recv_response r rs ws h
