-- ===== src/Socket/Server/Single/Spent.antt =====
-- A client without keep-alive after its call, and what it reads.
use bclib.Base.{
  ℕ, ◌&&◌, not, and_false, ◌+◌, ◌-◌, ◌%◌, ◌^◌, ◌<◌, ◌≡◌, refl, ap, ◌∙◌, ◌≢◌, ==_refl, Bool, true,
  false, String, Option, none, some, List, [], ◌∷◌, arith, Bool-cases, inl, inr,
}
use bclib.Go.Result.{Result, ok, err, panic, >>=-eq-ok}
use bclib.Go.Text.{Bytes}
use bclib.Socket.Wire.{read_loop, write_message}
use bclib.Socket.Client.{
  Request, Response, Waiting, Client, counted, index, sent_req, remove_req, call, Event, end_call,
}
use bclib.Socket.Client.Matching.{Absent, misses_of}
use bclib.Socket.Client.Indices.{Reached, stepped, ended, Reached-Fresh, UpTo}
use bclib.Socket.Server.{Json, decoded}
use bclib.Socket.Server.Single.{Line, flushed, or_panic, sent_call, begin_call, finish_call}

-- A call that goes on no list twice is taken off it again.
remove_req-sent_req : (i : ℕ) (ws : List Waiting) → Absent i ws → remove_req i (sent_req i ws) ≡ ws
unfolding remove_req sent_req
remove_req-sent_req i [] h = rw (==_refl i)
remove_req-sent_req i (w ∷ ws) (other, h) =
    rw (misses_of w.index i other) (ap (λ t. w ∷ t) (remove_req-sent_req i ws h))

-- Nothing is written on a closed connection.
flushed-closed :
    (json : Json) (fault : Option String) (req : Request) (sent : Bytes)
    → flushed json fault false req ≢ ok sent
unfolding flushed
flushed-closed json fault req sent h =
    let (bz, marshalled, refused) =
      >>=-eq-ok (write_message json.marshal_request none none [] req) _ h in
    cc (refused)

-- The call panicked, and left the calls that wait and the closed connection as they were.
abbrev pub Spent : List Waiting → Line × Result Request → Type 0
Spent ws (l, value) =
    ((e : String) × (value ≡ panic e)) × (l.client.req_sent ≡ ws) × (l.is_open ≡ false)

give_up-Spent :
    (l : Line) (req : Request) (ws : List Waiting) (r : Result Bytes)
    → Absent req.index ws
    → l.client.req_sent ≡ sent_req req.index ws
    → l.is_open ≡ false
    → ((sent : Bytes) → r ≢ ok sent)
    → Spent ws (or_panic l req r)
give_up-Spent l req ws (ok sent) absent listed shut none_sent = absurd (none_sent sent refl)
give_up-Spent l req ws (err e) absent listed shut none_sent =
    ((e, refl), rw listed (remove_req-sent_req req.index ws absent), rw shut)
give_up-Spent l req ws (panic e) absent listed shut none_sent =
    ((e, refl), rw listed (remove_req-sent_req req.index ws absent), rw shut)

call-index :
    (c c' : Client) (m p : Bytes) (req : Request)
    → call c m p ≡ ok (c', req)
    → req.index ≡ counted c.counter % (2 ^ 64 - 1)
unfolding call index
call-index c c' m p req h = ground arith

call-sent_req :
    (c c' : Client) (m p : Bytes) (req : Request)
    → call c m p ≡ ok (c', req)
    → c'.req_sent ≡ sent_req req.index c.req_sent
unfolding call index
call-sent_req c c' m p req h = ground arith

call-err : (c : Client) (m p : Bytes) (e : String) → call c m p ≢ err e
unfolding call
call-err c m p e h = elim (Bool-cases c.is_running) [
  | inl run ↦ cc (rw run at h)
  | inr stop ↦ cc (rw stop at h)
]

UpTo-Absent : (n : ℕ) (ws : List Waiting) → UpTo n ws → Absent (n + 1) ws
UpTo-Absent n [] h = tt
UpTo-Absent n (w ∷ ws) (le, h) = ((λ same. omega (arith, same, le)), UpTo-Absent n ws h)

sent_call-Spent :
    {n : ℕ} {c : Client} (json : Json) (fault : Option String) (m p : Bytes)
    → Reached n c
    → n + 1 < 2 ^ 64 - 1
    → (is_open : Bool) → is_open ≡ false
    → (r : Result (Client × Request)) → call c m p ≡ r
    → Spent c.req_sent (sent_call json fault (record { client = c; is_open = is_open }) r)
sent_call-Spent {n} {c} json fault m p reached small true shut r e = cc
sent_call-Spent {n} {c} json fault m p reached small false shut (ok (c', req)) e =
    let (same, (distinct, up_to)) = Reached-Fresh reached (omega arith) in
    let i : req.index ≡ n + 1 = call-index c c' m p req e ∙ omega (arith, same, small) in
    give_up-Spent (record { client = c'; is_open = false }) req c.req_sent
      (flushed json fault false req) (rw i (UpTo-Absent n c.req_sent up_to))
      (call-sent_req c c' m p req e) refl (flushed-closed json fault req)
sent_call-Spent {n} {c} json fault m p reached small false shut (err message) h =
    absurd (call-err c m p message h)
sent_call-Spent {n} {c} json fault m p reached small false shut (panic message) h =
    ((message, refl), refl, refl)

-- When a call of a client without keep-alive has ended, with whatever outcome, every further call
-- panics, and leaves the calls that wait as they were and the connection closed. The client was
-- reached with n calls, fewer than 2^64 - 2.
pub begin_call-finish_call :
    {n : ℕ} {c : Client} (json : Json) (fault : Option String) (is_open : Bool) (req : Request)
    (event : Event) (m p : Bytes)
    → Reached n c
    → n + 1 < 2 ^ 64 - 1
    → c.disable_keep_alive ≡ true
    → let l = (finish_call req event (record { client = c; is_open = is_open })).0 in
      Spent l.client.req_sent (begin_call json fault m p l)
unfolding begin_call finish_call
begin_call-finish_call {n} {c} json fault is_open req event m p r small single =
    sent_call-Spent json fault m p (stepped r (ended req.index event)) small
      (is_open && not c.disable_keep_alive) (rw (single, and_false is_open))
      (call (end_call c req.index event).0 m p) refl

-- What is left of the responses of a routine that ends after the first one.
abbrev pub first_round : List Response × Option String → List Response × Option String
first_round ([], e) = ([], e)
first_round (resp ∷ resps, e) = (resp ∷ [], none)

abbrev all_rounds : Json → ℕ → Bytes → List Response × Option String
all_rounds json fuel s =
    let all = read_loop fuel s in
    let (rs, e) = decoded json.unmarshal_response all.0 all.1 in (rs, some e)
