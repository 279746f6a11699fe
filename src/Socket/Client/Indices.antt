-- ===== src/Socket/Client/Indices.antt =====
-- The indices of the calls that wait, along the steps of a client.
use bclib.Base.{
  ℕ, ◌+◌, ◌-◌, ◌%◌, ◌^◌, ◌≤◌, ◌<◌, ◌≡◌, refl, ◌≢◌, Bool, true, String, List, [], ◌∷◌, ◌++◌, ◌==◌,
  arith, All, All-append, Bool-cases, inl, inr,
}
use bclib.Go.Result.{ok}
use bclib.Go.Text.{Bytes}
use bclib.Socket.Client.{
  Request, Response, Waiting, Client, new_client, set_close_cb, counted, index, sent_req,
  remove_req, call, did_recv_response, told_all, send_close_chan, Event, end_call,
}
use bclib.Socket.Client.Matching.{Absent, Distinct, did_recv_response-Distinct}

-- The steps of the goroutines that share a client: a call up to its writing, the delivery of a
-- response, the end of the connection, which ends the routine that reads, the setting of a close
-- callback, and the end of a call.
pub data Step : Client → Client → Type 0 where
  called : {c c' : Client} {req : Request} (m p : Bytes) → call c m p ≡ ok (c', req) → Step c c'
  received :
      {c : Client} (r : Response) → Step c (record c { req_sent = did_recv_response r c.req_sent })
  closed : {c : Client} (e : String) → c.is_running ≡ true → Step c (send_close_chan e c)
  hooked : {c : Client} → Step c (set_close_cb c)
  ended : {c : Client} (i : ℕ) (event : Event) → Step c (end_call c i event).0

-- How many calls there are after a step.
abbrev pub count_after : {c c' : Client} → ℕ → Step c c' → ℕ
count_after n (called m p e) = n + 1
count_after n (received r) = n
count_after n (closed e run) = n
count_after n hooked = n
count_after n (ended i event) = n

-- A client that was reached with so many calls.
pub data Reached : ℕ → Client → Type 0 where
  connected : (disable_keep_alive : Bool) → Reached 0 (new_client disable_keep_alive)
  stepped : {n : ℕ} {c c' : Client} → Reached n c → (s : Step c c') → Reached (count_after n s) c'

abbrev pub UpTo : ℕ → List Waiting → Type 0
UpTo n ws = All (λ (w : Waiting). w.index ≤ n) ws

abbrev pub Fresh : ℕ → List Waiting → Type 0
Fresh n ws = Distinct ws × UpTo n ws

UpTo-did_recv_response :
    (n : ℕ) (r : Response) (ws : List Waiting) → UpTo n ws → UpTo n (did_recv_response r ws)
unfolding did_recv_response
UpTo-did_recv_response n r [] h = h
UpTo-did_recv_response n r (w ∷ ws) (le, h) = elim (Bool-cases (w.index == r.index)) [
  | inl hit ↦ rw hit (le, h)
  | inr miss ↦ rw miss (le, UpTo-did_recv_response n r ws h)
]

Absent-remove_req : (j i : ℕ) (ws : List Waiting) → Absent j ws → Absent j (remove_req i ws)
unfolding remove_req
Absent-remove_req j i [] h = h
Absent-remove_req j i (w ∷ ws) (other, h) = elim (Bool-cases (w.index == i)) [
  | inl hit ↦ rw hit h
  | inr miss ↦ rw miss (other, Absent-remove_req j i ws h)
]

UpTo-remove_req : (n i : ℕ) (ws : List Waiting) → UpTo n ws → UpTo n (remove_req i ws)
unfolding remove_req
UpTo-remove_req n i [] h = h
UpTo-remove_req n i (w ∷ ws) (le, h) = elim (Bool-cases (w.index == i)) [
  | inl hit ↦ rw hit h
  | inr miss ↦ rw miss (le, UpTo-remove_req n i ws h)
]

remove_req-Distinct : (i : ℕ) (ws : List Waiting) → Distinct ws → Distinct (remove_req i ws)
unfolding remove_req
remove_req-Distinct i [] h = h
remove_req-Distinct i (w ∷ ws) (apart, h) = elim (Bool-cases (w.index == i)) [
  | inl hit ↦ rw hit h
  | inr miss ↦ rw miss (Absent-remove_req w.index i ws apart, remove_req-Distinct i ws h)
]

Absent-told_all : (j : ℕ) (e : String) (ws : List Waiting) → Absent j ws → Absent j (told_all e ws)
Absent-told_all j e [] h = h
Absent-told_all j e (w ∷ ws) (other, h) = (other, Absent-told_all j e ws h)

told_all-Fresh : (n : ℕ) (e : String) (ws : List Waiting) → Fresh n ws → Fresh n (told_all e ws)
told_all-Fresh n e [] h = h
told_all-Fresh n e (w ∷ ws) ((apart, h), (le, hs)) =
    let (d, u) = told_all-Fresh n e ws (h, hs) in ((Absent-told_all w.index e ws apart, d), (le, u))

UpTo-le : (n : ℕ) (ws : List Waiting) → UpTo n ws → UpTo (n + 1) ws
UpTo-le n [] h = tt
UpTo-le n (w ∷ ws) (le, h) = (omega arith, UpTo-le n ws h)

append-Distinct :
    (n : ℕ) (l : Waiting) (ws : List Waiting)
    → l.index ≡ n + 1
    → Fresh n ws
    → Distinct (ws ++ l ∷ [])
append-Distinct n l [] e h = (tt, tt)
append-Distinct n l (w ∷ ws) e ((apart, h), (le, hs)) = (
  All-append (λ (v : Waiting). v.index ≢ w.index) ws (l ∷ []) apart
      ((λ same. omega (arith, same, e, le)), tt),
  append-Distinct n l ws e (h, hs),
)

pub sent_req-Fresh : (n : ℕ) (ws : List Waiting) → Fresh n ws → Fresh (n + 1) (sent_req (n + 1) ws)
unfolding sent_req
sent_req-Fresh n ws (d, u) = (
  append-Distinct n _ ws refl (d, u),
  All-append (λ (w : Waiting). w.index ≤ n + 1) ws _ (UpTo-le n ws u) (omega arith, tt),
)

pub call-advances :
    (c c' : Client) (m p : Bytes) (req : Request)
    → call c m p ≡ ok (c', req)
    → c' ≡ record c {
      counter = counted c.counter;
      req_sent = sent_req (counted c.counter % (2 ^ 64 - 1)) c.req_sent;
    }
unfolding call index
call-advances c c' m p req h = ground arith

next_index : (n : ℕ) → n + 1 < 2 ^ 64 - 1 → (counted n ≡ n + 1) × ((n + 1) % (2 ^ 64 - 1) ≡ n + 1)
next_index n h = (omega arith, omega arith)

-- In a client reached from a new one with n calls, fewer than 2^64 - 1, the counter is n and the
-- waiting calls have distinct indices, none above n.
pub Reached-Fresh :
    {n : ℕ} {c : Client} → Reached n c → n < 2 ^ 64 - 1 → (c.counter ≡ n) × Fresh n c.req_sent
unfolding new_client set_close_cb call index send_close_chan end_call
Reached-Fresh (connected k) h = (refl, (tt, tt))
Reached-Fresh (stepped {n} {c} r (called {c' = c'} {req = req} m p e)) h =
    let (same, f) = Reached-Fresh r (omega arith) in
    let (up, i) = next_index n (omega arith) in
    let e' = call-advances c c' m p req e in
    rw (e', same, up, i) (refl, sent_req-Fresh n c.req_sent f)
Reached-Fresh (stepped {n} {c} r (received resp)) h =
    let (same, (d, u)) = Reached-Fresh r h in
    (
      same,
      (did_recv_response-Distinct resp c.req_sent d, UpTo-did_recv_response n resp c.req_sent u),
    )
Reached-Fresh (stepped {n} {c} r (closed e run)) h =
    let (same, f) = Reached-Fresh r h in (same, told_all-Fresh n e c.req_sent f)
Reached-Fresh (stepped {n} {c} r hooked) h = Reached-Fresh r h
Reached-Fresh (stepped {n} {c} r (ended i event)) h =
    let (same, (d, u)) = Reached-Fresh r h in
    (same, (remove_req-Distinct i c.req_sent d, UpTo-remove_req n i c.req_sent u))
