-- ===== src/Socket/Client/Ends.antt =====
-- The end of a connection, and of a call.
use bclib.Base.{
  ℕ, ◌+◌, ◌≡◌, refl, ap, true, String, none, some, List, [], ◌∷◌, ◌==◌, if◌then◌else◌, All,
  All-append, Bool-cases, inl, inr,
}
use bclib.Go.Result.{ok, panic}
use bclib.Go.Text.{Bytes}
use bclib.Socket.Client.{
  Request, Response, Waiting, Client, new_client, sent_req, remove_req, call, kept_or,
  did_recv_response, told_all, send_close_chan, set_close_cb, broken, Selects, on_close, end_call,
}
use bclib.Socket.Client.Indices.{
  called, received, closed, hooked, ended, Reached, connected, stepped, call-advances,
}

-- No call was told of the end of the connection.
abbrev pub Untold : List Waiting → Type 0
Untold ws = All (λ (w : Waiting). w.close_chan ≡ none) ws

Untold-did_recv_response :
    (r : Response) (ws : List Waiting) → Untold ws → Untold (did_recv_response r ws)
unfolding did_recv_response
Untold-did_recv_response r [] h = h
Untold-did_recv_response r (w ∷ ws) (e, h) = elim (Bool-cases (w.index == r.index)) [
  | inl hit ↦ rw hit (e, h)
  | inr miss ↦ rw miss (e, Untold-did_recv_response r ws h)
]

Untold-remove_req : (i : ℕ) (ws : List Waiting) → Untold ws → Untold (remove_req i ws)
unfolding remove_req
Untold-remove_req i [] h = h
Untold-remove_req i (w ∷ ws) (e, h) = elim (Bool-cases (w.index == i)) [
  | inl hit ↦ rw hit h
  | inr miss ↦ rw miss (e, Untold-remove_req i ws h)
]

told_all-Selects :
    (e : String) (ws : List Waiting)
    → Untold ws
    → All (λ (w : Waiting). Selects w (broken e)) (told_all e ws)
told_all-Selects e [] h = h
told_all-Selects e (w ∷ ws) (none_yet, h) =
    (on_close (ap (λ o. kept_or o (some e)) none_yet), told_all-Selects e ws h)

-- A running client has told nobody of an end and called no callback.
abbrev IsQuiet : Client → Type 0
IsQuiet c = c.is_running ≡ true → Untold c.req_sent × (c.close_calls ≡ 0)

call-IsQuiet :
    (c c' : Client) (m p : Bytes) (req : Request)
    → call c m p ≡ ok (c', req)
    → IsQuiet c
    → IsQuiet c'
unfolding sent_req
call-IsQuiet c c' m p req e v = rw (call-advances c c' m p req e) (λ run.
    let (u, k) = v run in
    (All-append (λ (w : Waiting). w.close_chan ≡ none) c.req_sent _ u (refl, tt), k))

Reached-IsQuiet : {n : ℕ} {c : Client} → Reached n c → IsQuiet c
unfolding new_client set_close_cb send_close_chan end_call
Reached-IsQuiet (connected k) run = (tt, refl)
Reached-IsQuiet (stepped {c = c} r (called {c' = c'} {req = req} m p e)) run =
    call-IsQuiet c c' m p req e (Reached-IsQuiet r) run
Reached-IsQuiet (stepped {c = c} r (received resp)) run =
    let (u, k) = Reached-IsQuiet r run in (Untold-did_recv_response resp c.req_sent u, k)
Reached-IsQuiet (stepped {c = c} r (closed e live)) run = absurd (cc)
Reached-IsQuiet (stepped {c = c} r hooked) run = Reached-IsQuiet r run
Reached-IsQuiet (stepped {c = c} r (ended i event)) run =
    let (u, k) = Reached-IsQuiet r run in (Untold-remove_req i c.req_sent u, k)

-- When the connection of a running client that was reached from a new one ends with an error, every
-- call that waits can go on with that error, the close callback has been called exactly once if one
-- was set and never if not, and a later call fails as one on an invalid client.
pub send_close_chan-Selects :
    {n : ℕ} {c : Client} (e : String)
    → Reached n c
    → c.is_running ≡ true
    → All (λ (w : Waiting). Selects w (broken e)) (send_close_chan e c).req_sent
      × ((send_close_chan e c).close_calls ≡ (if c.close_cb then 1 else 0))
      × ((m p : Bytes) → call (send_close_chan e c) m p ≡ panic "client is invalid")
unfolding send_close_chan call
send_close_chan-Selects {n} {c} e r run =
    let (u, k) = Reached-IsQuiet r run in
    (told_all-Selects e c.req_sent u, ap (λ t. if c.close_cb then t + 1 else t) k, λ m p. refl)
