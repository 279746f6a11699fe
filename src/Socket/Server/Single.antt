-- ===== src/Socket/Server/Single.antt =====
-- socket/client.go: a client with the connection that it writes to, and what disableKeepAlive changes:
-- a call closes the connection when it ends, and the routine that reads takes one message.
pub mod Spent
pub mod Tests
use bclib.Base.{
  ◌≡◌, Bool, true, false, ◌&&◌, not, String, Option, none, some, List, [], ◌∷◌, if◌then◌else◌,
}
use bclib.Go.Result.{Result, ok, err, panic, ◌>>=◌}
use bclib.Go.Text.{Bytes}
use bclib.Socket.Wire.{write, write_message, read_message}
use bclib.Socket.Client.{
  Request, Response, Client, new_client, remove_req, call, Event, outcome, end_call,
}
use bclib.Socket.Server.{Json, recv_response_routine}

-- A client and whether its connection is open.
pub record Line : Type 0 where
  pub client : Client
  pub is_open : Bool

unfoldable pub new_line : Bool → Line
new_line disable_keep_alive = record { client = new_client disable_keep_alive; is_open = true }

-- What package net says of a write on a connection that was closed here.
abbrev pub closed_error : String
closed_error = "use of closed network connection"

-- The writing of a request into the buffer, and its flush, which may fail also on an open connection.
unfoldable pub flushed : Json → Option String → Bool → Request → Result Bytes
unfolding write_message
flushed json fault is_open req =
    write_message json.marshal_request none none [] req
    >>= write (if is_open then fault else some closed_error) []

-- `defer cli.conn.Close()`
abbrev pub hang_up : Line → Line
hang_up l = record l { is_open = l.is_open && not l.client.disable_keep_alive }

-- The deferred calls of a Call whose request was not written.
abbrev pub give_up : Request → Line → Line
give_up req l =
    hang_up
      (record l { client = record l.client { req_sent = remove_req req.index l.client.req_sent } })

-- What the panic of an error in the writing says.
abbrev pub or_panic : Line → Request → Result Bytes → Line × Result Request
or_panic l req (ok sent) = (l, ok req)
or_panic l req (err e) = (give_up req l, panic e)
or_panic l req (panic e) = (give_up req l, panic e)

abbrev pub sent_call :
    Json → Option String → Line → Result (Client × Request) → Line × Result Request
sent_call json fault l (ok (cli, req)) =
    or_panic (record l { client = cli }) req (flushed json fault l.is_open req)
sent_call json fault l (err e) = (l, err e)
sent_call json fault l (panic e) = (l, panic e)

-- Call, up to its wait.
unfoldable pub begin_call : Json → Option String → Bytes → Bytes → Line → Line × Result Request
unfolding call
begin_call json fault method payload l = sent_call json fault l (call l.client method payload)

-- The rest of Call: what it received, and its deferred calls.
unfoldable pub finish_call : Request → Event → Line → Line × Result Bytes
unfolding end_call
finish_call req event l =
    let (cli, value) = end_call l.client req.index event in
    (hang_up (record l { client = cli }), value)

-- recvResponseRoutine in one round: the response that it hands on, or its error.
unfoldable pub recv_once : Json → Bytes → List Response × Option String
unfolding read_message
recv_once json s = elim (read_message s >>= λ (r : Bytes × Bytes). json.unmarshal_response r.0) [
  | ok resp ↦ (resp ∷ [], none)
  | err e ↦ ([], some e)
  | panic e ↦ ([], some e)
]

-- recvResponseRoutine with its count of rounds: one without keep-alive, or no bound.
unfoldable pub recv_responses : Bool → Json → Bytes → List Response × Option String
unfolding recv_once
recv_responses disable_keep_alive json s =
    if disable_keep_alive
    then recv_once json s
    else (let (rs, e) = recv_response_routine json s in (rs, some e))
