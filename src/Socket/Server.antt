-- ===== src/Socket/Server.antt =====
-- socket/server.go: the requests of a connection, handled by the methods, and the loops of both ends
-- that read. The JSON codec of the messages is a parameter; a JSON value inside a message is its text.
pub mod Streams
pub mod Exchange
pub mod Connections
pub mod Single
use bclib.Base.{
  ℕ, ◌+◌, ◌≡◌, Bool, true, false, String, Option, none, some, List, [], ◌∷◌, ◌++◌, take,
  if◌then◌else◌,
}
use bclib.Go.Result.{Result, ok, err, panic, ◌>>=◌, deref}
use bclib.Go.Text.{Bytes, text}
use bclib.Types.{code_ok, err_invalid_param}
use bclib.Socket.Client.{Request, Response}
use bclib.Socket.Wire.{write_message, read_all}

-- jsoniter.Marshal and jsoniter.Unmarshal at the two types of messages.
pub record Json : Type 0 where
  pub marshal_request : Request → Result Bytes
  pub unmarshal_request : Bytes → Result Request
  pub marshal_response : Response → Result Bytes
  pub unmarshal_response : Bytes → Result Response

-- The map of methods; a missing key gives nil.
abbrev pub Methods : Type 0
Methods = Bytes → Option (Bytes → Result Bytes)

abbrev pub null : Bytes
null = text "null"

abbrev pub response_of : Request → Result Bytes → Result Response
response_of req (ok res) =
    ok (record { code = code_ok; log = "ok"; method = req.method; result = res; index = req.index })
response_of req (err e) = ok (record {
  code = err_invalid_param;
  log = e;
  method = req.method;
  result = null;
  index = req.index;
})
response_of req (panic e) = panic e

-- handleRequest, up to the writing of the response.
unfoldable pub handle_request : Methods → Request → Result Response
handle_request methods req = do
  method ← deref (methods req.method) "Invalid method"
  response_of req (method req.payload)

-- Every request that was read is handled in a goroutine of its own; a panic ends the process.
unfoldable pub handle_all : Methods → List Request → Result (List Response)
unfolding handle_request
handle_all methods [] = ok []
handle_all methods (req ∷ reqs) = do
  resp ← handle_request methods req
  resps ← handle_all methods reqs
  ok (resp ∷ resps)

-- What the loops make of the messages they read: they end at a message that is no JSON value of the
-- type, or else with the error of the connection.
unfoldable pub decoded : {A : Type 0} → (Bytes → Result A) → List Bytes → String → List A × String
decoded unmarshal [] e = ([], e)
decoded unmarshal (m ∷ ms) e =
    let rest = decoded unmarshal ms e in
    elim (unmarshal m) [ ok a ↦ (a ∷ rest.0, rest.1) | err e' ↦ ([], e') | panic e' ↦ ([], e') ]

-- readRequest
unfoldable pub read_request : Json → Bytes → List Request × String
unfolding read_all decoded
read_request json s = let (ms, e) = read_all s in decoded json.unmarshal_request ms e

-- recvResponseRoutine of a client that keeps its connection.
unfoldable pub recv_response_routine : Json → Bytes → List Response × String
unfolding read_all decoded
recv_response_routine json s = let (ms, e) = read_all s in decoded json.unmarshal_response ms e

-- The writing of Call, and of handleRequest, for one message after the other on a sound connection.
unfoldable pub write_all : {A : Type 0} → (A → Result Bytes) → Bytes → List A → Result Bytes
unfolding write_message
write_all marshal sink [] = ok sink
write_all marshal sink (m ∷ ms) =
    write_message marshal none none sink m >>= λ sink'. write_all marshal sink' ms
