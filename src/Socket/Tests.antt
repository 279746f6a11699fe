-- ===== src/Socket/Tests.antt =====
-- The theorems on calls over a connection, at concrete messages and clients.
use mathlib.Core.List.Permᴰ.{swap}
use bclib.Base.{
  ℕ, ◌+◌, ◌<◌, ◌≤◌, ◌≡◌, refl, ◌≢◌, true, false, none, some, [], ◌∷◌, ◌++◌, map, arith, All, length,
  take, drop, bytes_eq, ◌==◌, if◌then◌else◌,
}
use bclib.Go.Result.{Result, ok, err, panic, ◌>>=◌}
use bclib.Go.Text.{Bytes}
use bclib.Socket.Varint.{put_varint, read_varint, read_uvarint}
use bclib.Socket.Wire.{read_proto_msg, read_all}
use bclib.Socket.Wire.Frames.{
  Reads, send_all, read_proto_msg_bounds, read_all-Reads, read_all-send_all,
}
use bclib.Socket.Client.{
  Request, Response, Waiting, Client, new_client, set_close_cb, index, sent_req, call, broken,
  Selects, send_close_chan,
}
use bclib.Socket.Client.Matching.{Distinct, deliver}
use bclib.Socket.Client.Indices.{Reached, connected, stepped, called, hooked, Fresh, Reached-Fresh}
use bclib.Socket.Client.Ends.{send_close_chan-Selects}
use bclib.Socket.Server.{
  Json, Methods, handle_request, handle_all, read_request, recv_response_routine, write_all,
}
use bclib.Socket.Server.Connections.{
  Server, new_server, save, begin, saves, begins, Served, opened, next,
}
use bclib.Socket.Server.Connections.Tracked.{IsTracked, Served-IsTracked}
use bclib.Socket.Server.Streams.{Carries}
use bclib.Socket.Server.Exchange.{waiting, returned, remote_calls}

abbrev three_bytes : Bytes
three_bytes = 7 ∷ 8 ∷ 9 ∷ []

abbrev two_bytes : Bytes
two_bytes = 5 ∷ 6 ∷ []

abbrev rest_byte : Bytes
rest_byte = 7 ∷ []

-- Two bytes behind their length, which the varint doubles.
read_two : read_proto_msg 10 (4 ∷ 5 ∷ 6 ∷ 7 ∷ []) ≡ ok (5 ∷ 6 ∷ [], 7 ∷ [])
unfolding read_proto_msg read_varint read_uvarint
read_two = refl

read_proto_msg_bounds_example :
    (length two_bytes ≤ 10)
    × (length two_bytes + length rest_byte < length (4 ∷ two_bytes ++ rest_byte))
read_proto_msg_bounds_example =
    read_proto_msg_bounds 10 (4 ∷ 5 ∷ 6 ∷ 7 ∷ []) two_bytes rest_byte read_two

read_all-Reads_example :
    Reads (4 ∷ 5 ∷ 6 ∷ 7 ∷ []) (read_all (4 ∷ 5 ∷ 6 ∷ 7 ∷ [])).0 (read_all (4 ∷ 5 ∷ 6 ∷ 7 ∷ [])).1
read_all-Reads_example = read_all-Reads (4 ∷ 5 ∷ 6 ∷ 7 ∷ [])

read_all-send_all_example :
    (send_all [] (three_bytes ∷ (1 ∷ []) ∷ []) >>= λ s. ok (read_all s))
    ≡ ok (three_bytes ∷ (1 ∷ []) ∷ [], "EOF")
read_all-send_all_example =
    read_all-send_all (three_bytes ∷ (1 ∷ []) ∷ []) (omega arith, (omega arith, tt))

-- Two calls: method 1 adds a byte in front, any other method fails.
abbrev adding : Request
adding = record { method = 1 ∷ []; payload = 5 ∷ []; index = 1 }

abbrev failing : Request
failing = record { method = 2 ∷ []; payload = 6 ∷ []; index = 2 }

abbrev methods : Methods
methods m = if bytes_eq m (1 ∷ []) then some (λ p. ok (9 ∷ p)) else some (λ p. err "refused")

abbrev added : Response
added = record { code = 200; log = "ok"; method = 1 ∷ []; result = 9 ∷ 5 ∷ []; index = 1 }

abbrev failed : Response
failed = record {
  code = 3004;
  log = "refused";
  method = 2 ∷ [];
  result = 110 ∷ 117 ∷ 108 ∷ 108 ∷ [];
  index = 2;
}

one_two : ◌≢◌ {A = ℕ} 2 1
one_two e = omega arith

two_waiting-Distinct : Distinct (waiting (adding ∷ failing ∷ []))
two_waiting-Distinct = ((one_two, tt), (tt, tt))

-- A client with one call.
abbrev calling : Client
calling = record {
  req_sent = record { index = 1; resp_chan = none; close_chan = none } ∷ [];
  disable_keep_alive = false;
  counter = 1;
  is_running = true;
  close_cb = true;
  close_calls = 0;
}

first_call : call (set_close_cb (new_client false)) (1 ∷ []) (5 ∷ []) ≡ ok (calling, adding)
unfolding call new_client set_close_cb index sent_req
first_call = refl

calling-Reached : Reached 1 calling
calling-Reached = stepped (stepped (connected false) hooked) (called (1 ∷ []) (5 ∷ []) first_call)

Reached-Fresh_example : (calling.counter ≡ 1) × Fresh 1 calling.req_sent
Reached-Fresh_example = Reached-Fresh calling-Reached (omega arith)

send_close_chan-Selects_example :
    All (λ (w : Waiting). Selects w (broken "EOF")) (send_close_chan "EOF" calling).req_sent
    × ((send_close_chan "EOF" calling).close_calls ≡ 1)
    × ((m p : Bytes) → call (send_close_chan "EOF" calling) m p ≡ panic "client is invalid")
send_close_chan-Selects_example = send_close_chan-Selects "EOF" calling-Reached refl

-- A codec for messages of small numbers, with a length, the index, the outcome and the bytes.
abbrev encode_request : Request → Result Bytes
encode_request q = ok (length q.method ∷ q.index ∷ (q.method ++ q.payload))

abbrev decode_request : Bytes → Result Request
decode_request (n ∷ i ∷ rest) =
    ok (record { method = take n rest; payload = drop n rest; index = i })
decode_request _ = err "not a request"

abbrev encode_response : Response → Result Bytes
encode_response r =
    ok (length r.method ∷ r.index ∷ (if r.code == 200 then 1 else 0) ∷ (r.method ++ r.result))

abbrev decode_response : Bytes → Result Response
decode_response (n ∷ i ∷ good ∷ rest) = ok (record {
  code = if good == 1 then 200 else 3004;
  log = if good == 1 then "ok" else "refused";
  method = take n rest;
  result = drop n rest;
  index = i;
})
decode_response _ = err "not a response"

abbrev small_json : Json
small_json = record {
  marshal_request = encode_request;
  unmarshal_request = decode_request;
  marshal_response = encode_response;
  unmarshal_response = decode_response;
}

requests-Carries : All (Carries encode_request decode_request) (adding ∷ failing ∷ [])
requests-Carries = (
  record { as_text = 1 ∷ 1 ∷ 1 ∷ 5 ∷ []; marshals = refl; unmarshals = refl; fits = omega arith },
  (
    record { as_text = 1 ∷ 2 ∷ 2 ∷ 6 ∷ []; marshals = refl; unmarshals = refl; fits = omega arith },
    tt,
  ),
)

responses-Carries : All (Carries encode_response decode_response) (failed ∷ added ∷ [])
responses-Carries = (
  record {
    as_text = 1 ∷ 2 ∷ 0 ∷ 2 ∷ 110 ∷ 117 ∷ 108 ∷ 108 ∷ [];
    marshals = refl;
    unmarshals = refl;
    fits = omega arith;
  },
  (
    record {
      as_text = 1 ∷ 1 ∷ 1 ∷ 1 ∷ 9 ∷ 5 ∷ [];
      marshals = refl;
      unmarshals = refl;
      fits = omega arith;
    },
    tt,
  ),
)

-- What the two ends write.
abbrev asked_stream : Bytes
asked_stream = 8 ∷ 1 ∷ 1 ∷ 1 ∷ 5 ∷ 8 ∷ 1 ∷ 2 ∷ 2 ∷ 6 ∷ []

abbrev answered_stream : Bytes
answered_stream = 16 ∷ 1 ∷ 2 ∷ 0 ∷ 2 ∷ 110 ∷ 117 ∷ 108 ∷ 108 ∷ 12 ∷ 1 ∷ 1 ∷ 1 ∷ 1 ∷ 9 ∷ 5 ∷ []

asked_written : write_all encode_request [] (adding ∷ failing ∷ []) ≡ ok asked_stream
unfolding write_all put_varint
asked_written = refl

answered_written : write_all encode_response [] (failed ∷ added ∷ []) ≡ ok answered_stream
unfolding write_all put_varint
answered_written = refl

both_handled :
    handle_all methods (read_request small_json asked_stream).0 ≡ ok (added ∷ failed ∷ [])
unfolding handle_all handle_request read_request read_varint
both_handled = refl

-- The response to the second call comes first.
remote_calls_example :
    map returned (
      deliver
        (recv_response_routine small_json answered_stream).0
        (waiting (adding ∷ failing ∷ [])))
    ≡ some (ok (9 ∷ 5 ∷ [])) ∷ some (err "refused") ∷ []
remote_calls_example =
    remote_calls small_json methods (adding ∷ failing ∷ []) (added ∷ failed ∷ [])
      (failed ∷ added ∷ []) asked_stream answered_stream two_waiting-Distinct requests-Carries
      responses-Carries asked_written both_handled (swap refl refl) answered_written

-- A connection is accepted and read from, and a second one is accepted.
abbrev two_connections : Server
two_connections = save (begin (save new_server 5) 5) 6

two_served : Served two_connections
unfolding save begin
two_served = next (next (next opened (saves 5 refl)) (begins 5 refl)) (saves 6 refl)

Served-IsTracked_example : IsTracked two_connections
Served-IsTracked_example = Served-IsTracked two_served
