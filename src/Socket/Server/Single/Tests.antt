-- ===== src/Socket/Server/Single/Tests.antt =====
-- A client without keep-alive that made one call.
use bclib.Base.{◌≡◌, refl, true, false, none, [], ◌∷◌, arith}
use bclib.Go.Result.{ok, err}
use bclib.Go.Text.{Bytes}
use bclib.Socket.Varint.{read_varint, read_uvarint}
use bclib.Socket.Wire.{read_message, read_proto_msg}
use bclib.Socket.Client.{Request, Response, Client, new_client, index, sent_req, call, responded}
use bclib.Socket.Client.Indices.{Reached, connected, stepped, called}
use bclib.Socket.Server.{Json}
use bclib.Socket.Server.Single.{
  begin_call, finish_call, flushed, new_line, recv_once, recv_responses,
}
use bclib.Socket.Server.Single.Spent.{Spent, begin_call-finish_call}

abbrev asking : Request
asking = record { method = 1 ∷ []; payload = 5 ∷ []; index = 1 }

abbrev answering : Bytes → Response
answering result = record { code = 200; log = "ok"; method = 1 ∷ []; result = result; index = 1 }

-- A codec for the payload of a request and the result of a response.
abbrev payloads : Json
payloads = record {
  marshal_request = λ req. ok req.payload;
  unmarshal_request = λ b. err "not a request";
  marshal_response = λ resp. ok resp.result;
  unmarshal_response = λ b. ok (answering b);
}

abbrev asked_once : Client
asked_once = record {
  req_sent = record { index = 1; resp_chan = none; close_chan = none } ∷ [];
  disable_keep_alive = true;
  counter = 1;
  is_running = true;
  close_cb = false;
  close_calls = 0;
}

only_call :
    begin_call payloads none (1 ∷ []) (5 ∷ []) (new_line true)
    ≡ (record { client = asked_once; is_open = true }, ok asking)
unfolding begin_call flushed call new_line new_client index sent_req
only_call = refl

asked_once-Reached : Reached 1 asked_once
unfolding call new_client index sent_req
asked_once-Reached = stepped (connected true) (called (1 ∷ []) (5 ∷ []) refl)

-- Of two responses the client takes one.
takes_one : recv_responses true payloads (2 ∷ 9 ∷ 2 ∷ 8 ∷ []) ≡ (answering (9 ∷ []) ∷ [], none)
unfolding recv_responses recv_once read_message read_proto_msg read_varint read_uvarint
takes_one = refl

begin_call-finish_call_example :
    let l =
      (finish_call asking
        (responded (answering (9 ∷ [])))
        (record { client = asked_once; is_open = true })).0 in
    Spent l.client.req_sent (begin_call payloads none (2 ∷ []) (6 ∷ []) l)
begin_call-finish_call_example =
    begin_call-finish_call payloads none true asking (responded (answering (9 ∷ []))) (2 ∷ [])
      (6 ∷ []) asked_once-Reached (omega arith) refl
