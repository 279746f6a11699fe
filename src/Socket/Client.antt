-- ===== src/Socket/Client.antt =====
-- socket/client.go: the calls that wait for a response. A call is its entry of the list `reqSent`,
-- with what its two channels of one place hold; JSON values are their text. Each function is one
-- step: the goroutines meet in the list alone. `close_cb` says whether there is a close callback, and
-- `close_calls` counts how often it was called.
pub mod Matching
pub mod Order
pub mod Indices
pub mod Ends
use bclib.Base.{
  ℕ, ◌+◌, ◌%◌, ◌-◌, ◌^◌, ◌≡◌, Bool, true, false, not, String, Option, none, some, List, [], ◌∷◌,
  ◌++◌, ◌==◌, if◌then◌else◌,
}
use bclib.Go.Result.{Result, ok, err, panic, ◌>>=◌, ◌>>◌}
use bclib.Go.Text.{Bytes}
use bclib.Types.{code_ok}

pub record Request : Type 0 where
  pub method : Bytes
  pub payload : Bytes
  pub index : ℕ

pub record Response : Type 0 where
  pub code : ℕ
  pub log : String
  pub method : Bytes
  pub result : Bytes
  pub index : ℕ

-- ReqResp
pub record Waiting : Type 0 where
  pub index : ℕ
  pub resp_chan : Option Response
  pub close_chan : Option String

pub record Client : Type 0 where
  pub req_sent : List Waiting
  pub disable_keep_alive : Bool
  pub counter : ℕ
  pub is_running : Bool
  pub close_cb : Bool
  pub close_calls : ℕ

unfoldable pub new_client : Bool → Client
new_client disable_keep_alive = record {
  req_sent = [];
  disable_keep_alive = disable_keep_alive;
  counter = 0;
  is_running = true;
  close_cb = false;
  close_calls = 0;
}

-- SetCloseCB with a callback, which is not nil.
unfoldable pub set_close_cb : Client → Client
set_close_cb cli = record cli { close_cb = true }

abbrev pub counted : ℕ → ℕ
counted counter = (counter + 1) % 2 ^ 64

-- The counter is a uint64; math.MaxUint64 is 2^64 - 1.
unfoldable pub index : Client → Client × ℕ
index cli = (record cli { counter = counted cli.counter }, counted cli.counter % (2 ^ 64 - 1))

unfoldable pub sent_req : ℕ → List Waiting → List Waiting
sent_req i sent = sent ++ record { index = i; resp_chan = none; close_chan = none } ∷ []

unfoldable pub remove_req : ℕ → List Waiting → List Waiting
remove_req i [] = []
remove_req i (w ∷ ws) = let rest = w ∷ remove_req i ws in if w.index == i then ws else rest

-- Call, up to the writing of the request.
unfoldable pub call : Client → Bytes → Bytes → Result (Client × Request)
unfolding index sent_req
call cli method payload =
    let (cli', i) = index cli in
    if not cli.is_running
    then panic "client is invalid"
    else ok (
      record cli' { req_sent = sent_req i cli.req_sent },
      record { method = method; payload = payload; index = i },
    )

-- A response to a call that has one already has to wait for room in the channel: nothing changes.
abbrev pub kept_or {ℓ} : {A : Type ℓ} → Option A → Option A → Option A
kept_or none new = new
kept_or (some a) new = some a

abbrev pub offered : Response → Waiting → Waiting
offered resp w = record w { resp_chan = kept_or w.resp_chan (some resp) }

unfoldable pub did_recv_response : Response → List Waiting → List Waiting
did_recv_response resp [] = []
did_recv_response resp (w ∷ ws) =
    let rest = w ∷ did_recv_response resp ws in
    if w.index == resp.index then offered resp w ∷ ws else rest

abbrev pub told : String → Waiting → Waiting
told e w = record w { close_chan = kept_or w.close_chan (some e) }

abbrev pub told_all : String → List Waiting → List Waiting
told_all e [] = []
told_all e (w ∷ ws) = told e w ∷ told_all e ws

-- What recvResponseRoutine does on an error: it ends, after sendCloseChan.
unfoldable pub send_close_chan : String → Client → Client
send_close_chan e cli = record cli {
  is_running = false;
  req_sent = told_all e cli.req_sent;
  close_calls = if cli.close_cb then cli.close_calls + 1 else cli.close_calls;
}

-- What a call receives: the time out, a response or an error of the connection.
pub data Event : Type 0 where
  timed_out : Event
  responded : Response → Event
  broken : String → Event

abbrev pub outcome : Event → Result Bytes
outcome timed_out = err "recv time out"
outcome (responded resp) = if resp.code == code_ok then ok resp.result else err resp.log
outcome (broken e) = panic e

-- What the select of a call may take: a time out at any time, or what its channels hold.
pub data Selects (w : Waiting) : Event → Type 0 where
  on_time_out : Selects w timed_out
  on_response : {r : Response} → w.resp_chan ≡ some r → Selects w (responded r)
  on_close : {e : String} → w.close_chan ≡ some e → Selects w (broken e)

-- The end of Call, with its deferred removal of the request.
unfoldable pub end_call : Client → ℕ → Event → Client × Result Bytes
unfolding remove_req
end_call cli i event = (record cli { req_sent = remove_req i cli.req_sent }, outcome event)
