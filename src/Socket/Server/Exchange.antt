-- ===== src/Socket/Server/Exchange.antt =====
-- Requests and responses between the two ends of a connection.
use mathlib.Core.Path.{subst}
use mathlib.Core.List.{Permᴰ}
use bclib.Base.{ℕ, ◌≡◌, refl, sym, ap, ◌∙◌, Option, none, some, List, [], ◌∷◌, map, All}
use bclib.Go.Result.{Result, ok, err, panic, ◌>>=◌, ok-injective, >>=-eq-ok, deref}
use bclib.Go.Text.{Bytes}
use bclib.Socket.Client.{Request, Response, Waiting, responded, outcome}
use bclib.Socket.Client.Matching.{
  Absent, Distinct, deliver, found, answered, deliver-answered, answered-Absent,
}
use bclib.Socket.Client.Order.{Free, Own, Own-cons, found_first, answered-Permᴰ}
use bclib.Socket.Server.{
  Json, Methods, response_of, handle_request, handle_all, read_request, recv_response_routine,
  write_all,
}
use bclib.Socket.Server.Streams.{Carries, read_request-write_all, recv_response_routine-write_all}

-- The calls that wait for the responses to some requests, and hold none.
abbrev pub waiting : List Request → List Waiting
waiting [] = []
waiting (req ∷ reqs) =
    record { index = req.index; resp_chan = none; close_chan = none } ∷ waiting reqs

-- A method called where it stands.
abbrev pub local_call : Methods → Request → Result Bytes
local_call methods req =
    deref (methods req.method) "Invalid method" >>= λ method. method req.payload

-- What a call returns that takes what its response channel holds.
abbrev pub returned : Waiting → Option (Result Bytes)
returned w = elim w.resp_chan [ none ↦ none | some r ↦ some (outcome (responded r)) ]

response_of-outcome :
    (req : Request) (res : Result Bytes) (r : Response)
    → response_of req res ≡ ok r
    → (r.index ≡ req.index) × (outcome (responded r) ≡ res)
response_of-outcome req (ok v) r h =
    let same = ok-injective h in
    (ap (λ q. q.index) (sym same), ap (λ q. outcome (responded q)) (sym same))
response_of-outcome req (err e) r h =
    let same = ok-injective h in
    (ap (λ q. q.index) (sym same), ap (λ q. outcome (responded q)) (sym same))
response_of-outcome req (panic e) r h = cc

handle_request-local_call :
    (methods : Methods) (req : Request) (r : Response)
    → handle_request methods req ≡ ok r
    → (r.index ≡ req.index) × (outcome (responded r) ≡ local_call methods req)
unfolding handle_request
handle_request-local_call methods req r h =
    let (method, found_it, answer) = >>=-eq-ok (deref (methods req.method) "Invalid method") _ h in
    let (i, o) = response_of-outcome req (method req.payload) r answer in (i, rw found_it o)

-- The parts of handling a list.
handle_all-cons :
    (methods : Methods) (req : Request) (reqs : List Request) (rs : List Response)
    → handle_all methods (req ∷ reqs) ≡ ok rs
    → (r : Response) × (rs' : List Response) × (rs ≡ r ∷ rs')
      × (handle_request methods req ≡ ok r)
      × (handle_all methods reqs ≡ ok rs')
unfolding handle_all
handle_all-cons methods req reqs rs h =
    let (r, one, more) = >>=-eq-ok (handle_request methods req) _ h in
    let (rs', others, e) = >>=-eq-ok (handle_all methods reqs) _ more in
    (r, rs', sym (ok-injective e), one, others)

handle_all-nil : (methods : Methods) (rs : List Response) → handle_all methods [] ≡ ok rs → rs ≡ []
unfolding handle_all
handle_all-nil methods rs h = sym (ok-injective h)

handle_all-Free :
    (methods : Methods) (i : ℕ) (reqs : List Request) (rs : List Response)
    → handle_all methods reqs ≡ ok rs
    → Absent i (waiting reqs)
    → Free i rs
handle_all-Free methods i [] rs h away = rw (handle_all-nil methods rs h) tt
handle_all-Free methods i (req ∷ reqs) rs h (other, away) =
    let (r, rs', e, one, others) = handle_all-cons methods req reqs rs h in
    let same = (handle_request-local_call methods req r one).0 in
    rw e ((λ k. other (sym same ∙ sym k)), handle_all-Free methods i reqs rs' others away)

handle_all-Own :
    (methods : Methods) (reqs : List Request) (rs : List Response)
    → handle_all methods reqs ≡ ok rs
    → Distinct (waiting reqs)
    → Own (λ i. found i rs) rs
handle_all-Own methods [] rs h d = rw (handle_all-nil methods rs h) tt
handle_all-Own methods (req ∷ reqs) rs h (apart, d) =
    let (r, rs', e, one, others) = handle_all-cons methods req reqs rs h in
    let same = (handle_request-local_call methods req r one).0 in
    let away = handle_all-Free methods req.index reqs rs' others apart in
    rw e (
      found_first r rs',
      Own-cons r rs' rs' (rw same away) (handle_all-Own methods reqs rs' others d),
    )

answered-returned_cons :
    (methods : Methods) (req : Request) (reqs : List Request) (r : Response) (rs : List Response)
    → handle_request methods req ≡ ok r
    → Absent req.index (waiting reqs)
    → map returned (answered rs (waiting reqs))
      ≡ map (λ (q : Request). some (local_call methods q)) reqs
    → map returned (answered (r ∷ rs) (waiting (req ∷ reqs)))
      ≡ map (λ (q : Request). some (local_call methods q)) (req ∷ reqs)
answered-returned_cons methods req reqs r rs one apart ih =
    let (i, o) = handle_request-local_call methods req r one in
    let mine : found req.index (r ∷ rs) ≡ some r =
      subst (λ j. found j (r ∷ rs) ≡ some r) i (found_first r rs) in
    let rest : answered (r ∷ rs) (waiting reqs) ≡ answered rs (waiting reqs) =
      answered-Absent r rs (waiting reqs) (subst (λ j. Absent j (waiting reqs)) (sym i) apart) in
    (λ k.
      returned (record { index = req.index; resp_chan = mine k; close_chan = none })
      ∷ map returned (rest k))
    ∙ (λ k. some (o k) ∷ ih k)

answered-returned :
    (methods : Methods) (reqs : List Request) (rs : List Response)
    → handle_all methods reqs ≡ ok rs
    → Distinct (waiting reqs)
    → map returned (answered rs (waiting reqs))
      ≡ map (λ (req : Request). some (local_call methods req)) reqs
answered-returned methods [] rs h d = refl
answered-returned methods (req ∷ reqs) rs h (apart, d) =
    let (r, rs', e, one, others) = handle_all-cons methods req reqs rs h in
    ap (λ l. map returned (answered l (waiting (req ∷ reqs)))) e
    ∙ answered-returned_cons methods req reqs r rs' one apart
        (answered-returned methods reqs rs' others d)

-- Whatever the order in which the responses to some requests with distinct indices arrive, each call
-- returns what its own method does.
deliver-returned :
    (methods : Methods) (reqs : List Request) (rs rs' : List Response)
    → Distinct (waiting reqs)
    → handle_all methods reqs ≡ ok rs
    → Permᴰ rs rs'
    → map returned (deliver rs' (waiting reqs))
      ≡ map (λ (req : Request). some (local_call methods req)) reqs
deliver-returned methods reqs rs rs' d h p =
    ap (map returned) (
      deliver-answered rs' (waiting reqs) d
      ∙ sym (answered-Permᴰ rs rs' (waiting reqs) p (handle_all-Own methods reqs rs h d)))
    ∙ answered-returned methods reqs rs h d

-- Requests with distinct indices are written, and the server reads the stream and handles what it
-- read without a panic; these responses are written in whatever order, read and delivered to the calls
-- that wait. Where the codec carries these messages, every call then returns the value or the error
-- that its method returns when it is called with the call's own arguments.
pub remote_calls :
    (json : Json) (methods : Methods) (reqs : List Request) (rs rs' : List Response) (s s' : Bytes)
    → Distinct (waiting reqs)
    → All (Carries json.marshal_request json.unmarshal_request) reqs
    → All (Carries json.marshal_response json.unmarshal_response) rs'
    → write_all json.marshal_request [] reqs ≡ ok s
    → handle_all methods (read_request json s).0 ≡ ok rs
    → Permᴰ rs rs'
    → write_all json.marshal_response [] rs' ≡ ok s'
    → map returned (deliver (recv_response_routine json s').0 (waiting reqs))
      ≡ map (λ (req : Request). some (local_call methods req)) reqs
remote_calls json methods reqs rs rs' s s' d cq cr sent handled p sent' =
    let whole = read_request-write_all json reqs cq in
    let whole' = recv_response_routine-write_all json rs' cr in
    let got : read_request json s ≡ (reqs, "EOF") = ok-injective (rw sent at whole) in
    let got' : recv_response_routine json s' ≡ (rs', "EOF") = ok-injective (rw sent' at whole') in
    rw got' (deliver-returned methods reqs rs rs' d (rw got at handled) p)
