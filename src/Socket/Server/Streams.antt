-- ===== src/Socket/Server/Streams.antt =====
-- Messages on a connection, through the codec and the stream.
use mathlib.Core.Path.{fun_ext}
use bclib.Base.{◌≤◌, ◌≡◌, refl, ap, ◌∙◌, String, none, List, [], ◌∷◌, All, length}
use bclib.Go.Result.{Result, ok, ◌>>=◌, >>=-eq-ok}
use bclib.Go.Text.{Bytes}
use bclib.Socket.Client.{Request, Response}
use bclib.Socket.Wire.{max_msg_size, encode_byte_slice, write_message, read_all}
use bclib.Socket.Wire.Frames.{send_all, read_all-send_all}
use bclib.Socket.Server.{Json, decoded, read_request, recv_response_routine, write_all}

-- The codec writes the value as a text of a size that is read, and reads it back.
pub record Carries {A : Type 0} (marshal : A → Result Bytes) (unmarshal : Bytes → Result A) (a : A)
    : Type 0 where
  pub as_text : Bytes
  pub marshals : marshal a ≡ ok as_text
  pub unmarshals : unmarshal as_text ≡ ok a
  pub fits : length as_text ≤ max_msg_size

module _ {A : Type 0} (marshal : A → Result Bytes) (unmarshal : Bytes → Result A) where
  texts : (ms : List A) → All (Carries marshal unmarshal) ms → List Bytes
  texts [] c = []
  texts (m ∷ ms) (c, cs) = c.as_text ∷ texts ms cs

  texts_fit :
      (ms : List A) (c : All (Carries marshal unmarshal) ms)
      → All (λ m. length m ≤ max_msg_size) (texts ms c)
  unfolding texts
  texts_fit [] c = tt
  texts_fit (m ∷ ms) (c, cs) = (c.fits, texts_fit ms cs)

  decoded-texts :
      (ms : List A) (c : All (Carries marshal unmarshal) ms) (e : String)
      → decoded unmarshal (texts ms c) e ≡ (ms, e)
  unfolding decoded texts
  decoded-texts [] c e = refl
  decoded-texts (m ∷ ms) (c, cs) e = rw (c.unmarshals, decoded-texts ms cs e) refl

  write_all-texts :
      (sink : Bytes) (ms : List A) (c : All (Carries marshal unmarshal) ms)
      → write_all marshal sink ms ≡ send_all sink (texts ms c)
  unfolding write_all send_all write_message texts
  write_all-texts sink [] c = refl
  write_all-texts sink (m ∷ ms) (c, cs) = rw c.marshals (
      ap (λ (k : Bytes → Result Bytes). encode_byte_slice none none sink c.as_text >>= k)
        (fun_ext (λ sink'. write_all-texts sink' ms cs)))

  -- Messages that the codec carries are read as they were written, in their order.
  pub decoded-write_all :
      (ms : List A)
      → All (Carries marshal unmarshal) ms
      → (write_all marshal [] ms >>= λ s. ok (decoded unmarshal (read_all s).0 (read_all s).1))
        ≡ ok (ms, "EOF")
  decoded-write_all ms c =
      let t = texts ms c in
      let (s, sent, received) =
        >>=-eq-ok (send_all [] t) (λ s. ok (read_all s)) (read_all-send_all t (texts_fit ms c)) in
      rw (write_all-texts [] ms c, sent)
        (ap (λ (r : Result (List Bytes × String)). r >>= λ q. ok (decoded unmarshal q.0 q.1))
            received
          ∙ ap ok (decoded-texts ms c "EOF"))

pub read_request-write_all :
    (json : Json) (reqs : List Request)
    → All (Carries json.marshal_request json.unmarshal_request) reqs
    → (write_all json.marshal_request [] reqs >>= λ s. ok (read_request json s)) ≡ ok (reqs, "EOF")
unfolding read_request
read_request-write_all json reqs c =
    decoded-write_all json.marshal_request json.unmarshal_request reqs c

pub recv_response_routine-write_all :
    (json : Json) (resps : List Response)
    → All (Carries json.marshal_response json.unmarshal_response) resps
    → (write_all json.marshal_response [] resps >>= λ s. ok (recv_response_routine json s))
      ≡ ok (resps, "EOF")
unfolding recv_response_routine
recv_response_routine-write_all json resps c =
    decoded-write_all json.marshal_response json.unmarshal_response resps c
