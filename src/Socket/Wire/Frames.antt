-- ===== src/Socket/Wire/Frames.antt =====
-- Messages on a stream, one and many.
use bclib.Base.{
  ℕ, zero, suc, ◌+◌, ◌*◌, ◌%◌, ◌^◌, ◌≤◌, ◌<◌, ◌≡◌, refl, sym, ap, ◌∙◌, false, String, none, List,
  [], ◌∷◌, ◌++◌, arith, ltb, le→leb, length, length-append, length-take, length-drop,
  take-append_length, drop-append_length, append-nil, append_assoc, All, Bool-cases, inl, inr,
}
use bclib.Go.Result.{Result, ok, err, panic, ◌>>=◌, >>=-eq-ok}
use bclib.Go.Int.{ℤ, pos, negsuc}
use bclib.Go.Text.{Bytes}
use bclib.Socket.Varint.{
  put_varint, read_varint, read_uvarint, unzigzag, read_varint-put_varint, read_varint-shorter,
}
use bclib.Socket.Wire.{
  max_msg_size, encode_varint, encode_byte_slice, read_full, sized, read_proto_msg, read_message,
  cons_first, read_loop, read_all,
}

-- A message as it stands on the stream.
abbrev pub frame : Bytes → Bytes
frame bz = put_varint (pos (length bz)) ++ bz

encode_byte_slice-frame :
    (sink bz : Bytes) → encode_byte_slice none none sink bz ≡ ok (sink ++ frame bz)
unfolding encode_byte_slice encode_varint
encode_byte_slice-frame sink bz = ap ok (append_assoc sink (put_varint (pos (length bz))) bz)

read_full-append : (bz rest : Bytes) → read_full (length bz) (bz ++ rest) ≡ ok (bz, rest)
read_full-append bz rest =
    rw
      (
        le→leb (length bz) (length (bz ++ rest)) (omega (arith, length-append bz rest)),
        take-append_length bz rest,
        drop-append_length bz rest,
      )
      refl

read_proto_msg-frame :
    (max_size : ℕ) (bz rest : Bytes)
    → max_size < 2 ^ 63
    → length bz ≤ max_size
    → read_proto_msg max_size (frame bz ++ rest) ≡ ok (bz, rest)
unfolding read_proto_msg
read_proto_msg-frame max_size bz rest small fits =
    ap (λ s. read_varint s >>= λ (r : ℤ × Bytes). sized max_size r.0 r.1)
      (append_assoc (put_varint (pos (length bz))) bz rest)
    ∙ ap (λ (r : Result (ℤ × Bytes)). r >>= λ (q : ℤ × Bytes). sized max_size q.0 q.1)
        (read_varint-put_varint (pos (length bz)) (bz ++ rest) (omega arith))
    ∙ rw in_size (read_full-append bz rest)
  where
    in_size : ltb max_size (length bz) ≡ false
    in_size = ground arith

-- What encodeByteSlice wrote is read by readProtoMsg, with whatever follows it on the stream, where
-- the message is not longer than the limit, and the limit is a 64-bit integer.
pub read_proto_msg-encode_byte_slice :
    (max_size : ℕ) (bz rest : Bytes)
    → max_size < 2 ^ 63
    → length bz ≤ max_size
    → (encode_byte_slice none none [] bz >>= λ s. read_proto_msg max_size (s ++ rest))
      ≡ ok (bz, rest)
read_proto_msg-encode_byte_slice max_size bz rest small fits =
    ap (λ r. r >>= λ s. read_proto_msg max_size (s ++ rest)) (encode_byte_slice-frame [] bz)
    ∙ read_proto_msg-frame max_size bz rest small fits

read_full-bounds :
    (n : ℕ) (s m rest : Bytes)
    → read_full n s ≡ ok (m, rest)
    → (length m ≡ n) × (length m + length rest ≡ length s)
read_full-bounds n s m rest e = ground (arith, length-take n s, length-drop n s)

sized-bounds :
    (max_size : ℕ) (x : ℤ) (s m rest : Bytes)
    → sized max_size x s ≡ ok (m, rest)
    → (length m ≤ max_size) × (length m + length rest ≡ length s)
sized-bounds max_size (negsuc n) s m rest e = cc
sized-bounds max_size (pos n) s m rest e = elim (Bool-cases (ltb max_size n)) [
  | inl over ↦ cc (rw over at e)
  | inr fits ↦ let b = read_full-bounds n s m rest (rw fits at e) in (ground (arith, b.0), b.1)
]

-- A message that is read is not longer than the limit, and with the rest of the stream shorter than
-- the stream was.
pub read_proto_msg_bounds :
    (max_size : ℕ) (s m rest : Bytes)
    → read_proto_msg max_size s ≡ ok (m, rest)
    → (length m ≤ max_size) × (length m + length rest < length s)
unfolding read_proto_msg
read_proto_msg_bounds max_size s m rest e =
    let r = >>=-eq-ok (read_varint s) _ e in
    let b = sized-bounds max_size r.0.0 r.0.1 m rest r.2 in
    let shorter = read_varint-shorter s r.0.1 r.0.0 r.1 in (b.0, omega (arith, b.1, shorter))

-- What the loop reads of a stream, without fuel: messages until a call returns an error.
pub data Reads : Bytes → List Bytes → String → Type 0 where
  stops : {s : Bytes} {e : String} → read_message s ≡ err e → Reads s [] e
  goes_on :
      {s m rest : Bytes} {ms : List Bytes} {e : String}
      → read_message s ≡ ok (m, rest)
      → Reads rest ms e
      → Reads s (m ∷ ms) e

read_uvarint_returns :
    (i scale acc : ℕ) (s : Bytes) (e : String) → read_uvarint i scale acc s ≡ panic e → ⊥
unfolding read_uvarint
read_uvarint_returns i scale acc [] e h = cc
read_uvarint_returns i scale acc (b ∷ s) e h =
    ground (arith, read_uvarint_returns (i + 1) (scale * 128) (acc + b % 128 * scale) s e)

sized_returns : (max_size : ℕ) (x : ℤ) (s : Bytes) (e : String) → sized max_size x s ≡ panic e → ⊥
sized_returns max_size (negsuc n) s e h = cc
sized_returns max_size (pos n) s e h = ground arith

read_message_returns : (s : Bytes) (e : String) → read_message s ≡ panic e → ⊥
unfolding read_message read_proto_msg read_varint
read_message_returns s e h = first (read_uvarint 0 1 0 s) refl h
  where
    first :
        (r : Result (ℕ × Bytes))
        → read_uvarint 0 1 0 s ≡ r
        → ((r >>= λ (q : ℕ × Bytes). ok (unzigzag q.0, q.1)) >>= λ (q : ℤ × Bytes).
            sized max_msg_size q.0 q.1)
          ≡ panic e
        → ⊥
    first (ok q) eq h' = sized_returns max_msg_size (unzigzag q.0) q.1 e h'
    first (err m) eq h' = cc
    first (panic m) eq h' = read_uvarint_returns 0 1 0 s m eq

read_loop-Reads :
    (fuel : ℕ) (s : Bytes) → length s < fuel → Reads s (read_loop fuel s).0 (read_loop fuel s).1
unfolding read_loop
read_loop-Reads zero s h = absurd (omega arith)
read_loop-Reads (suc fuel) s h = next (read_message s) refl (λ r k. read_loop-Reads fuel r k)
  where
    next :
        (r : Result (Bytes × Bytes))
        → read_message s ≡ r
        → ((rest : Bytes)
            → length rest < fuel
            → Reads rest (read_loop fuel rest).0 (read_loop fuel rest).1)
        → let out : List Bytes × String = elim r as (λ x. List Bytes × String) [
          | ok q ↦ cons_first q.0 (read_loop fuel q.1)
          | err e ↦ ([], e)
          | panic e ↦ ([], e)
        ] in
          Reads s out.0 out.1
    next (ok (m, rest)) e more = goes_on e (
        more rest (
          omega
            (arith, h, (read_proto_msg_bounds max_msg_size s m rest (unfold read_message in e)).1)))
    next (err m) e more = stops e
    next (panic m) e more = absurd (read_message_returns s m e)

-- The loop ends on every stream: it has read what a reading without fuel reads, up to the error of
-- the first call that fails.
pub read_all-Reads : (s : Bytes) → Reads s (read_all s).0 (read_all s).1
unfolding read_all
read_all-Reads s = read_loop-Reads (length s + 1) s (omega arith)

-- The stream of some messages, one behind the other.
abbrev pub frames : List Bytes → Bytes
frames [] = []
frames (m ∷ ms) = frame m ++ frames ms

-- Messages that are written one behind the other.
unfoldable pub send_all : Bytes → List Bytes → Result Bytes
unfolding encode_byte_slice
send_all sink [] = ok sink
send_all sink (m ∷ ms) = encode_byte_slice none none sink m >>= λ sink'. send_all sink' ms

send_all-frames : (sink : Bytes) (ms : List Bytes) → send_all sink ms ≡ ok (sink ++ frames ms)
unfolding send_all
send_all-frames sink [] = ap ok (sym (append-nil sink))
send_all-frames sink (m ∷ ms) =
    ap (λ r. r >>= λ sink'. send_all sink' ms) (encode_byte_slice-frame sink m)
    ∙ send_all-frames (sink ++ frame m) ms
    ∙ ap ok (append_assoc sink (frame m) (frames ms))

read_nothing : read_message [] ≡ err "EOF"
unfolding read_message read_proto_msg read_varint read_uvarint
read_nothing = refl

read_loop-frames :
    (fuel : ℕ) (ms : List Bytes)
    → All (λ m. length m ≤ max_msg_size) ms
    → length (frames ms) < fuel
    → read_loop fuel (frames ms) ≡ (ms, "EOF")
unfolding read_loop
read_loop-frames zero ms small h = absurd (omega arith)
read_loop-frames (suc fuel) [] small h = rw (read_nothing, read_loop) refl
read_loop-frames (suc fuel) (m ∷ ms) (fits, small) h =
    let e : read_message (frame m ++ frames ms) ≡ ok (m, frames ms) =
      unfold read_message in read_proto_msg-frame max_msg_size m (frames ms) (omega arith) fits in
    let shorter =
      (read_proto_msg_bounds max_msg_size _ m (frames ms) (unfold read_message in e)).1 in
    rw (e, read_loop)
      (ap (cons_first m) (read_loop-frames fuel ms small (omega (arith, h, shorter))))

-- Messages that were written one behind the other, none above the limit, are read in their order,
-- and then the end of the stream.
pub read_all-send_all :
    (ms : List Bytes)
    → All (λ m. length m ≤ max_msg_size) ms
    → (send_all [] ms >>= λ s. ok (read_all s)) ≡ ok (ms, "EOF")
unfolding read_all
read_all-send_all ms small =
    ap (λ r. r >>= λ s. ok (read_all s)) (send_all-frames [] ms)
    ∙ ap ok (read_loop-frames (length (frames ms) + 1) ms small (omega arith))
