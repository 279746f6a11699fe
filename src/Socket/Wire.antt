-- ===== src/Socket/Wire.antt =====
-- socket/types.go: messages on a stream, each behind its length as a varint. A stream that is read
-- is the list of the bytes to come; a call that fails has lost its place in it. A write may fail
-- where the environment says so.
pub mod Frames
use bclib.Base.{
  ℕ, zero, suc, ◌+◌, ◌≤◌, ◌<◌, ◌≡◌, Bool, ◌||◌, String, Option, none, some, List, [], ◌∷◌, ◌++◌,
  ltb, leb, ◌==◌, length, take, drop, if◌then◌else◌,
}
use bclib.Go.Result.{Result, ok, err, panic, ◌>>=◌, ◌>>◌}
use bclib.Go.Int.{ℤ, pos, negsuc}
use bclib.Go.Text.{Bytes}
use bclib.Socket.Varint.{put_varint, read_varint}

abbrev pub max_msg_size : ℕ
max_msg_size = 104857600

-- w.Write(bz)
abbrev pub write : Option String → Bytes → Bytes → Result Bytes
write (some e) sink bz = err e
write none sink bz = ok (sink ++ bz)

unfoldable pub encode_varint : Option String → Bytes → ℤ → Result Bytes
encode_varint fault sink i = write fault sink (put_varint i)

-- The two writes may fail on their own.
unfoldable pub encode_byte_slice : Option String → Option String → Bytes → Bytes → Result Bytes
unfolding encode_varint
encode_byte_slice fault fault' sink bz = do
  sink' ← encode_varint fault sink (pos (length bz))
  write fault' sink' bz

unfoldable pub write_message :
    {A : Type 0} → (A → Result Bytes) → Option String → Option String → Bytes → A → Result Bytes
unfolding encode_byte_slice
write_message marshal fault fault' sink message = do
  res_bytes ← marshal message
  encode_byte_slice fault fault' sink res_bytes

-- io.ReadFull of `size` bytes.
abbrev pub read_full : ℕ → Bytes → Result (Bytes × Bytes)
read_full size s =
    if leb size (length s)
    then ok (take size s, drop size s)
    else if length s == 0
    then err "EOF"
    else err "unexpected EOF"

abbrev pub sized : ℕ → ℤ → Bytes → Result (Bytes × Bytes)
sized max_size (negsuc n) s = err "short buffer"
sized max_size (pos n) s = if ltb max_size n then err "short buffer" else read_full n s

unfoldable pub read_proto_msg : ℕ → Bytes → Result (Bytes × Bytes)
read_proto_msg max_size s = read_varint s >>= λ (r : ℤ × Bytes). sized max_size r.0 r.1

unfoldable pub read_message : Bytes → Result (Bytes × Bytes)
unfolding read_proto_msg
read_message s = read_proto_msg max_msg_size s

-- The loops that read until a call fails (readRequest of the server and recvResponseRoutine of the
-- client): what was read, and the error. On fuel; a message takes at least one byte.
abbrev pub cons_first : Bytes → List Bytes × String → List Bytes × String
cons_first m (ms, e) = (m ∷ ms, e)

unfoldable pub read_loop : ℕ → Bytes → List Bytes × String
unfolding read_message
read_loop zero s = ([], "out of fuel")
read_loop (suc fuel) s = elim (read_message s) [
  | ok r ↦ cons_first r.0 (read_loop fuel r.1)
  | err e ↦ ([], e)
  | panic e ↦ ([], e)
]

unfoldable pub read_all : Bytes → List Bytes × String
unfolding read_loop
read_all s = read_loop (length s + 1) s
