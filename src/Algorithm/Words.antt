-- ===== src/Algorithm/Words.antt =====
-- algorithm/algorithm.go: integers as big-endian bytes.
pub mod Reading
use bclib.Base.{
  ℕ, zero, suc, ◌+◌, ◌-◌, ◌*◌, ◌%◌, ◌^◌, ◌≤◌, ◌<◌, ◌≡◌, refl, sym, ap, ◌∙◌, ◌++◌, arith, length,
  take, replicate, ltb, leb, if◌then◌else◌, length-replicate, length-append, List,
}
use bclib.Go.Result.{Result, ok, panic, bad_slice, ◌>>=◌}
use bclib.Go.Int.{ℤ, pos, negsuc, wrap, signed32, signed64, ◌≤ℤ◌}
use bclib.Go.Bytes.{put_uint, of_bytes, of_bytes_from}
use bclib.Go.Text.{Bytes}

-- `int32(n)` keeps 32 bits, and binary.Write appends them big-endian.
unfoldable pub int_to_bytes : ℤ → Bytes
int_to_bytes n = put_uint 4 (wrap n 32)

-- binary.Read takes 8 bytes of the buffer; what the buffer has beyond those is not read.
unfoldable pub bytes_to_int32 : Bytes → ℤ
bytes_to_int32 b =
    let buffer = if ltb (length b) 8 then replicate (8 - length b) 0 ++ b else b in
    signed32 (of_bytes (take 8 buffer) % 2 ^ 32)

unfoldable pub bytes_to_int : Bytes → ℤ
bytes_to_int b = bytes_to_int32 b

unfoldable pub bytes_to_uint32 : Bytes → ℕ
bytes_to_uint32 b = wrap (bytes_to_int32 b) 32

-- `tx8[len(tx8)-len(b):]` panics where `b` is longer than 8 bytes.
unfoldable pub bytes_to_uint64 : Bytes → Result ℕ
bytes_to_uint64 b =
    if ltb 8 (length b) then panic bad_slice else ok (of_bytes (replicate (8 - length b) 0 ++ b))

unfoldable pub bytes_to_int64 : Bytes → Result ℤ
bytes_to_int64 b = do u ← bytes_to_uint64 b; ok (signed64 u)
