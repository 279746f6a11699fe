-- ===== src/Algorithm/Words/Reading.antt =====
-- What the integer conversions read back.
use bclib.Base.{
  ℕ, ◌-◌, ◌%◌, ◌^◌, ◌<◌, ◌≤◌, ◌≡◌, ap, ◌∙◌, ◌++◌, arith, length, replicate, ltb, if◌then◌else◌,
  length-replicate, length-append, lt→ltb, take_all,
}
use bclib.Go.Result.{ok, panic, bad_slice}
use bclib.Go.Int.{ℤ, pos, negsuc, wrap, signed32, ◌≤ℤ◌}
use bclib.Go.Bytes.{put_uint, of_bytes, of_bytes-zeros, of_bytes-put_uint, length-put_uint}
use bclib.Go.Text.{Bytes}
use bclib.Algorithm.Words.{int_to_bytes, bytes_to_int32, bytes_to_int, bytes_to_uint64}

-- Shorter input counts as if zeros stood in front of it.
pub bytes_to_int32_short :
    (b : Bytes) → length b < 8 → bytes_to_int32 b ≡ signed32 (of_bytes b % 2 ^ 32)
unfolding bytes_to_int32
bytes_to_int32_short b h =
    rw (lt→ltb (length b) 8 h, take_all {n = 8} (replicate (8 - length b) 0 ++ b) padded)
      (ap (λ k. signed32 (k % 2 ^ 32)) (of_bytes-zeros (8 - length b) b))
  where
    padded : length (replicate (8 - length b) 0 ++ b) ≤ 8
    padded = omega (
      arith,
      length-append (replicate (8 - length b) 0) b,
      length-replicate {A = ℕ} (8 - length b) 0,
    )

-- Writing keeps 32 bits of the number, and reading takes them with their sign.
pub bytes_to_int-int_to_bytes : (n : ℤ) → bytes_to_int (int_to_bytes n) ≡ signed32 (wrap n 32)
unfolding bytes_to_int int_to_bytes
bytes_to_int-int_to_bytes n =
    bytes_to_int32_short (put_uint 4 (wrap n 32)) (rw (length-put_uint 4 (wrap n 32)) (omega arith))
    ∙ ap signed32 (ap (λ k. k % 2 ^ 32) (of_bytes-put_uint 4 (wrap n 32) (wrap-lt n)) ∙ small n)
  where
    wrap-lt : (m : ℤ) → wrap m 32 < 256 ^ 4
    wrap-lt (pos k) = omega arith
    wrap-lt (negsuc k) = omega arith

    small : (m : ℤ) → wrap m 32 % 2 ^ 32 ≡ wrap m 32
    small (pos k) = omega arith
    small (negsuc k) = omega arith

signed32-wrap :
    (n : ℤ) → negsuc (2 ^ 31 - 1) ≤ℤ n → n ≤ℤ pos (2 ^ 31 - 1) → signed32 (wrap n 32) ≡ n
signed32-wrap (pos k) lo hi = ground arith
signed32-wrap (negsuc k) lo hi = ground arith

-- On the range of int32 the two conversions are inverse.
pub int_round_trip :
    (n : ℤ) → negsuc (2 ^ 31 - 1) ≤ℤ n → n ≤ℤ pos (2 ^ 31 - 1) → bytes_to_int (int_to_bytes n) ≡ n
int_round_trip n lo hi = bytes_to_int-int_to_bytes n ∙ signed32-wrap n lo hi

-- Up to 8 bytes are read as one number; a longer slice panics.
pub bytes_to_uint64_cases :
    (b : Bytes)
    → bytes_to_uint64 b ≡ (if ltb 8 (length b) then panic bad_slice else ok (of_bytes b))
unfolding bytes_to_uint64
bytes_to_uint64_cases b =
    ap (λ k. if ltb 8 (length b) then panic bad_slice else ok k) (of_bytes-zeros (8 - length b) b)
