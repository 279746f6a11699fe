-- ===== src/Docker/Names.antt =====
-- The names of containers (dockerlib/dockerlib_linux.go).
use bclib.Base.{
  ℕ, Bool, true, false, ◌&&◌, Option, none, some, List, [], ◌∷◌, ◌++◌, leb, ltb, ◌==◌, length, take,
  if◌then◌else◌,
}
use bclib.Go.Result.{Result, ok, panic, ◌>>=◌}
use bclib.Go.Text.{Bytes}
use bclib.Go.Format.{hex_encode}

-- strings.ReplaceAll(s, c, "") for one byte.
unfoldable pub without_byte : ℕ → Bytes → Bytes
without_byte c [] = []
without_byte c (d ∷ s) = let rest = without_byte c s in if d == c then rest else d ∷ rest

unfoldable pub format_container_name : Bytes → Bytes
unfolding without_byte
format_container_name name = without_byte b']' (without_byte b'[' name)

-- What stands behind the first colon, if there is one.
unfoldable pub after_colon : Bytes → Option Bytes
after_colon [] = none
after_colon (c ∷ s) = let rest = after_colon s in if c == b':' then some s else rest

abbrev pub or_whole : Bytes → Option Bytes → Bytes
or_whole id none = id
or_whole id (some s) = s

unfoldable pub truncate_id : Bytes → Bytes
unfolding after_colon
truncate_id id =
    let id' = or_whole id (after_colon id) in if ltb 12 (length id') then take 12 id' else id'

abbrev pub all_digits : Bytes → Bool
all_digits [] = true
all_digits (c ∷ s) = leb b'0' c && leb c b'9' && all_digits s

-- strconv.ParseInt(s, 10, 64) of at most twelve bytes returns no error; a hexadecimal text has no sign.
abbrev pub is_number : Bytes → Bool
is_number [] = false
is_number (c ∷ s) = all_digits (c ∷ s)

-- The loop of generateID over the blocks of 32 bytes that the reader gives. When it gives no more,
-- ReadFull fails.
unfoldable pub generate_id : List Bytes → Result Bytes
unfolding truncate_id hex_encode
generate_id [] = panic "EOF"
generate_id (b ∷ blocks) =
    let rest = generate_id blocks in
    if is_number (truncate_id (hex_encode b)) then rest else ok (hex_encode b)

unfoldable pub general_container_name : Bytes → List Bytes → Bytes → Result Bytes
unfolding generate_id
general_container_name prefix random name =
    if length name == 0 then (generate_id random >>= λ n. ok (prefix ++ n)) else ok (prefix ++ name)

-- SetPrefix
unfoldable pub set_prefix : Bytes → Bytes
unfolding format_container_name
set_prefix p = format_container_name p
