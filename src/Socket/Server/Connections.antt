-- ===== src/Socket/Server/Connections.antt =====
-- socket/server.go: the server's list of connections, with the goroutines that read from them, and the
-- address that the server listens at. A connection is the number of its pointer.
pub mod Tracked
use bclib.Base.{
  ℕ, ◌+◌, ◌<◌, ◌≡◌, sym, ap, ◌∙◌, Option, none, some, List, [], ◌∷◌, ◌++◌, ◌==◌, ==_iff, append-nil,
  append_assoc, drop, arith, if◌then◌else◌, Bool-cases, inl, inr,
}
use bclib.Go.Text.{Bytes, text, has_prefix, Lacks}
use bclib.Pool.{remove_first}
use bclib.Pool.Capacity.{count, count-append, count-remove_first, none_counted}

-- strings.SplitN(addr, "://", 2), as the proto and the address; tcp where there is no separator.
unfoldable pub cut_address : Bytes → Bytes → Option (Bytes × Bytes)
unfolding has_prefix
cut_address before [] = none
cut_address before (c ∷ s) =
    let rest = cut_address (before ++ c ∷ []) s in
    if has_prefix (c ∷ s) (text "://") then some (before, drop 3 (c ∷ s)) else rest

abbrev pub or_tcp : Bytes → Option (Bytes × Bytes) → Bytes × Bytes
or_tcp addr none = (text "tcp", addr)
or_tcp addr (some parts) = parts

unfoldable pub listen_at : Bytes → Bytes × Bytes
unfolding cut_address
listen_at addr = or_tcp addr (cut_address [] addr)

-- `accepted`: a connection that Start put on the list and whose goroutine has not begun. `closed`:
-- connections that are closed and still on the list.
pub record Server : Type 0 where
  pub conn_list : List ℕ
  pub accepted : Option ℕ
  pub reading : List ℕ
  pub closed : List ℕ

abbrev pub new_server : Server
new_server = record { conn_list = []; accepted = none; reading = []; closed = [] }

-- The steps of Start: it saves the connection, and makes the goroutine of readRequest. Then those of
-- `close`, which readRequest defers: the connection is closed, and taken off the list under the mutex.
unfoldable pub save : Server → ℕ → Server
save s c = record s { conn_list = s.conn_list ++ c ∷ []; accepted = some c }

unfoldable pub begin : Server → ℕ → Server
begin s c = record s { accepted = none; reading = c ∷ s.reading }

unfoldable pub close : Server → ℕ → Server
close s c = record s { reading = remove_first c s.reading; closed = c ∷ s.closed }

unfoldable pub forget : Server → ℕ → Server
forget s c = record s { conn_list = remove_first c s.conn_list; closed = remove_first c s.closed }

pub data Step (s : Server) : Server → Type 0 where
  saves : (c : ℕ) → s.accepted ≡ none → Step s (save s c)
  begins : (c : ℕ) → s.accepted ≡ some c → Step s (begin s c)
  closes : (c : ℕ) → 0 < count c s.reading → Step s (close s c)
  forgets : (c : ℕ) → 0 < count c s.closed → Step s (forget s c)

pub data Served : Server → Type 0 where
  opened : Served new_server
  next : {s t : Server} → Served s → Step s t → Served t
