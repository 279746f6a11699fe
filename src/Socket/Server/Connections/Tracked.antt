-- ===== src/Socket/Server/Connections/Tracked.antt =====
-- The connections that the server keeps, and the address it listens at.
use bclib.Base.{
  ℕ, ◌+◌, ◌≡◌, sym, ap, ◌∙◌, Option, none, some, [], ◌∷◌, ◌++◌, ◌==◌, ==_iff, append-nil,
  append_assoc, arith, if◌then◌else◌, Bool-cases, inl, inr,
}
use bclib.Go.Text.{Bytes, text, Lacks}
use bclib.Pool.Capacity.{count, count-append, count-remove_first, none_counted}
use bclib.Socket.Server.Connections.{
  cut_address, or_tcp, listen_at, Server, save, begin, close, forget, Step, saves, begins, closes,
  forgets, Served, opened, next,
}

abbrev pub held : ℕ → Option ℕ → ℕ
held c none = 0
held c (some d) = if d == c then 1 else 0

-- The list has a connection as often as goroutines have it.
abbrev pub IsTracked : Server → Type 0
IsTracked s =
    (c : ℕ) → count c s.conn_list ≡ held c s.accepted + (count c s.reading + count c s.closed)

Step-IsTracked : {s t : Server} → Step s t → IsTracked s → IsTracked t
unfolding save begin close forget
Step-IsTracked {s} (saves d idle) inv c =
    count-append c s.conn_list (d ∷ []) ∙ omega (arith, inv c, ap (held c) idle)
Step-IsTracked {s} (begins d there) inv c = omega (arith, inv c, ap (held c) there)
Step-IsTracked {s} (closes d there) inv c =
    ground (arith, inv c, count-remove_first c d s.reading, ==_iff d c)
Step-IsTracked {s} (forgets d there) inv c =
    ground (
      arith,
      inv c,
      count-remove_first c d s.conn_list,
      count-remove_first c d s.closed,
      ==_iff d c,
    )

-- At any time the list of a server has a connection as often as Start or a goroutine has it.
pub Served-IsTracked : {s : Server} → Served s → IsTracked s
Served-IsTracked opened c = omega arith
Served-IsTracked (next r st) c = Step-IsTracked st (Served-IsTracked r) c

-- When no connection is open, the list is empty.
pub Served-empty :
    {s : Server} → Served s → s.accepted ≡ none → s.reading ≡ [] → s.closed ≡ [] → s.conn_list ≡ []
Served-empty {s} r a b d =
    none_counted s.conn_list
      (λ c. omega (arith, Served-IsTracked r c, ap (held c) a, ap (count c) b, ap (count c) d))

cut_address-proto :
    (before p a : Bytes)
    → Lacks b':' p
    → cut_address before (p ++ text "://" ++ a) ≡ some (before ++ p, a)
unfolding cut_address
cut_address-proto before [] a h = ap (λ b. some (b, a)) (sym (append-nil before))
cut_address-proto before (c ∷ p) a h = elim (Bool-cases (c == b':')) [
  | inl colon ↦ absurd (h.0 ((==_iff c b':').0 colon))
  | inr other ↦ rw other (
      cut_address-proto (before ++ c ∷ []) p a h.1
      ∙ ap (λ b. some (b, a)) (append_assoc before (c ∷ []) p))
]

-- A listening address with a protocol before :// is that protocol and what stands behind.
pub listen_at-proto : (p a : Bytes) → Lacks b':' p → listen_at (p ++ text "://" ++ a) ≡ (p, a)
unfolding listen_at
listen_at-proto p a h = ap (or_tcp (p ++ text "://" ++ a)) (cut_address-proto [] p a h)
