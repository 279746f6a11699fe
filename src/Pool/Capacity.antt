-- ===== src/Pool/Capacity.antt =====
-- The pool's count of connections.
use bclib.Base.{
  ℕ, suc, ◌+◌, ◌-◌, ◌≤◌, ◌≡◌, refl, ap, ◌∙◌, false, Option, none, some, List, [], ◌∷◌, ◌++◌, ◌==◌,
  length, length-append, arith, if◌then◌else◌, Bool-cases, inl, inr,
}
use bclib.Go.Int.{ℤ, pos, ◌+ℤ◌, ◌-ℤ◌, ◌≤ℤ◌, pos-add}
use bclib.Pool.{
  Pool, member, add_busy, delete, remove_first, leb_ℤ, take_front, get_client, release_client,
  close_cb,
}

abbrev pub count : ℕ → List ℕ → ℕ
count c [] = 0
count c (d ∷ ds) = (if d == c then 1 else 0) + count c ds

count_self : (c : ℕ) (xs : List ℕ) → count c (c ∷ xs) ≡ suc (count c xs)
count_self c xs = ground arith

pub count-append : (c : ℕ) (xs ys : List ℕ) → count c (xs ++ ys) ≡ count c xs + count c ys
count-append c [] ys = omega arith
count-append c (x ∷ xs) ys = omega (arith, count-append c xs ys)

pub count-delete :
    (c d : ℕ) (xs : List ℕ) → count c (delete d xs) ≡ (if d == c then 0 else count c xs)
count-delete c d [] = ground arith
count-delete c d (x ∷ xs) = ground (arith, count-delete c d xs)

pub length-delete : (c : ℕ) (xs : List ℕ) → length (delete c xs) + count c xs ≡ length xs
length-delete c [] = omega arith
length-delete c (x ∷ xs) = ground (arith, length-delete c xs)

pub length-remove_first :
    (c : ℕ) (xs : List ℕ)
    → length (remove_first c xs) + (if count c xs == 0 then 0 else 1) ≡ length xs
length-remove_first c [] = omega arith
length-remove_first c (x ∷ xs) = ground (arith, length-remove_first c xs)

pub count-remove_first :
    (c d : ℕ) (xs : List ℕ)
    → count c (remove_first d xs) ≡ (if d == c then count c xs - 1 else count c xs)
count-remove_first c d [] = ground arith
count-remove_first c d (x ∷ xs) = ground (arith, count-remove_first c d xs)

pub member-count : (c : ℕ) (xs : List ℕ) → count c xs ≡ 0 → member c xs ≡ false
member-count c [] h = refl
member-count c (x ∷ xs) h = ground (arith, member-count c xs)

pub none_counted : (xs : List ℕ) → ((c : ℕ) → count c xs ≡ 0) → xs ≡ []
none_counted [] h = refl
none_counted (x ∷ xs) h = absurd (ground (arith, h x))

-- `counted`: the current count is that of the clients, lent or idle. `once`: no client twice.
pub record Inv (p : Pool) : Type 0 where
  pub counted : p.cur_cap ≡ pos (length p.idle + length p.busy)
  pub within : p.cur_cap ≤ℤ p.max_cap
  pub once : (c : ℕ) → count c p.idle + count c p.busy ≤ 1

-- A client that NewClient made is new.
abbrev pub IsFresh : Pool → Option ℕ → Type 0
IsFresh p none = Unit {0}
IsFresh p (some c) = count c p.idle + count c p.busy ≡ 0

take_front-Inv : (p : Pool) (xs : List ℕ) → p.idle ≡ xs → Inv p → Inv (take_front p xs).0
take_front-Inv p [] e inv = inv
take_front-Inv p (c ∷ rest) e inv = record {
  counted = rw taken (inv.counted ∙ ap pos (moved e));
  within = inv.within;
  once = λ d. rw taken (kept d e);
}
  where
    lone : p.idle ≡ c ∷ rest → count c p.busy ≡ 0
    lone e' = omega (arith, inv.once c, ap (count c) e', count_self c rest)

    taken : add_busy c p.busy ≡ c ∷ p.busy
    taken = rw (member-count c p.busy (lone e))

    moved : p.idle ≡ c ∷ rest → length p.idle + length p.busy ≡ length rest + suc (length p.busy)
    moved e' = omega (arith, ap length e')

    kept : (d : ℕ) → p.idle ≡ c ∷ rest → count d rest + count d (c ∷ p.busy) ≤ 1
    kept d e' = omega (arith, inv.once d, ap (count d) e')

abbrev grown : Pool → ℕ → Pool
grown p c = record p { idle = p.idle ++ c ∷ []; cur_cap = p.cur_cap +ℤ pos 1 }

room_left : (n : ℕ) (m : ℤ) → leb_ℤ m (pos n) ≡ false → pos (n + 1) ≤ℤ m
room_left n m h = ground arith

grown-Inv :
    (p : Pool) (c : ℕ)
    → IsFresh p (some c)
    → leb_ℤ p.max_cap p.cur_cap ≡ false
    → Inv p
    → Inv (grown p c)
grown-Inv p c fresh room inv = record {
  counted = more ∙ ap pos (omega (arith, length-append p.idle (c ∷ [])));
  within = rw more (room_left _ p.max_cap (rw inv.counted at room));
  once = λ d. ground (arith, inv.once d, count-append d p.idle (c ∷ []));
}
  where
    more : p.cur_cap +ℤ pos 1 ≡ pos (length p.idle + length p.busy + 1)
    more = ap (λ k. k +ℤ pos 1) inv.counted ∙ pos-add _ 1

get_client-Inv : (p : Pool) (dial : Option ℕ) → IsFresh p dial → Inv p → Inv (get_client p dial).0
unfolding get_client
get_client-Inv p none fresh inv = elim (Bool-cases (length p.idle == 0)) [
  | inl e ↦ elim (Bool-cases (leb_ℤ p.max_cap p.cur_cap)) [
    | inl full ↦ rw (e, full) inv
    | inr room ↦ rw (e, room) inv
  ]
  | inr e ↦ rw e (take_front-Inv p p.idle refl inv)
]
get_client-Inv p (some c) fresh inv = elim (Bool-cases (length p.idle == 0)) [
  | inl e ↦ elim (Bool-cases (leb_ℤ p.max_cap p.cur_cap)) [
    | inl full ↦ rw (e, full) inv
    | inr room ↦
        rw (e, room)
          (take_front-Inv (grown p c) (p.idle ++ c ∷ []) refl (grown-Inv p c fresh room inv))
  ]
  | inr e ↦ rw e (take_front-Inv p p.idle refl inv)
]

release_client-Inv : (p : Pool) (c : ℕ) → count c p.busy ≡ 1 → Inv p → Inv (release_client p c)
unfolding release_client
release_client-Inv p c lent inv = record {
  counted =
      inv.counted ∙ ap pos (omega (arith, length-append p.idle (c ∷ []), length-delete c p.busy));
  within = inv.within;
  once = λ d. released d;
}
  where
    released : (d : ℕ) → count d (p.idle ++ c ∷ []) + count d (delete c p.busy) ≤ 1
    released d = ground (arith, inv.once d, count-append d p.idle (c ∷ []), count-delete d c p.busy)

one_less : (n k : ℕ) → n ≡ suc k → pos n -ℤ pos 1 ≡ pos k
unfolding ◌-ℤ◌
one_less n k e = ground arith

less_within : (n k : ℕ) (m : ℤ) → n ≡ suc k → pos n ≤ℤ m → pos k ≤ℤ m
less_within n k m e h = omega arith

close_cb-Inv : (p : Pool) (c : ℕ) → count c p.idle + count c p.busy ≡ 1 → Inv p → Inv (close_cb p c)
unfolding close_cb
close_cb-Inv p c known inv = record {
  counted = ap (λ k. k -ℤ pos 1) inv.counted ∙ one_less _ _ shrunk;
  within =
      rw (ap (λ k. k -ℤ pos 1) inv.counted ∙ one_less _ _ shrunk)
        (less_within _ _ p.max_cap shrunk (rw inv.counted at inv.within));
  once = λ d. closed d;
}
  where
    shrunk :
        length p.idle + length p.busy
        ≡ suc (length (remove_first c p.idle) + length (delete c p.busy))
    shrunk = ground (arith, length-remove_first c p.idle, length-delete c p.busy)

    closed : (d : ℕ) → count d (remove_first c p.idle) + count d (delete c p.busy) ≤ 1
    closed d = ground (arith, inv.once d, count-remove_first d c p.idle, count-delete d c p.busy)

-- What may happen to a pool whose clients are used as intended: a client is asked for, a client
-- that is lent comes back, a client that the pool knows has lost its connection.
pub data Step (p : Pool) : Pool → Type 0 where
  gets : (dial : Option ℕ) → IsFresh p dial → Step p (get_client p dial).0
  releases : (c : ℕ) → count c p.busy ≡ 1 → Step p (release_client p c)
  closes : (c : ℕ) → count c p.idle + count c p.busy ≡ 1 → Step p (close_cb p c)

pub data Reach (p : Pool) : Pool → Type 0 where
  here : Reach p p
  next : {q r : Pool} → Reach p q → Step q r → Reach p r

Step-Inv : {p q : Pool} → Step p q → Inv p → Inv q
Step-Inv {p} (gets dial fresh) inv = get_client-Inv p dial fresh inv
Step-Inv {p} (releases c lent) inv = release_client-Inv p c lent inv
Step-Inv {p} (closes c known) inv = close_cb-Inv p c known inv

-- On every such history the count of a pool is the number of its clients, stays within the limit,
-- and no client is held twice.
pub Reach-Inv : {p q : Pool} → Reach p q → Inv p → Inv q
Reach-Inv here inv = inv
Reach-Inv (next r st) inv = Step-Inv st (Reach-Inv r inv)

-- A client whose connection broke while it was lent has left the count; when its user gives it
-- back, it is idle again, and one more than the count.
release_client-close_cb :
    (p : Pool) (c : ℕ)
    → Inv p
    → count c p.busy ≡ 1
    → let q = release_client (close_cb p c) c in
      (count c q.idle ≡ 1) × (q.cur_cap +ℤ pos 1 ≡ pos (length q.idle + length q.busy))
unfolding release_client close_cb
release_client-close_cb p c inv lent = (again, counted')
  where
    not_idle : count c p.idle ≡ 0
    not_idle = omega (arith, inv.once c)

    again : count c (remove_first c p.idle ++ c ∷ []) ≡ 1
    again = ground (
      arith,
      not_idle,
      count-append c (remove_first c p.idle) (c ∷ []),
      count-remove_first c c p.idle,
    )

    left : ℕ
    left = length (remove_first c p.idle) + length (delete c p.busy)

    shrunk : length p.idle + length p.busy ≡ suc left
    shrunk = ground (arith, not_idle, length-remove_first c p.idle, length-delete c p.busy)

    gone : count c (delete c p.busy) ≡ 0
    gone = ground (arith, count-delete c c p.busy)

    counted' :
        p.cur_cap -ℤ pos 1 +ℤ pos 1
        ≡ pos (length (remove_first c p.idle ++ c ∷ []) + length (delete c (delete c p.busy)))
    counted' =
        ap (λ k. k -ℤ pos 1 +ℤ pos 1) inv.counted
        ∙ ap (λ k. k +ℤ pos 1) (one_less _ left shrunk)
        ∙ pos-add left 1
        ∙ ap pos (
            omega (
              arith,
              gone,
              length-append (remove_first c p.idle) (c ∷ []),
              length-delete c (delete c p.busy),
            ))
