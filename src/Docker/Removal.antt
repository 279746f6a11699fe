-- ===== src/Docker/Removal.antt =====
-- Containers that Kill and Reset remove.
use bclib.Base.{
  ◌≡◌, refl, sym, ap, ◌∙◌, Bool, true, false, ◌&&◌, ◌||◌, List, [], ◌∷◌, bytes_eq, if◌then◌else◌,
  Bool-cases, inl, inr,
}
use bclib.Go.Result.{Result, ok, err, panic, ◌>>=◌, >>=-eq-ok, ok-injective}
use bclib.Go.Text.{Bytes, has_prefix}
use bclib.Docker.{Container, Daemon, any_name, prefixed_ids, on_error, kill_by_id, kill_all, reset}
use bclib.Docker.Names.{format_container_name}

abbrev pub without_id : Bytes → List Container → List Container
without_id id [] = []
without_id id (c ∷ cs) = let rest = without_id id cs in if bytes_eq c.id id then rest else c ∷ rest

-- What the daemon documents of a removal that returns no error.
pub record IsDaemon {W : Type 0} (d : Daemon W) : Type 0 where
  pub container_list-remove :
      (force : Bool) (id : Bytes) (cs : List Container) (w w' : W)
      → d.container_remove force id w ≡ ok w'
      → d.container_list w ≡ ok cs
      → d.container_list w' ≡ ok (without_id id cs)

-- A name of the container, without its slash, passes the test.
abbrev pub named : (Bytes → Bool) → List Bytes → Bool
named test [] = false
named test ([] ∷ names) = named test names
named test ((slash ∷ name) ∷ names) = test name || named test names

-- Some container has the id and such a name.
abbrev pub doomed : (Bytes → Bool) → List Container → Bytes → Bool
doomed test [] id = false
doomed test (c ∷ cs) id = (named test c.names && bytes_eq id c.id) || doomed test cs id

-- The containers that are left when those with a doomed id go.
abbrev pub survivors : (Bytes → Bool) → List Container → List Container → List Container
survivors test all [] = []
survivors test all (c ∷ cs) =
    let rest = survivors test all cs in if doomed test all c.id then rest else c ∷ rest

any_name-named :
    (test : Bytes → Bool) (names : List Bytes) (b : Bool)
    → any_name test names ≡ ok b
    → b ≡ named test names
unfolding any_name
any_name-named test [] b h = sym (ok-injective h)
any_name-named test ([] ∷ names) b h = cc
any_name-named test ((slash ∷ name) ∷ names) b h = elim (Bool-cases (test name)) [
  | inl hit ↦ rw hit (sym (ok-injective (rw hit at h)))
  | inr miss ↦ rw miss (any_name-named test names b (rw miss at h))
]

abbrev member : Bytes → List Bytes → Bool
member x [] = false
member x (y ∷ ys) = bytes_eq x y || member x ys

prefixed_ids-doomed :
    (prefix : Bytes) (cs : List Container) (ids : List Bytes) (id : Bytes)
    → prefixed_ids prefix cs ≡ ok ids
    → member id ids ≡ doomed (λ rest. has_prefix rest prefix) cs id
unfolding prefixed_ids
prefixed_ids-doomed prefix [] ids id h = ap (member id) (sym (ok-injective h))
prefixed_ids-doomed prefix (c ∷ cs) ids id h =
    let (found, f, h₁) = >>=-eq-ok (any_name (λ rest. has_prefix rest prefix) c.names) _ h in
    let (more, m, h₂) = >>=-eq-ok (prefixed_ids prefix cs) _ h₁ in
    ap (member id) (sym (ok-injective h₂))
    ∙ split found more
    ∙ ap (λ t. (t && bytes_eq id c.id) || member id more)
        (any_name-named (λ rest. has_prefix rest prefix) c.names found f)
    ∙ ap (λ t. (named (λ rest. has_prefix rest prefix) c.names && bytes_eq id c.id) || t)
        (prefixed_ids-doomed prefix cs more id m)
  where
    split :
        (found : Bool) (more : List Bytes)
        → member id (if found then c.id ∷ more else more)
          ≡ ((found && bytes_eq id c.id) || member id more)
    split true more = refl
    split false more = refl

abbrev without_all : List Bytes → List Container → List Container
without_all [] cs = cs
without_all (id ∷ ids) cs = without_all ids (without_id id cs)

without_all-cons :
    (ids : List Bytes) (c : Container) (cs : List Container)
    → without_all ids (c ∷ cs)
      ≡ (if member c.id ids then without_all ids cs else c ∷ without_all ids cs)
without_all-cons [] c cs = refl
without_all-cons (id ∷ ids) c cs = elim (Bool-cases (bytes_eq c.id id)) [
  | inl same ↦ rw same
  | inr other ↦ rw other (without_all-cons ids c (without_id id cs))
]

without_all-survivors :
    (test : Bytes → Bool) (all cs : List Container) (ids : List Bytes)
    → ((id : Bytes) → member id ids ≡ doomed test all id)
    → without_all ids cs ≡ survivors test all cs
without_all-survivors test all [] ids h = none_left ids
  where
    none_left : (ids : List Bytes) → without_all ids [] ≡ []
    none_left [] = refl
    none_left (id ∷ ids) = none_left ids
without_all-survivors test all (c ∷ cs) ids h =
    without_all-cons ids c cs
    ∙ ap (λ rest. if member c.id ids then rest else c ∷ rest)
        (without_all-survivors test all cs ids h)
    ∙ ap (λ t. if t then survivors test all cs else c ∷ survivors test all cs) (h c.id)

module _ {W : Type 0} (d : Daemon W) (law : IsDaemon d) where
  pub killed :
      (id : Bytes) (r : Result W) (w : W) (x : Bool × W)
      → on_error r (false, w) (λ w'. ok (true, w')) ≡ ok x
      → x.0 ≡ true
      → r ≡ ok x.1
  killed id (ok a) w x h t = ap (λ (y : Bool × W). ok y.1) (ok-injective h)
  killed id (err e) w x h t = cc (ap (λ (y : Bool × W). y.0) (ok-injective h))
  killed id (panic e) w x h t = cc

  list-kill_all :
      (ids : List Bytes) (cs : List Container) (w w' : W)
      → kill_all d ids w ≡ ok (true, w')
      → d.container_list w ≡ ok cs
      → d.container_list w' ≡ ok (without_all ids cs)
  unfolding kill_all
  list-kill_all [] cs w w' h l =
      ap (λ (y : Bool × W). d.container_list y.1) (sym (ok-injective h)) ∙ l
  list-kill_all (id ∷ ids) cs w w' h l =
      let (r, one, rest) = >>=-eq-ok (kill_by_id d id w) _ h in
      elim (Bool-cases r.0) [
        | inl done ↦ list-kill_all ids (without_id id cs) r.1 w' (rw done at rest) (
            law.container_list-remove true id cs w r.1
              (killed id (d.container_remove true id w) w r one done) l)
        | inr failed ↦ cc (ap (λ (y : Bool × W). y.0) (ok-injective (rw failed at rest)))
      ]

  -- After a Reset that returns true the daemon lists the containers that it listed before, less those
  -- with the id of a container of which a name starts with the prefix, brackets taken out of it.
  pub reset-survivors :
      (prefix : Bytes) (cs : List Container) (w w' : W)
      → d.container_list w ≡ ok cs
      → reset d prefix w ≡ ok (true, w')
      → d.container_list w'
        ≡ ok (survivors (λ rest. has_prefix rest (format_container_name prefix)) cs cs)
  unfolding reset
  reset-survivors prefix cs w w' l h =
      let formatted = format_container_name prefix in
      let h₁ =
        opened (d.new_env_client w)
          (λ u.
            on_error (d.container_list w) (false, w)
              (λ cs. prefixed_ids formatted cs >>= λ ids. kill_all d ids w))
          h in
      let h₂ : (prefixed_ids formatted cs >>= λ ids. kill_all d ids w) ≡ ok (true, w') =
        rw l at h₁ in
      let (ids, got, gone) = >>=-eq-ok (prefixed_ids formatted cs) _ h₂ in
      list-kill_all ids cs w w' gone l
      ∙ ap ok (
          without_all-survivors (λ rest. has_prefix rest formatted) cs cs ids
            (λ id. prefixed_ids-doomed formatted cs ids id got))
    where
      opened :
          (r : Result (Unit {0})) (f : Unit {0} → Result (Bool × W))
          → on_error r (false, w) f ≡ ok (true, w')
          → f tt ≡ ok (true, w')
      opened (ok u) f h = h
      opened (err e) f h = cc (ap (λ (y : Bool × W). y.0) (ok-injective h))
      opened (panic e) f h = cc
