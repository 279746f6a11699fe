-- ===== src/Docker/Killing.antt =====
-- Kill, and then Status under the same name.
use bclib.Base.{
  ◌≡◌, refl, sym, ap, ◌∙◌, Bool, true, false, ◌&&◌, not, and_true, not-true, List, [], ◌∷◌, ◌++◌,
  ◌==◌, length, bytes_eq, bytes_eq_refl, if◌then◌else◌, Bool-cases, inl, inr, arith, ◌<◌,
}
use bclib.Go.Result.{Result, ok, err, panic, ◌>>=◌, ok-injective}
use bclib.Go.Text.{Bytes}
use bclib.Docker.{
  Container, Daemon, any_name, find_id, on_error, get_container_id_by_name, kill_by_id, kill_found,
  kill, status,
}
use bclib.Docker.Names.{general_container_name}
use bclib.Docker.Removal.{IsDaemon, without_id, named, killed}

abbrev pub all_some : List Bytes → Bool
all_some [] = true
all_some (s ∷ ss) = not (length s == 0) && all_some ss

-- Every container has an id, and no name is empty.
abbrev pub well_formed : List Container → Bool
well_formed [] = true
well_formed (c ∷ cs) = not (length c.id == 0) && (all_some c.names && well_formed cs)

abbrev pub unnamed : (Bytes → Bool) → List Container → Bool
unnamed test [] = true
unnamed test (c ∷ cs) = not (named test c.names) && unnamed test cs

-- One id at most has a name that passes the test.
abbrev pub sole : (Bytes → Bool) → List Container → Bool
sole test [] = true
sole test (c ∷ cs) = if named test c.names then unnamed test (without_id c.id cs) else sole test cs

abbrev first_id : (Bytes → Bool) → List Container → Bytes
first_id test [] = []
first_id test (c ∷ cs) = let rest = first_id test cs in if named test c.names then c.id else rest

any_name-all_some :
    (test : Bytes → Bool) (names : List Bytes)
    → all_some names ≡ true
    → any_name test names ≡ ok (named test names)
unfolding any_name
any_name-all_some test [] h = refl
any_name-all_some test ([] ∷ names) h = cc
any_name-all_some test ((slash ∷ name) ∷ names) h = elim (Bool-cases (test name)) [
  | inl hit ↦ rw hit
  | inr miss ↦ rw miss (any_name-all_some test names (and_true _ _ h).1)
]

find_id-first_id :
    (n : Bytes) (cs : List Container)
    → well_formed cs ≡ true
    → find_id n cs ≡ ok (first_id (λ rest. bytes_eq rest n) cs)
unfolding find_id
find_id-first_id n [] h = refl
find_id-first_id n (c ∷ cs) h =
    let parts = and_true _ _ h in
    let others = and_true _ _ parts.1 in
    rw
      (
        any_name-all_some (λ rest. bytes_eq rest n) c.names others.0,
        not-true _ parts.0,
        find_id-first_id n cs others.1,
      )
      (split (named (λ rest. bytes_eq rest n) c.names) (first_id (λ rest. bytes_eq rest n) cs))
  where
    split :
        (b : Bool) (more : Bytes)
        → (if b && true then ok c.id else ok more) ≡ ok (if b then c.id else more)
    split true more = refl
    split false more = refl

well_formed-without_id :
    (id : Bytes) (cs : List Container)
    → well_formed cs ≡ true
    → well_formed (without_id id cs) ≡ true
well_formed-without_id id [] h = refl
well_formed-without_id id (c ∷ cs) h =
    let parts = and_true (not (length c.id == 0)) (all_some c.names && well_formed cs) h in
    let others = and_true (all_some c.names) (well_formed cs) parts.1 in
    let rest = well_formed-without_id id cs others.1 in
    elim (Bool-cases (bytes_eq c.id id)) [
      | inl same ↦ rw same rest
      | inr other ↦ rw (other, parts.0, others.0) rest
    ]

first_id-unnamed :
    (test : Bytes → Bool) (cs : List Container) → unnamed test cs ≡ true → first_id test cs ≡ []
first_id-unnamed test [] h = refl
first_id-unnamed test (c ∷ cs) h =
    let parts = and_true (not (named test c.names)) (unnamed test cs) h in
    rw (not-true (named test c.names) parts.0) (first_id-unnamed test cs parts.1)

-- Without the only container of the name nothing has it.
first_id-without_id :
    (test : Bytes → Bool) (cs : List Container)
    → sole test cs ≡ true
    → first_id test (without_id (first_id test cs) cs) ≡ []
first_id-without_id test [] h = refl
first_id-without_id test (c ∷ cs) h = elim (Bool-cases (named test c.names)) [
  | inl hit ↦
      let first : first_id test (c ∷ cs) ≡ c.id = rw hit in
      ap (λ id. first_id test (without_id id (c ∷ cs))) first
      ∙ ap (λ b. first_id test (if b then without_id c.id cs else c ∷ without_id c.id cs))
          (bytes_eq_refl c.id)
      ∙ first_id-unnamed test (without_id c.id cs) (rw hit at h)
  | inr miss ↦
      let first : first_id test (c ∷ cs) ≡ first_id test cs = rw miss in
      ap (λ id. first_id test (without_id id (c ∷ cs))) first
      ∙ (split (bytes_eq c.id (first_id test cs)) miss (first_id-without_id test cs (rw miss at h)))
]
  where
    split :
        (b : Bool)
        → named test c.names ≡ false
        → first_id test (without_id (first_id test cs) cs) ≡ []
        → first_id test
            (if b then without_id (first_id test cs) cs else c ∷ without_id (first_id test cs) cs)
          ≡ []
    split true m e = e
    split false m e = rw m e

module _ {W : Type 0} (d : Daemon W) (law : IsDaemon d) where
  -- Behind a kill of the first container of the name, none is found.
  find_id-kill_found :
      (n : Bytes) (cs : List Container) (w w' : W)
      → d.container_list w ≡ ok cs
      → well_formed cs ≡ true
      → sole (λ rest. bytes_eq rest n) cs ≡ true
      → kill_found d (first_id (λ rest. bytes_eq rest n) cs) w ≡ ok (true, w')
      → get_container_id_by_name d n w' ≡ ok []
  unfolding kill_found kill_by_id get_container_id_by_name
  find_id-kill_found n cs w w' l f s h =
      let test : Bytes → Bool = λ rest. bytes_eq rest n in
      let id = first_id test cs in
      elim (Bool-cases (length id == 0)) [
        | inl nothing ↦
            let same : w ≡ w' = ap (λ (y : Bool × W). y.1) (ok-injective (rw nothing at h)) in
            ap (λ v. on_error (d.container_list v) [] (λ cs. find_id n cs)) (sym same)
            ∙ ap (λ r. on_error r [] (λ cs. find_id n cs)) l
            ∙ find_id-first_id n cs f
            ∙ ap ok (empty id nothing)
        | inr something ↦
            ap (λ r. on_error r [] (λ cs. find_id n cs))
              (law.container_list-remove true id cs w w'
                (killed d law id (d.container_remove true id w) w (true, w') (rw something at h)
                  refl)
                l)
            ∙ find_id-first_id n (without_id id cs) (well_formed-without_id id cs f)
            ∙ ap ok (first_id-without_id test cs s)
      ]
    where
      empty : (s : Bytes) → (length s == 0) ≡ true → s ≡ []
      empty [] h = refl
      empty (x ∷ s) h = absurd (ground arith)

  on_error-true :
      {A : Type 0} (r : Result A) (f : A → Result (Bool × W)) (w w' : W)
      → on_error r (false, w) f ≡ ok (true, w')
      → (a : A) × (f a ≡ ok (true, w'))
  on_error-true (ok a) f w w' h = (a, h)
  on_error-true (err e) f w w' h = cc (ap (λ (y : Bool × W). y.0) (ok-injective h))
  on_error-true (panic e) f w w' h = cc

  -- After a Kill that returns true Status is false for the name. The daemon lists its containers, each
  -- with an id and names that are not empty, and one of them at most has the name; it answers the
  -- clients of both calls.
  pub status-kill :
      (prefix name : Bytes) (random random' : List Bytes) (cs : List Container) (w w' : W)
      → 0 < length name
      → d.container_list w ≡ ok cs
      → well_formed cs ≡ true
      → sole (λ rest. bytes_eq rest (prefix ++ name)) cs ≡ true
      → kill d prefix random name w ≡ ok (true, w')
      → d.new_env_client w' ≡ ok tt
      → status d prefix random' name w' ≡ ok false
  unfolding kill status get_container_id_by_name general_container_name
  status-kill prefix name random random' cs w w' size l f s h client =
      rw (there, client)
        (ap
          (λ r. r >>= λ id.
            if length id == 0
            then ok false
            else on_error (d.container_stats id w') false (λ body. ok body))
          gone)
    where
      there : (length name == 0) ≡ false
      there = ground (arith, size)

      gone : get_container_id_by_name d (prefix ++ name) w' ≡ ok []
      gone =
          let (u, h₁) =
            on_error-true (d.new_env_client w)
              (λ u. get_container_id_by_name d (prefix ++ name) w >>= λ id. kill_found d id w) w w'
              (rw there at h) in
          find_id-kill_found (prefix ++ name) cs w w' l f s (
            ap (λ r. r >>= λ id. kill_found d id w)
              (sym (
                ap (λ r. on_error r [] (λ cs. find_id (prefix ++ name) cs)) l
                ∙ find_id-first_id (prefix ++ name) cs f))
            ∙ h₁)
