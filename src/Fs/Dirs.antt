-- ===== src/Fs/Dirs.antt =====
-- The directories that are made.
use bclib.Base.{
  ℕ, zero, suc, ◌≤◌, ◌≡◌, refl, sym, ap, ◌∙◌, Bool, true, false, String, List, [], ◌∷◌, ◌++◌, ◌==◌,
  length, arith, Bool-cases, inl, inr, if◌then◌else◌,
}
use bclib.Go.Result.{Result, ok, err, ◌>>=◌, >>=-eq-ok, ok-injective}
use bclib.Go.Text.{Bytes}
use bclib.Fs.{
  Os, IsFileSystem, HasPaths, is_top, path_exists, path_split, path_split_from, make_one, make_each,
  make_dir,
}

module _ {W : Type 0} (os : Os W) where
  -- A path, its parent, and so on up to a path without one.
  pub data Ancestor (q : Bytes) : Bytes → Type 0 where
    itself : Ancestor q q
    above : {p : Bytes} → is_top os p ≡ false → Ancestor q (os.dir p) → Ancestor q p

  -- The path to the last of some pieces.
  abbrev joined : Bytes → List Bytes → Bytes
  joined path [] = path
  joined path (seg ∷ segs) = joined (os.join path seg) segs

  joined-append :
      (path b : Bytes) (segs : List Bytes)
      → joined path (segs ++ b ∷ []) ≡ os.join (joined path segs) b
  joined-append path b [] = refl
  joined-append path b (seg ∷ segs) = joined-append (os.join path seg) b segs

  make_each-append :
      (path b : Bytes) (segs : List Bytes) (w w' : W)
      → make_each os path (segs ++ b ∷ []) w ≡ ok w'
      → (m : W) × (make_each os path segs w ≡ ok m)
        × (make_one os (os.join (joined path segs) b) m ≡ ok w')
  unfolding make_each
  make_each-append path b [] w w' h =
      let (m, one, done) = >>=-eq-ok (make_one os (os.join path b) w) _ h in (w, refl, one ∙ done)
  make_each-append path b (seg ∷ segs) w w' h =
      let (m, one, more) = >>=-eq-ok (make_one os (os.join path seg) w) _ h in
      let (m', each, last) = make_each-append (os.join path seg) b segs m w' more in
      (m', ap (λ r. r >>= make_each os (os.join path seg) segs) one ∙ each, last)

  module _ (paths : HasPaths os) where
    -- The pieces of a clean path lead to it.
    joined-path_split_from :
        (fuel : ℕ) (p : Bytes)
        → os.clean p ≡ p
        → length p ≤ fuel
        → joined [] (path_split_from os fuel p) ≡ p
    unfolding path_split_from
    joined-path_split_from zero p c h = paths.join_none p c
    joined-path_split_from (suc fuel) p c h = elim (Bool-cases (is_top os p)) [
      | inl top ↦ rw top (paths.join_none p c)
      | inr inner ↦ rw inner (
          joined-append [] (os.base p) (path_split_from os fuel (os.dir p))
          ∙ ap (λ d. os.join d (os.base p))
              (joined-path_split_from fuel (os.dir p) (paths.clean-dir p)
                (omega (arith, h, paths.length-dir p c inner)))
          ∙ paths.join-dir p c inner)
    ]

  module _ (law : IsFileSystem os) where
    made :
        (b : Bool) (path : Bytes) (w w' : W)
        → os.stat w path ≡ ok b
        → (if b then ok w else os.mkdir path w) ≡ ok w'
        → os.stat w' path ≡ ok true
    made true path w w' e h = ap (λ v. os.stat v path) (sym (ok-injective h)) ∙ e
    made false path w w' e h = law.stat-mkdir path w w' h

    kept :
        (b : Bool) (path q : Bytes) (w w' : W)
        → (if b then ok w else os.mkdir path w) ≡ ok w'
        → os.stat w q ≡ ok true
        → os.stat w' q ≡ ok true
    kept true path q w w' h e = ap (λ v. os.stat v q) (sym (ok-injective h)) ∙ e
    kept false path q w w' h e = law.stat_kept path q w w' h e

    make_one_exists :
        (path : Bytes) (w w' : W) → make_one os path w ≡ ok w' → os.stat w' path ≡ ok true
    unfolding make_one path_exists
    make_one_exists path w w' h =
        let (b, e, rest) = >>=-eq-ok (os.stat w path) _ h in made b path w w' e rest

    make_one_kept :
        (path q : Bytes) (w w' : W)
        → make_one os path w ≡ ok w'
        → os.stat w q ≡ ok true
        → os.stat w' q ≡ ok true
    unfolding make_one path_exists
    make_one_kept path q w w' h e =
        let (b, there, rest) = >>=-eq-ok (os.stat w path) _ h in kept b path q w w' rest e

    make_each_kept :
        (path q : Bytes) (segs : List Bytes) (w w' : W)
        → make_each os path segs w ≡ ok w'
        → os.stat w q ≡ ok true
        → os.stat w' q ≡ ok true
    unfolding make_each
    make_each_kept path q [] w w' h e = ap (λ v. os.stat v q) (sym (ok-injective h)) ∙ e
    make_each_kept path q (seg ∷ segs) w w' h e =
        let (mid, one, more) = >>=-eq-ok (make_one os (os.join path seg) w) _ h in
        make_each_kept (os.join path seg) q segs mid w' more
          (make_one_kept (os.join path seg) q w mid one e)

    not_empty :
        (b : Bool) (e : String) (r : Result W) (w' : W)
        → (if b then err e else r) ≡ ok w'
        → r ≡ ok w'
    not_empty true e r w' h = cc
    not_empty false e r w' h = h

    make_one-Ancestor :
        (p q : Bytes) (w w' : W)
        → is_top os p ≡ true
        → make_one os p w ≡ ok w'
        → Ancestor q p
        → os.stat w' q ≡ ok true
    make_one-Ancestor p q w w' top h itself = make_one_exists p w w' h
    make_one-Ancestor p q w w' top h (above inner a) = cc (top, inner)

    module _ (paths : HasPaths os) where
      make_alone :
          (p q : Bytes) (w w' : W)
          → os.clean p ≡ p
          → is_top os p ≡ true
          → make_each os [] (p ∷ []) w ≡ ok w'
          → Ancestor q p
          → os.stat w' q ≡ ok true
      unfolding make_each
      make_alone p q w w' c top h a =
          let (m, one, done) = >>=-eq-ok (make_one os (os.join [] p) w) _ h in
          make_one-Ancestor p q w w' top
            (ap (λ d. make_one os d w) (sym (paths.join_none p c)) ∙ one ∙ done) a

      make_each-Ancestor :
          (fuel : ℕ) (p q : Bytes) (w w' : W)
          → os.clean p ≡ p
          → length p ≤ fuel
          → make_each os [] (path_split_from os fuel p) w ≡ ok w'
          → Ancestor q p
          → os.stat w' q ≡ ok true
      unfolding path_split_from
      make_each-Ancestor zero p q w w' c small h a = elim (Bool-cases (is_top os p)) [
        | inl top ↦ make_alone p q w w' c top h a
        | inr inner ↦ absurd (omega (arith, small, paths.length-dir p c inner))
      ]
      make_each-Ancestor (suc fuel) p q w w' c small h a = elim (Bool-cases (is_top os p)) [
        | inl top ↦ make_alone p q w w' c top (rw top at h) a
        | inr inner ↦
            let dir = os.dir p in
            let shorter : length dir ≤ fuel = omega (arith, small, paths.length-dir p c inner) in
            let (m, each, last) =
              make_each-append [] (os.base p) (path_split_from os fuel dir) w w' (rw inner at h) in
            let reached : os.join (joined [] (path_split_from os fuel dir)) (os.base p) ≡ p =
              ap (λ d. os.join d (os.base p))
                (joined-path_split_from paths fuel dir (paths.clean-dir p) shorter)
              ∙ paths.join-dir p c inner in
            let made_it : make_one os p m ≡ ok w' =
              ap (λ d. make_one os d m) (sym reached) ∙ last in
            below p q m w' made_it
              (λ b. make_each-Ancestor fuel dir q w m (paths.clean-dir p) shorter each b) a
      ]
        where
          below :
              (p q : Bytes) (m w' : W)
              → make_one os p m ≡ ok w'
              → (Ancestor q (os.dir p) → os.stat m q ≡ ok true)
              → Ancestor q p
              → os.stat w' q ≡ ok true
          below p q m w' h up itself = make_one_exists p m w' h
          below p q m w' h up (above inner b) = make_one_kept p q m w' h (up b)

      -- Both ways of MakeDir.
      either_way :
          (b : Bool) (path : Bytes) (w w' : W)
          → os.clean path ≡ path
          → is_top os path ≡ b
          → (if b then make_one os path w else make_each os [] (path_split os path) w) ≡ ok w'
          → ((q : Bytes) → Ancestor q path → os.stat w' q ≡ ok true)
            × ((q : Bytes) → os.stat w q ≡ ok true → os.stat w' q ≡ ok true)
      unfolding path_split
      either_way true path w w' c t h =
          (λ q a. make_one-Ancestor path q w w' t h a, λ q e. make_one_kept path q w w' h e)
      either_way false path w w' c t h = (
        λ q a. make_each-Ancestor (length path) path q w w' c (omega arith) h a,
        λ q e. make_each_kept [] q (path_split os path) w w' h e,
      )

      -- After a MakeDir of a clean path that returned no error there is something under the path, its
      -- parent and so on up to a path without one, and whatever was there is there still.
      pub make_dir_exist :
          (path : Bytes) (w w' : W)
          → os.clean path ≡ path
          → make_dir os path w ≡ ok w'
          → ((q : Bytes) → Ancestor q path → path_exists os q w' ≡ ok true)
            × ((q : Bytes) → path_exists os q w ≡ ok true → path_exists os q w' ≡ ok true)
      unfolding make_dir path_exists
      make_dir_exist path w w' c h =
          either_way (is_top os path) path w w' c refl
            (not_empty (length path == 0) "can not make an empty dir" _ w' h)
