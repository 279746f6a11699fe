-- ===== src/Fs/CopyDir/Selection.antt =====
-- Which files CopyDir copies.
use bclib.Base.{
  ◌≡◌, refl, ap, ◌∙◌, Bool, true, false, ◌&&◌, ◌||◌, not, and_false, none, List, [], ◌∷◌, length,
  arith, ◌<◌, if◌then◌else◌, Bool-cases, inl, inr, All,
}
use bclib.Go.Result.{Result, ok, ◌>>=◌, >>=-ext}
use bclib.Go.Text.{Bytes}
use bclib.Fs.{Os, slashed}
use bclib.Fs.CopyDir.{Visit, is_empty, copy_visited, visit, visit_all, copy_dir}

-- The files that the patterns choose: those whose name matches the first and not the second; all,
-- where both patterns are empty.
abbrev pub chosen : (Bytes → Bytes → Bool) → Bytes → Bytes → Visit → Bool
chosen m match_regexp exclude_regexp v =
    not v.is_dir
    && ((is_empty match_regexp && is_empty exclude_regexp)
        || (m match_regexp v.name && not (m exclude_regexp v.name)))

abbrev pub chosen_paths : (Bytes → Bytes → Bool) → Bytes → Bytes → List Visit → List Bytes
chosen_paths m match_regexp exclude_regexp [] = []
chosen_paths m match_regexp exclude_regexp (v ∷ vs) =
    let rest = chosen_paths m match_regexp exclude_regexp vs in
    if chosen m match_regexp exclude_regexp v then v.path ∷ rest else rest

-- Two patterns that package regexp accepts, and what they match.
abbrev pub Compiles : (Bytes → Bytes → Result Bool) → (Bytes → Bytes → Bool) → Bytes → Type 0
Compiles match_string m pattern_text =
    (name : Bytes) → match_string pattern_text name ≡ ok (m pattern_text name)

module _ {W : Type 0} (os : Os W) (src dest : Bytes) where
  -- One copy after the other.
  unfoldable pub copy_each : List Bytes → W → Result W
  unfolding copy_visited
  copy_each [] w = ok w
  copy_each (path ∷ paths) w = copy_visited os src dest path w >>= copy_each paths

module _ {W : Type 0} (os : Os W) (match_string : Bytes → Bytes → Result Bool)
    (stat_dir : W → Bytes → Result Bool) (m : Bytes → Bytes → Bool) (mre exre : Bytes)
    (first : Compiles match_string m mre) (second : Compiles match_string m exre) where
  visit-chosen :
      (src dest : Bytes) (v : Visit) (w : W)
      → v.fault ≡ none
      → visit os match_string stat_dir src dest mre exre v w
        ≡ (if chosen m mre exre v then copy_visited os src dest v.path w else ok w)
  unfolding visit
  visit-chosen src dest v w h =
      rw (h, first v.name, second v.name)
        (split (not v.is_dir) (is_empty mre && is_empty exre) (m mre v.name) (not (m exre v.name))
          (copy_visited os src dest v.path w))
    where
      split :
          (file empty matches kept : Bool) (r : Result W)
          → (if empty
              then (if file then r else ok w)
              else (if file && matches && kept then r else ok w))
            ≡ (if file && (empty || (matches && kept)) then r else ok w)
      split true true x y r = refl
      split false true x y r = refl
      split true false x y r = refl
      split false false x y r = refl

  visit_all-chosen_paths :
      (src dest : Bytes) (vs : List Visit) (w : W)
      → All (λ (v : Visit). v.fault ≡ none) vs
      → visit_all os match_string stat_dir src dest mre exre vs w
        ≡ copy_each os src dest (chosen_paths m mre exre vs) w
  unfolding visit_all copy_each
  visit_all-chosen_paths src dest [] w h = refl
  visit_all-chosen_paths src dest (v ∷ vs) w (h, hs) =
      ap (λ r. r >>= visit_all os match_string stat_dir src dest mre exre vs)
        (visit-chosen src dest v w h)
      ∙ elim (Bool-cases (chosen m mre exre v)) [
        | inl in_ ↦ rw in_ (
            >>=-ext (copy_visited os src dest v.path w)
              (λ w'. visit_all-chosen_paths src dest vs w' hs))
        | inr out ↦ rw out (visit_all-chosen_paths src dest vs w hs)
      ]

  -- CopyDir between two directories, with two patterns that compile and no error of the walk, copies
  -- the files of the walk that the patterns choose, one after the other, up to the first error.
  pub copy_dir-copy_each :
      (walk : Bytes → List Visit) (src_path dest_path : Bytes) (w : W)
      → stat_dir w (slashed src_path) ≡ ok true
      → stat_dir w (slashed dest_path) ≡ ok true
      → All (λ (v : Visit). v.fault ≡ none) (walk (slashed src_path))
      → copy_dir os match_string stat_dir walk src_path dest_path mre exre w
        ≡ copy_each os
            (slashed src_path)
            (slashed dest_path)
            (chosen_paths m mre exre (walk (slashed src_path)))
            w
  unfolding copy_dir
  copy_dir-copy_each walk src_path dest_path w s d h =
      rw (s, d)
        (visit_all-chosen_paths (slashed src_path) (slashed dest_path) (walk (slashed src_path)) w
          h)

none_chosen :
    (m : Bytes → Bytes → Bool) (mre : Bytes)
    → ((name : Bytes) → m [] name ≡ true)
    → is_empty mre ≡ false
    → (vs : List Visit) → chosen_paths m mre [] vs ≡ []
none_chosen m mre every some_pattern [] = refl
none_chosen m mre every some_pattern (v ∷ vs) =
    rw (every v.name, some_pattern, and_false (m mre v.name), and_false (not v.is_dir))
      (none_chosen m mre every some_pattern vs)

-- CopyDir with a first pattern and no second one copies nothing, since the empty pattern matches every
-- name. The directories are there, the first pattern compiles and the walk has no error.
pub copy_dir_no_exclude :
    {W : Type 0} (os : Os W) (match_string : Bytes → Bytes → Result Bool)
    (stat_dir : W → Bytes → Result Bool) (m : Bytes → Bytes → Bool) (walk : Bytes → List Visit)
    (src_path dest_path mre : Bytes) (w : W)
    → Compiles match_string m mre
    → Compiles match_string m []
    → ((name : Bytes) → m [] name ≡ true)
    → 0 < length mre
    → stat_dir w (slashed src_path) ≡ ok true
    → stat_dir w (slashed dest_path) ≡ ok true
    → All (λ (v : Visit). v.fault ≡ none) (walk (slashed src_path))
    → copy_dir os match_string stat_dir walk src_path dest_path mre [] w ≡ ok w
unfolding copy_each
copy_dir_no_exclude os match_string stat_dir m walk src_path dest_path mre w first second every size
      s d h =
    copy_dir-copy_each os match_string stat_dir m mre [] first second walk src_path dest_path w s d
      h
    ∙ ap (λ paths. copy_each os (slashed src_path) (slashed dest_path) paths w)
        (none_chosen m mre every some_pattern (walk (slashed src_path)))
  where
    some_pattern : is_empty mre ≡ false
    some_pattern = ground (arith, size)
