-- ===== src/Fs/CopyDir.antt =====
-- CopyDir of fs/copy.go. What filepath.Walk visits, in its order, and package regexp are parameters.
-- The walk is that of the tree as it is before the copying.
pub mod Selection
pub mod Contents
mod Tests
use bclib.Base.{
  ◌≡◌, Bool, true, false, ◌&&◌, not, String, Option, none, some, List, [], ◌∷◌, ◌==◌, length,
  if◌then◌else◌,
}
use bclib.Go.Result.{Result, ok, err, panic, guard, nil_pointer, ◌>>=◌, ◌>>◌}
use bclib.Go.Text.{Bytes, text, replace_all}
use bclib.Fs.{Os, slashed, copy_file}

-- A call of the function that is given to filepath.Walk: the path, the last element, whether it is a
-- directory, and the error that the walk met there.
pub record Visit : Type 0 where
  pub path : Bytes
  pub name : Bytes
  pub is_dir : Bool
  pub fault : Option String

abbrev pub is_empty : Bytes → Bool
is_empty s = length s == 0

-- An error in the second pattern: the code asks the first one's error, which is nil, for its text.
abbrev pub or_nil_pointer : Result Bool → Result Bool
or_nil_pointer (ok b) = ok b
or_nil_pointer (err e) = panic nil_pointer
or_nil_pointer (panic e) = panic e

abbrev pub not_failed : Option String → Result (Unit {0})
not_failed none = ok tt
not_failed (some e) = err e

abbrev pub dest_of : Bytes → Bytes → Bytes → Bytes
dest_of src dest path = replace_all (slashed path) src dest

unfoldable pub copy_visited : {W : Type 0} → Os W → Bytes → Bytes → Bytes → W → Result W
copy_visited os src dest path w = do
  r ← copy_file os (slashed path) (dest_of src dest path) w
  ok (r.1)

-- `match_string` is regexp.MatchString, and `stat_dir` tells whether a path is a directory.
module _ {W : Type 0} (os : Os W) (match_string : Bytes → Bytes → Result Bool)
    (stat_dir : W → Bytes → Result Bool) where
  -- The function that is called for every path.
  unfoldable pub visit : Bytes → Bytes → Bytes → Bytes → Visit → W → Result W
  unfolding copy_visited
  visit src dest match_regexp exclude_regexp v w = do
    not_failed v.fault
    if is_empty match_regexp && is_empty exclude_regexp
        then (if not v.is_dir then copy_visited os src dest v.path w else ok w)
        else do
          matches ← match_string match_regexp v.name
          exclude ← or_nil_pointer (match_string exclude_regexp v.name)
          if not v.is_dir && matches && not exclude then copy_visited os src dest v.path w else ok w

  unfoldable pub visit_all : Bytes → Bytes → Bytes → Bytes → List Visit → W → Result W
  unfolding visit
  visit_all src dest match_regexp exclude_regexp [] w = ok w
  visit_all src dest match_regexp exclude_regexp (v ∷ vs) w = do
    w' ← visit src dest match_regexp exclude_regexp v w
    visit_all src dest match_regexp exclude_regexp vs w'

  unfoldable pub copy_dir : (Bytes → List Visit) → Bytes → Bytes → Bytes → Bytes → W → Result W
  unfolding visit_all
  copy_dir walk src_path dest_path match_regexp exclude_regexp w = do
    is_dir ← stat_dir w (slashed src_path)
    guard is_dir "open: is not a directory"
    is_dir' ← stat_dir w (slashed dest_path)
    guard is_dir' "open: is not a directory"
    visit_all (slashed src_path) (slashed dest_path) match_regexp exclude_regexp
        (walk (slashed src_path)) w
