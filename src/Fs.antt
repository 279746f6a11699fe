-- ===== src/Fs.antt =====
-- fs/filesystem.go, fs/checkdigest.go and CopyFile of fs/copy.go. The operating system and package
-- filepath are a parameter; `W` is what is on the disk.
pub mod Dirs
pub mod Archive
pub mod CopyDir
pub mod Copies
pub mod Tests
use bclib.Base.{
  ℕ, zero, suc, ◌+◌, ◌<◌, ◌≡◌, Bool, true, false, ◌&&◌, ◌||◌, Option, none, some, List, [], ◌∷◌,
  ◌++◌, map, leb, ◌==◌, length, take, bytes_eq, if◌then◌else◌,
}
use bclib.Go.Result.{Result, ok, err, panic, ◌>>=◌}
use bclib.Go.Text.{Bytes, text, split}
use bclib.Go.Format.{hex_encode}

-- `stat` says whether there is something under a name, where it does not fail; `create` leaves an
-- empty file, and `write` writes to one that was just created. `same_file` is os.SameFile.
pub record Os (W : Type 0) : Type 0 where
  pub stat : W → Bytes → Result Bool
  pub mkdir : Bytes → W → Result W
  pub create : Bytes → W → Result W
  pub write : Bytes → Bytes → W → Result W
  pub read_file : W → Bytes → Result Bytes
  pub same_file : Bytes → Bytes → Bool
  pub dir : Bytes → Bytes
  pub base : Bytes → Bytes
  pub join : Bytes → Bytes → Bytes
  pub clean : Bytes → Bytes

-- What the operating system documents of calls that return no error.
pub record IsFileSystem {W : Type 0} (os : Os W) : Type 0 where
  pub stat-mkdir : (p : Bytes) (w w' : W) → os.mkdir p w ≡ ok w' → os.stat w' p ≡ ok true
  pub stat_kept :
      (p q : Bytes) (w w' : W)
      → os.mkdir p w ≡ ok w'
      → os.stat w q ≡ ok true
      → os.stat w' q ≡ ok true
  pub read-mkdir :
      (p q b : Bytes) (w w' : W)
      → os.mkdir p w ≡ ok w'
      → os.read_file w q ≡ ok b
      → os.read_file w' q ≡ ok b
  pub read-create :
      (p q b : Bytes) (w w' : W)
      → os.create p w ≡ ok w'
      → os.read_file w q ≡ ok b
      → os.read_file w' q ≡ ok (if os.same_file p q then [] else b)
  pub read-write : (p b : Bytes) (w w' : W) → os.write p b w ≡ ok w' → os.read_file w' p ≡ ok b
  pub read_apart :
      (p q b c : Bytes) (w w' : W)
      → os.write p b w ≡ ok w'
      → os.same_file p q ≡ false
      → os.read_file w q ≡ ok c
      → os.read_file w' q ≡ ok c

-- A path without a parent: a single name, or a root.
abbrev pub is_top : {W : Type 0} → Os W → Bytes → Bool
is_top os p = bytes_eq (os.dir p) (text ".") || bytes_eq (os.dir p) p

-- What package filepath documents of clean paths.
pub record HasPaths {W : Type 0} (os : Os W) : Type 0 where
  pub clean-dir : (p : Bytes) → os.clean (os.dir p) ≡ os.dir p
  pub join_none : (p : Bytes) → os.clean p ≡ p → os.join [] p ≡ p
  pub join-dir :
      (p : Bytes) → os.clean p ≡ p → is_top os p ≡ false → os.join (os.dir p) (os.base p) ≡ p
  pub length-dir : (p : Bytes) → os.clean p ≡ p → is_top os p ≡ false → length (os.dir p) < length p

abbrev pub slashed : Bytes → Bytes
slashed path = map (λ c. if c == 92 then b'/' else c) path

-- The first 64 bytes of the file of the sum, against the sum.
abbrev pub is_sum : Bytes → Result Bytes → Bool
is_sum sum (ok b) = leb 64 (length b) && bytes_eq sum (take 64 b)
is_sum sum (err e) = false
is_sum sum (panic e) = false

abbrev pub checked : Result Bytes → Result Bytes → Bool
checked (ok sum) file = is_sum sum file
checked (err e) file = false
checked (panic e) file = false

module _ {W : Type 0} (os : Os W) where
  unfoldable pub path_exists : Bytes → W → Result Bool
  path_exists path w = os.stat w path

  -- On fuel; filepath.Dir makes a path shorter, or is the path or ".".
  unfoldable pub path_split_from : ℕ → Bytes → List Bytes
  path_split_from zero path = path ∷ []
  path_split_from (suc fuel) path =
      let rest = path_split_from fuel (os.dir path) in
      if bytes_eq (os.dir path) (text ".") || bytes_eq (os.dir path) path
      then path ∷ []
      else rest ++ os.base path ∷ []

  unfoldable pub path_split : Bytes → List Bytes
  unfolding path_split_from
  path_split path = path_split_from (length path) path

  -- makeDir
  unfoldable pub make_one : Bytes → W → Result W
  unfolding path_exists
  make_one path w = do there ← path_exists path w; if there then ok w else os.mkdir path w

  -- The loop of MakeDir.
  unfoldable pub make_each : Bytes → List Bytes → W → Result W
  unfolding make_one
  make_each path [] w = ok w
  make_each path (seg ∷ segs) w = do
    w' ← make_one (os.join path seg) w
    make_each (os.join path seg) segs w'

  unfoldable pub make_dir : Bytes → W → Result W
  unfolding make_each path_split
  make_dir path w =
      if length path == 0
      then err "can not make an empty dir"
      else if bytes_eq (os.dir path) (text ".") || bytes_eq (os.dir path) path
      then make_one path w
      else make_each [] (path_split path) w

  -- The loop of CopyFile over all pieces of the path but the last.
  unfoldable pub make_parents : Bytes → List Bytes → W → Result W
  unfolding make_one
  make_parents prefix [] w = ok w
  make_parents prefix (seg ∷ []) w = ok w
  make_parents prefix (seg ∷ next ∷ segs) w = do
    w' ← make_one (prefix ++ seg ++ text "/") w
    make_parents (prefix ++ seg ++ text "/") (next ∷ segs) w'

  -- The source is opened first, and read when the destination has been created.
  unfoldable pub copy_file : Bytes → Bytes → W → Result (ℕ × W)
  unfolding make_parents
  copy_file src dest w = do
    opened ← os.read_file w (slashed src)
    w₁ ← make_parents [] (split b'/' (slashed dest)) w
    w₂ ← os.create (slashed dest) w₁
    content ← os.read_file w₂ (slashed src)
    w₃ ← os.write (slashed dest) content w₂
    ok (length content, w₃)

  module _ (sha256 : Bytes → Bytes) where
    unfoldable pub sha2gen : Bytes → W → Result Bytes
    unfolding hex_encode
    sha2gen full_path w = do
      content ← os.read_file w (os.clean full_path)
      ok (hex_encode (sha256 content))

    unfoldable pub sha2_gen : Bytes → W → Result W
    unfolding sha2gen
    sha2_gen full_path w = do
      sum ← sha2gen full_path w
      w₁ ← os.create (full_path ++ text ".sha2") w
      os.write (full_path ++ text ".sha2") sum w₁

    unfoldable pub check_sha2 : Bytes → W → Bool
    unfolding sha2gen
    check_sha2 full_path w =
        checked (sha2gen full_path w) (os.read_file w (os.clean (full_path ++ text ".sha2")))
