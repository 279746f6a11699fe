-- ===== src/Fs/Archive.antt =====
-- fs/targz.go: a directory tree that is packed into an archive, and an archive that is unpacked. The
-- formats of archive/tar and compress/gzip are left out: an archive is the list of its entries, in
-- order. A file has the size of its content, as long as nobody writes to it.
pub mod Unpacked
pub mod Packed
pub mod Existing
pub mod Restored
mod Tests
use bclib.Base.{
  ℕ, ◌≡◌, Bool, true, false, ◌||◌, Option, none, some, List, [], ◌∷◌, ◌++◌, drop, length, ◌==◌,
  bytes_eq, if◌then◌else◌,
}
use bclib.Go.Result.{Result, ok, err, guard, ◌>>=◌, ◌>>◌}
use bclib.Go.Text.{Bytes, text}

-- What os.Open, Stat and Readdir tell of a path: a file or a directory, with its mode, and one of
-- either that os.Open refuses.
mutual
  pub data Node : Type 0 where
    file : ℕ → Bytes → Node
    dir : ℕ → Infos → Node
    closed_file : ℕ → Node
    closed_dir : ℕ → Node

  pub data Infos : Type 0 where
    end : Infos
    info : Bytes → Node → Infos → Infos

pub data Typeflag : Type 0 where
  type_dir type_reg other_type : Typeflag

pub record Header : Type 0 where
  pub name : Bytes
  pub typeflag : Typeflag
  pub mode : ℕ

pub record Entry : Type 0 where
  pub header : Header
  pub content : Bytes

abbrev pub dir_header : ℕ → Bytes → Header
dir_header mode rec_path = record { name = rec_path ++ text "/"; typeflag = type_dir; mode = mode }

abbrev pub file_header : ℕ → Bytes → Header
file_header mode rec_path = record { name = rec_path; typeflag = type_reg; mode = mode }

abbrev pub is_dir : Node → Bool
is_dir (dir mode infos) = true
is_dir (closed_dir mode) = true
is_dir (file mode content) = false
is_dir (closed_file mode) = false

abbrev pub opens : Node → Bool
opens (dir mode infos) = true
opens (closed_dir mode) = false
opens (file mode content) = true
opens (closed_file mode) = false

-- The writer of the archive refuses some headers.
module _ (write_header : Header → Result (Unit {0})) where
  abbrev add_entry : Header → Bytes → List Entry → Result (List Entry)
  add_entry header content tw = do
    write_header header
    ok (tw ++ record { header = header; content = content } ∷ [])

  unfoldable pub tar_gz_file : Bytes → Node → List Entry → Result (List Entry)
  tar_gz_file rec_path (dir mode infos) tw = add_entry (dir_header mode rec_path) [] tw
  tar_gz_file rec_path (closed_dir mode) tw = add_entry (dir_header mode rec_path) [] tw
  tar_gz_file rec_path (file mode content) tw = add_entry (file_header mode rec_path) content tw
  tar_gz_file rec_path (closed_file mode) tw = err "open"

  -- The loop of tarGzDir over what Readdir returned, and tarGzDir of an entry that is a directory.
  unfoldable mutual
    unfolding tar_gz_file

    pub tar_gz_infos : Bytes → Infos → List Entry → Result (List Entry)
    tar_gz_infos rec_path end tw = ok tw
    tar_gz_infos rec_path (info name node infos) tw = do
      tw₁ ← tar_gz_file (rec_path ++ b'/' ∷ name) node tw
      tw₂ ← tar_gz_sub (rec_path ++ b'/' ∷ name) node tw₁
      tar_gz_infos rec_path infos tw₂

    pub tar_gz_sub : Bytes → Node → List Entry → Result (List Entry)
    tar_gz_sub rec_path (dir mode infos) tw = tar_gz_infos rec_path infos tw
    tar_gz_sub rec_path (closed_dir mode) tw = err "open"
    tar_gz_sub rec_path (file mode content) tw = ok tw
    tar_gz_sub rec_path (closed_file mode) tw = ok tw

  -- TarGz of what the source path names. `base` is the last element of the source path; that of the
  -- empty path is a dot.
  unfoldable pub tar_gz : Bytes → Node → ℕ → Result (List Entry)
  unfolding tar_gz_infos tar_gz_file
  tar_gz base node flag = do
    guard (opens node) "open"
    if is_dir node
        then (if flag == 0
            then tar_gz_sub (text ".") node []
            else if flag == 1
            then (tar_gz_file base node [] >>= tar_gz_sub base node)
            else err "Invlaid flag")
        else if flag == 0
        then tar_gz_file (text ".") node []
        else if flag == 1
        then tar_gz_file base node []
        else err "Invlaid flag"

-- The disk that an archive is unpacked to. `put` is OpenFile without truncation, and the copy of the
-- content over what the file began with.
pub record Disk (W : Type 0) : Type 0 where
  pub content_at : W → Bytes → Option Bytes
  pub is_dir_at : W → Bytes → Bool
  pub stat : W → Bytes → Bool
  pub mkdir_all : Bytes → W → Result W
  pub put : Bytes → ℕ → Bytes → W → Result W
  pub join : Bytes → Bytes → Bytes

abbrev pub or_empty : Option Bytes → Bytes
or_empty none = []
or_empty (some b) = b

-- Bytes that are written at the start of a file.
abbrev pub overlay : Bytes → Option Bytes → Bytes
overlay b old = b ++ drop (length b) (or_empty old)

abbrev pub is_some : Option Bytes → Bool
is_some none = false
is_some (some b) = true

-- What the operating system does in calls that return no error, where no link stands for a path.
pub record IsDisk {W : Type 0} (d : Disk W) : Type 0 where
  pub stat_lem : (w : W) (p : Bytes) → d.stat w p ≡ (d.is_dir_at w p || is_some (d.content_at w p))
  pub content_at-mkdir_all :
      (p q : Bytes) (w w' : W) → d.mkdir_all p w ≡ ok w' → d.content_at w' q ≡ d.content_at w q
  pub is_dir_at-mkdir_all :
      (p : Bytes) (w w' : W) → d.mkdir_all p w ≡ ok w' → d.is_dir_at w' p ≡ true
  pub is_dir_at_kept :
      (p q : Bytes) (w w' : W)
      → d.mkdir_all p w ≡ ok w'
      → d.is_dir_at w q ≡ true
      → d.is_dir_at w' q ≡ true
  pub content_at-put :
      (p q : Bytes) (mode : ℕ) (b : Bytes) (w w' : W)
      → d.put p mode b w ≡ ok w'
      → d.content_at w' q
        ≡ (if bytes_eq p q then some (overlay b (d.content_at w p)) else d.content_at w q)
  pub is_dir_at-put :
      (p q : Bytes) (mode : ℕ) (b : Bytes) (w w' : W)
      → d.put p mode b w ≡ ok w'
      → d.is_dir_at w' q ≡ d.is_dir_at w q

module _ {W : Type 0} (d : Disk W) where
  abbrev pub extract : Bytes → Typeflag → Entry → W → Result W
  extract target type_dir entry w = if d.stat w target then ok w else d.mkdir_all target w
  extract target type_reg entry w = d.put target entry.header.mode entry.content w
  extract target other_type entry w = ok w

  -- The loop of UnTarGz.
  unfoldable pub un_tar_gz : Bytes → List Entry → W → Result W
  un_tar_gz dst [] w = ok w
  un_tar_gz dst (entry ∷ entries) w = do
    w' ← extract (d.join dst entry.header.name) entry.header.typeflag entry w
    un_tar_gz dst entries w'
