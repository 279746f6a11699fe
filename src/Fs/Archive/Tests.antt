-- ===== src/Fs/Archive/Tests.antt =====
-- The theorems on archives, over a disk that is a map: a directory is an entry without content.
use bclib.Base.{
  ◌≡◌, refl, sym, ap, ◌∙◌, ◌||◌, Bool, true, false, Option, none, some, List, [], ◌∷◌, ◌++◌,
  bytes_eq, bytes_eq_refl, bytes_eq→eq, if◌then◌else◌, Bool-cases, inl, inr,
}
use bclib.Go.Result.{Result, ok, err, ok-injective}
use bclib.Go.Text.{Bytes, text}
use bclib.Map.{Map, lookup, insert, bytes_key, lookup-insert}
use bclib.Fs.Archive.{
  Node, file, dir, end, info, Header, Entry, dir_header, file_header, tar_gz, Disk, IsDisk, is_some,
  overlay, un_tar_gz,
}
use bclib.Fs.Archive.Restored.{un_tar_gz-tar_gz}

abbrev Paths : Type 0
Paths = Map Bytes (Option Bytes)

abbrev content_of : Option (Option Bytes) → Option Bytes
content_of none = none
content_of (some o) = o

abbrev is_directory : Option (Option Bytes) → Bool
is_directory none = false
is_directory (some none) = true
is_directory (some (some b)) = false

abbrev add_dir : Option (Option Bytes) → Bytes → Paths → Result Paths
add_dir none p w = ok (insert p none w)
add_dir (some none) p w = ok w
add_dir (some (some b)) p w = err "not a directory"

abbrev put_file : Option (Option Bytes) → Bytes → Bytes → Paths → Result Paths
put_file (some none) p b w = err "is a directory"
put_file none p b w = ok (insert p (some (overlay b none)) w)
put_file (some (some c)) p b w = ok (insert p (some (overlay b (some c))) w)

abbrev disk : Disk Paths
disk = record {
  content_at = λ w p. content_of (lookup p w);
  is_dir_at = λ w p. is_directory (lookup p w);
  stat = λ w p. is_directory (lookup p w) || is_some (content_of (lookup p w));
  mkdir_all = λ p w. add_dir (lookup p w) p w;
  put = λ p mode b w. put_file (lookup p w) p b w;
  join = λ a b. a ++ text "/" ++ b;
}

-- What a lookup gives behind a write at one path.
written :
    (o : Option Bytes) (p q : Bytes) (w w' : Paths)
    → ok (insert p o w) ≡ ok w'
    → lookup q w' ≡ (if bytes_eq p q then some o else lookup q w)
written o p q w w' h = ap (lookup q) (sym (ok-injective h)) ∙ lookup-insert p q o w

content-add_dir :
    (o : Option (Option Bytes)) (p q : Bytes) (w w' : Paths)
    → lookup p w ≡ o
    → add_dir o p w ≡ ok w'
    → content_of (lookup q w') ≡ content_of (lookup q w)
content-add_dir none p q w w' e h = ap content_of (written none p q w w' h) ∙ split
  where
    split : content_of (if bytes_eq p q then some none else lookup q w) ≡ content_of (lookup q w)
    split = elim (Bool-cases (bytes_eq p q)) [
      | inl same ↦ rw (same, ← (bytes_eq→eq p q same), e)
      | inr other ↦ rw other
    ]
content-add_dir (some none) p q w w' e h = ap (λ v. content_of (lookup q v)) (sym (ok-injective h))
content-add_dir (some (some b)) p q w w' e h = cc

directory-add_dir :
    (o : Option (Option Bytes)) (p : Bytes) (w w' : Paths)
    → lookup p w ≡ o
    → add_dir o p w ≡ ok w'
    → is_directory (lookup p w') ≡ true
directory-add_dir none p w w' e h =
    ap is_directory
      (written none p p w w' h ∙ ap (λ t. if t then some none else lookup p w) (bytes_eq_refl p))
directory-add_dir (some none) p w w' e h =
    ap (λ v. is_directory (lookup p v)) (sym (ok-injective h)) ∙ ap is_directory e
directory-add_dir (some (some b)) p w w' e h = cc

directory_kept :
    (o : Option (Option Bytes)) (p q : Bytes) (w w' : Paths)
    → add_dir o p w ≡ ok w'
    → is_directory (lookup q w) ≡ true
    → is_directory (lookup q w') ≡ true
directory_kept none p q w w' h k = ap is_directory (written none p q w w' h) ∙ split (bytes_eq p q)
  where
    split : (t : Bool) → is_directory (if t then some none else lookup q w) ≡ true
    split true = refl
    split false = k
directory_kept (some none) p q w w' h k =
    ap (λ v. is_directory (lookup q v)) (sym (ok-injective h)) ∙ k
directory_kept (some (some b)) p q w w' h k = cc

content-put_file :
    (o : Option (Option Bytes)) (p q b : Bytes) (w w' : Paths)
    → put_file o p b w ≡ ok w'
    → content_of (lookup q w')
      ≡ (if bytes_eq p q then some (overlay b (content_of o)) else content_of (lookup q w))
content-put_file none p q b w w' h =
    ap content_of (written (some (overlay b none)) p q w w' h) ∙ split (bytes_eq p q)
  where
    split :
        (t : Bool)
        → content_of (if t then some (some (overlay b none)) else lookup q w)
          ≡ (if t then some (overlay b none) else content_of (lookup q w))
    split true = refl
    split false = refl
content-put_file (some none) p q b w w' h = cc
content-put_file (some (some c)) p q b w w' h =
    ap content_of (written (some (overlay b (some c))) p q w w' h) ∙ split (bytes_eq p q)
  where
    split :
        (t : Bool)
        → content_of (if t then some (some (overlay b (some c))) else lookup q w)
          ≡ (if t then some (overlay b (some c)) else content_of (lookup q w))
    split true = refl
    split false = refl

-- A path that is no directory stays none when a file is put there.
directory-put :
    (o : Option Bytes) (p q : Bytes) (w w' : Paths)
    → is_directory (lookup p w) ≡ false
    → is_some o ≡ true
    → ok (insert p o w) ≡ ok w'
    → is_directory (lookup q w') ≡ is_directory (lookup q w)
directory-put none p q w w' k s h = cc
directory-put (some c) p q w w' k s h = ap is_directory (written (some c) p q w w' h) ∙ split
  where
    split :
        is_directory (if bytes_eq p q then some (some c) else lookup q w)
        ≡ is_directory (lookup q w)
    split = elim (Bool-cases (bytes_eq p q)) [
      | inl same ↦ rw (same, ← (bytes_eq→eq p q same)) (sym k)
      | inr other ↦ rw other
    ]

directory-put_file :
    (o : Option (Option Bytes)) (p q b : Bytes) (w w' : Paths)
    → lookup p w ≡ o
    → put_file o p b w ≡ ok w'
    → is_directory (lookup q w') ≡ is_directory (lookup q w)
directory-put_file none p q b w w' e h =
    directory-put (some (overlay b none)) p q w w' (ap is_directory e) refl h
directory-put_file (some none) p q b w w' e h = cc
directory-put_file (some (some c)) p q b w w' e h =
    directory-put (some (overlay b (some c))) p q w w' (ap is_directory e) refl h

disk-IsDisk : IsDisk disk
disk-IsDisk = record {
  stat_lem = λ w p. refl;
  content_at-mkdir_all = λ p q w w' h. content-add_dir (lookup p w) p q w w' refl h;
  is_dir_at-mkdir_all = λ p w w' h. directory-add_dir (lookup p w) p w w' refl h;
  is_dir_at_kept = λ p q w w' h k. directory_kept (lookup p w) p q w w' h k;
  content_at-put = λ p q mode b w w' h. content-put_file (lookup p w) p q b w w' h;
  is_dir_at-put = λ p q mode b w w' h. directory-put_file (lookup p w) p q b w w' refl h;
}

-- A directory with a file and a directory that has a file.
abbrev tree : Node
tree = dir 493 (
    info (text "a") (file 420 (text "one"))
      (info (text "sub") (dir 493 (info (text "b") (file 420 (text "two")) end)) end))

abbrev any_header : Header → Result (Unit {0})
any_header h = ok tt

abbrev archive : List Entry
archive =
    record { header = dir_header 493 (text "src"); content = [] }
    ∷ record { header = file_header 420 (text "src/a"); content = text "one" }
    ∷ record { header = dir_header 493 (text "src/sub"); content = [] }
    ∷ record { header = file_header 420 (text "src/sub/b"); content = text "two" }
    ∷ []

tree_packed : tar_gz any_header (text "src") tree 1 ≡ ok archive
unfolding tar_gz
tree_packed = refl

abbrev unpacked : Paths
unpacked =
    (text "/x/src/sub/b", some (text "two"))
    ∷ (text "/x/src/sub/", none)
    ∷ (text "/x/src/a", some (text "one"))
    ∷ (text "/x/src/", none)
    ∷ []

archive-unpacked : un_tar_gz disk (text "/x") archive [] ≡ ok unpacked
unfolding un_tar_gz lookup insert
archive-unpacked = refl

un_tar_gz-tar_gz_example : disk.content_at unpacked (text "/x/src/sub/b") ≡ some (text "two")
unfolding lookup
un_tar_gz-tar_gz_example =
    un_tar_gz-tar_gz disk any_header (text "src") (text "/x") tree 1 (text "src/sub/b") (text "two")
      archive [] unpacked disk-IsDisk tree_packed refl archive-unpacked
      (inr (inl (inl (refl, refl)))) refl

-- A shorter file over a longer one.
abbrev old_file : Paths
old_file = (text "/x/a", some (text "older")) ∷ []

abbrev one_file : List Entry
one_file = record { header = file_header 420 (text "a"); content = text "one" } ∷ []

abbrev mixed : Paths
mixed = (text "/x/a", some (text "oneer")) ∷ []

one_file_unpacked : un_tar_gz disk (text "/x") one_file old_file ≡ ok mixed
unfolding un_tar_gz lookup insert
one_file_unpacked = refl
