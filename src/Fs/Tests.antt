-- ===== src/Fs/Tests.antt =====
-- The theorems on files, over a disk that is a map: a directory is an entry without content.
use bclib.Base.{
  ◌≡◌, refl, sym, ap, ◌∙◌, Bool, true, false, Option, none, some, [], ◌∷◌, ◌++◌, replicate,
  bytes_eq, bytes_eq_refl, bytes_eq→eq, if◌then◌else◌, arith, Bool-cases, inl, inr,
}
use bclib.Go.Result.{Result, ok, err, ok-injective}
use bclib.Go.Text.{Bytes, text, split}
use bclib.Go.Format.{hex_encode}
use bclib.Map.{Map, lookup, insert, remove, bytes_key, lookup-insert}
use bclib.Fs.{
  Os, IsFileSystem, HasPaths, is_top, path_exists, path_split, path_split_from, make_one, make_each,
  make_dir, make_parents, slashed, copy_file, sha2gen, sha2_gen, check_sha2,
}
use bclib.Fs.Dirs.{Ancestor, make_dir_exist}
use bclib.Fs.Copies.{check_sha2-sha2_gen}

abbrev pub Disk : Type 0
Disk = Map Bytes (Option Bytes)

abbrev is_there : Option (Option Bytes) → Bool
is_there none = false
is_there (some e) = true

abbrev content_of : Option (Option Bytes) → Result Bytes
content_of none = err "no such file"
content_of (some none) = err "is a directory"
content_of (some (some b)) = ok b

abbrev add_dir : Option (Option Bytes) → Bytes → Disk → Result Disk
add_dir none p w = ok (insert p none w)
add_dir (some e) p w = err "file exists"

abbrev put_file : Option (Option Bytes) → Bytes → Bytes → Disk → Result Disk
put_file none p b w = ok (insert p (some b) w)
put_file (some none) p b w = err "is a directory"
put_file (some (some c)) p b w = ok (insert p (some b) w)

abbrev two_deep : Bytes
two_deep = text "a/b"

-- Of paths with a parent there is one.
abbrev pub disk : Os Disk
disk = record {
  stat = λ w p. ok (is_there (lookup p w));
  mkdir = λ p w. add_dir (lookup p w) p w;
  create = λ p w. put_file (lookup p w) p [] w;
  write = λ p b w. put_file (lookup p w) p b w;
  read_file = λ w p. content_of (lookup p w);
  same_file = λ p q. bytes_eq p q;
  dir = λ p. if bytes_eq p two_deep then text "a" else text ".";
  base = λ p. if bytes_eq p two_deep then text "b" else p;
  join = λ p q. if bytes_eq p [] then q else p ++ text "/" ++ q;
  clean = λ p. p;
}

-- What a lookup gives after a directory was added, and after a file was put.
added :
    (o : Option (Option Bytes)) (p q : Bytes) (w w' : Disk)
    → add_dir o p w ≡ ok w'
    → lookup q w' ≡ (if bytes_eq p q then some none else lookup q w)
added none p q w w' h = ap (lookup q) (sym (ok-injective h)) ∙ lookup-insert p q none w
added (some e) p q w w' h = cc

put :
    (o : Option (Option Bytes)) (p q b : Bytes) (w w' : Disk)
    → put_file o p b w ≡ ok w'
    → lookup q w' ≡ (if bytes_eq p q then some (some b) else lookup q w)
put none p q b w w' h = ap (lookup q) (sym (ok-injective h)) ∙ lookup-insert p q (some b) w
put (some none) p q b w w' h = cc
put (some (some c)) p q b w w' h =
    ap (lookup q) (sym (ok-injective h)) ∙ lookup-insert p q (some b) w

still_there :
    (b : Bool) (o : Option (Option Bytes))
    → ok (is_there o) ≡ ok true
    → ok (is_there (if b then some none else o)) ≡ ok true
still_there true o h = refl
still_there false o h = h

no_file :
    (o : Option (Option Bytes)) (p b : Bytes) (w w' : Disk)
    → add_dir o p w ≡ ok w'
    → content_of o ≡ ok b
    → ⊥
no_file none p b w w' h e = cc
no_file (some o) p b w w' h e = cc

still_read :
    (t : Bool) (p q b : Bytes) (w w' : Disk)
    → bytes_eq p q ≡ t
    → add_dir (lookup p w) p w ≡ ok w'
    → content_of (lookup q w) ≡ ok b
    → content_of (if t then some none else lookup q w) ≡ ok b
still_read true p q b w w' same h e =
    absurd (
      no_file (lookup p w) p b w w' h
        (ap (λ k. content_of (lookup k w)) (bytes_eq→eq p q same) ∙ e))
still_read false p q b w w' same h e = e

emptied_or :
    (t : Bool) (o : Option (Option Bytes)) (b : Bytes)
    → content_of o ≡ ok b
    → content_of (if t then some (some []) else o) ≡ ok (if t then [] else b)
emptied_or true o b h = refl
emptied_or false o b h = h

pub disk-IsFileSystem : IsFileSystem disk
disk-IsFileSystem = record {
  stat-mkdir = λ p w w' h.
      ap (λ o. ok (is_there o)) (added (lookup p w) p p w w' h)
      ∙ ap (λ (t : Bool). ok (is_there (if t then some none else lookup p w))) (bytes_eq_refl p);
  stat_kept = λ p q w w' h e.
      ap (λ o. ok (is_there o)) (added (lookup p w) p q w w' h)
      ∙ still_there (bytes_eq p q) (lookup q w) e;
  read-mkdir = λ p q b w w' h e.
      ap content_of (added (lookup p w) p q w w' h) ∙ still_read (bytes_eq p q) p q b w w' refl h e;
  read-create = λ p q b w w' h e.
      ap content_of (put (lookup p w) p q [] w w' h) ∙ emptied_or (bytes_eq p q) (lookup q w) b e;
  read-write = λ p b w w' h.
      ap content_of (put (lookup p w) p p b w w' h)
      ∙ ap (λ (t : Bool). content_of (if t then some (some b) else lookup p w)) (bytes_eq_refl p);
  read_apart = λ p q b c w w' h a e.
      ap content_of (put (lookup p w) p q b w w' h)
      ∙ ap (λ (t : Bool). content_of (if t then some (some b) else lookup q w)) a
      ∙ e;
}

abbrev made_disk : Disk
made_disk = (two_deep, none) ∷ (text "a", none) ∷ []

made_two : make_dir disk two_deep [] ≡ ok made_disk
unfolding make_dir make_each make_one path_exists path_split path_split_from lookup insert remove
made_two = refl

two_deep_or : (p : Bytes) → is_top disk p ≡ false → p ≡ two_deep
two_deep_or p h = elim (Bool-cases (bytes_eq p two_deep)) [
  | inl same ↦ bytes_eq→eq p two_deep same
  | inr other ↦ cc (rw other at h)
]

disk-HasPaths : HasPaths disk
disk-HasPaths = record {
  clean-dir = λ p. refl;
  join_none = λ p c. refl;
  join-dir = λ p c inner. rw (two_deep_or p inner) refl;
  length-dir = λ p c inner. rw (two_deep_or p inner) (omega arith);
}

make_dir_exist_example :
    ((q : Bytes) → Ancestor disk q two_deep → path_exists disk q made_disk ≡ ok true)
    × ((q : Bytes) → path_exists disk q [] ≡ ok true → path_exists disk q made_disk ≡ ok true)
make_dir_exist_example =
    make_dir_exist disk disk-IsFileSystem disk-HasPaths two_deep [] made_disk refl made_two

abbrev two_bytes : Bytes
two_bytes = 1 ∷ 2 ∷ []

abbrev one_file : Disk
one_file = (text "f", some (1 ∷ 2 ∷ [])) ∷ []

abbrev copied_disk : Disk
copied_disk = (text "g", some (1 ∷ 2 ∷ [])) ∷ (text "f", some (1 ∷ 2 ∷ [])) ∷ []

file_there : disk.read_file one_file (slashed (text "f")) ≡ ok (1 ∷ 2 ∷ [])
unfolding lookup
file_there = refl

copied : copy_file disk (text "f") (text "g") one_file ≡ ok (2, copied_disk)
unfolding copy_file make_parents make_one path_exists split lookup insert remove
copied = refl

-- A sum of 32 zeros.
abbrev zeros : Bytes → Bytes
zeros b = replicate 32 0

abbrev summed_disk : Disk
summed_disk = (text "f.sha2", some (replicate 64 48)) ∷ one_file

summed : sha2_gen disk zeros (text "f") one_file ≡ ok summed_disk
unfolding sha2_gen sha2gen hex_encode lookup insert remove
summed = refl

check_sha2-sha2_gen_example : check_sha2 disk zeros (text "f") summed_disk ≡ true
check_sha2-sha2_gen_example =
    check_sha2-sha2_gen disk disk-IsFileSystem zeros (text "f") one_file summed_disk (λ b. refl)
      refl (λ v. refl) summed
