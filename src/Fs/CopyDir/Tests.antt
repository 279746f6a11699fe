-- ===== src/Fs/CopyDir/Tests.antt =====
-- The theorems on CopyDir, over the disk of Fs/Tests. A pattern matches its own text, and the empty
-- one every name.
use bclib.Base.{◌≡◌, refl, ◌||◌, Bool, true, false, none, some, List, [], ◌∷◌, bytes_eq, All, arith}
use bclib.Go.Result.{Result, ok}
use bclib.Go.Text.{Bytes, text, has_prefix, replace_from, replace_all, split}
use bclib.Map.{lookup, insert, remove, bytes_key}
use bclib.Fs.{path_exists, make_one, make_parents, copy_file}
use bclib.Fs.Tests.{Disk, disk, disk-IsFileSystem}
use bclib.Fs.CopyDir.{Visit, is_empty, copy_visited, visit, visit_all, copy_dir}
use bclib.Fs.CopyDir.Selection.{chosen_paths, copy_dir_no_exclude}
use bclib.Fs.CopyDir.Contents.{source, target, copy_dir-Copied}

abbrev matches : Bytes → Bytes → Bool
matches p n = is_empty p || bytes_eq p n

abbrev match_string : Bytes → Bytes → Result Bool
match_string p n = ok (matches p n)

abbrev all_dirs : Disk → Bytes → Result Bool
all_dirs w p = ok true

abbrev two_files : Disk
two_files = (text "src/a", some (1 ∷ [])) ∷ (text "src/b", some (2 ∷ [])) ∷ (text "dst/", none) ∷ []

abbrev walk : Bytes → List Visit
walk root =
    record { path = text "src"; name = text "src"; is_dir = true; fault = none }
    ∷ record { path = text "src/a"; name = text "a"; is_dir = false; fault = none }
    ∷ record { path = text "src/b"; name = text "b"; is_dir = false; fault = none }
    ∷ []

abbrev one_copied : Disk
one_copied = (text "dst/a", some (1 ∷ [])) ∷ two_files

copied :
    copy_dir disk match_string all_dirs walk
      (text "src")
      (text "dst")
      (text "a")
      (text "c")
      two_files
    ≡ ok one_copied
unfolding copy_dir visit_all visit copy_visited copy_file make_parents make_one path_exists split
    lookup insert remove replace_all replace_from has_prefix
copied = refl

copy_dir-Copied_example :
    All
      (λ (path : Bytes).
        (c : Bytes)
        → disk.read_file two_files (source path) ≡ ok c
        → disk.read_file one_copied (target (text "src") (text "dst") path) ≡ ok c)
      (chosen_paths matches (text "a") (text "c") (walk (text "src")))
unfolding replace_all replace_from has_prefix
copy_dir-Copied_example =
    copy_dir-Copied disk match_string all_dirs matches walk (text "src") (text "dst") (text "a")
      (text "c") two_files one_copied disk-IsFileSystem (λ n. refl) (λ n. refl) refl refl
      (refl, (refl, (refl, tt))) refl copied

copy_dir_no_exclude_example :
    copy_dir disk match_string all_dirs walk (text "src") (text "dst") (text "a") [] two_files
    ≡ ok two_files
copy_dir_no_exclude_example =
    copy_dir_no_exclude disk match_string all_dirs matches walk (text "src") (text "dst") (text "a")
      two_files (λ n. refl) (λ n. refl) (λ n. refl) (omega arith) refl refl
      (refl, (refl, (refl, tt)))

-- The name of the source directory inside a path is replaced too.
renamed_inside : target (text "src") (text "dst") (text "src/lib_src/x") ≡ text "dst/lib_dst/x"
unfolding replace_all replace_from has_prefix
renamed_inside = refl
