-- ===== src/Fs/Archive/Packed.antt =====
-- A tree that is packed, and its archive unpacked into a place where no file has one of its names.
use mathlib.Core.Path.{subst}
use bclib.Base.{◌≡◌, refl, ◌∙◌, ◌⊎◌, List, [], ◌∷◌, ◌++◌, inl, inr}
use bclib.Go.Result.{Result, ok, ◌>>◌, >>=-eq-ok, ok-injective}
use bclib.Go.Text.{Bytes}
use bclib.Fs.Archive.{
  Node, file, dir, closed_file, closed_dir, Infos, end, info, type_reg, Header, Entry, dir_header,
  file_header, tar_gz_file, tar_gz_infos, tar_gz_sub,
}

-- A file of the tree under a name with slashes, where the tree itself has the name `rec_path`.
abbrev mutual
  pub HasFile : Node → Bytes → Bytes → Bytes → Type 0
  HasFile (file mode content) rec_path n b = (rec_path ≡ n) × (content ≡ b)
  HasFile (dir mode infos) rec_path n b = HasFiles infos rec_path n b
  HasFile (closed_file mode) rec_path n b = ⊥
  HasFile (closed_dir mode) rec_path n b = ⊥

  pub HasFiles : Infos → Bytes → Bytes → Bytes → Type 0
  HasFiles end rec_path n b = ⊥
  HasFiles (info name node infos) rec_path n b =
      HasFile node (rec_path ++ b'/' ∷ name) n b ⊎ HasFiles infos rec_path n b

-- An entry of a file in an archive.
abbrev pub Listed : Bytes → Bytes → List Entry → Type 0
Listed n b [] = ⊥
Listed n b (e ∷ es) =
    ((e.header.name ≡ n) × (e.header.typeflag ≡ type_reg) × (e.content ≡ b)) ⊎ Listed n b es

Listed-left : (n b : Bytes) (es fs : List Entry) → Listed n b es → Listed n b (es ++ fs)
Listed-left n b [] fs h = absurd h
Listed-left n b (e ∷ es) fs (inl h) = inl h
Listed-left n b (e ∷ es) fs (inr h) = inr (Listed-left n b es fs h)

Listed-right : (n b : Bytes) (es fs : List Entry) → Listed n b fs → Listed n b (es ++ fs)
Listed-right n b [] fs h = h
Listed-right n b (e ∷ es) fs h = inr (Listed-right n b es fs h)

module _ (write_header : Header → Result (Unit {0})) (n b : Bytes) where
  added :
      (header : Header) (content : Bytes) (tw tw' : List Entry)
      → (write_header header >> ok (tw ++ record { header = header; content = content } ∷ []))
        ≡ ok tw'
      → tw ++ record { header = header; content = content } ∷ [] ≡ tw'
  added header content tw tw' h =
      let (u, w, e) = >>=-eq-ok (write_header header) _ h in ok-injective e

  Listed-tar_gz_file :
      (rec_path : Bytes) (node : Node) (tw tw' : List Entry)
      → tar_gz_file write_header rec_path node tw ≡ ok tw'
      → Listed n b tw
      → Listed n b tw'
  unfolding tar_gz_file
  Listed-tar_gz_file rec_path (dir mode infos) tw tw' h l =
      subst (Listed n b) (added (dir_header mode rec_path) [] tw tw' h) (Listed-left n b tw _ l)
  Listed-tar_gz_file rec_path (closed_dir mode) tw tw' h l =
      subst (Listed n b) (added (dir_header mode rec_path) [] tw tw' h) (Listed-left n b tw _ l)
  Listed-tar_gz_file rec_path (file mode content) tw tw' h l =
      subst (Listed n b) (added (file_header mode rec_path) content tw tw' h)
        (Listed-left n b tw _ l)
  Listed-tar_gz_file rec_path (closed_file mode) tw tw' h l = cc

  -- Packing only adds entries, and adds one for every file.
  mutual
    unfolding tar_gz_infos

    Listed-tar_gz_infos :
        (rec_path : Bytes) (infos : Infos) (tw tw' : List Entry)
        → tar_gz_infos write_header rec_path infos tw ≡ ok tw'
        → Listed n b tw
        → Listed n b tw'
    Listed-tar_gz_infos rec_path end tw tw' h l = subst (Listed n b) (ok-injective h) l
    Listed-tar_gz_infos rec_path (info name node infos) tw tw' h l =
        let (tw₁, one, h₁) =
          >>=-eq-ok (tar_gz_file write_header (rec_path ++ b'/' ∷ name) node tw) _ h in
        let (tw₂, sub, more) =
          >>=-eq-ok (tar_gz_sub write_header (rec_path ++ b'/' ∷ name) node tw₁) _ h₁ in
        Listed-tar_gz_infos rec_path infos tw₂ tw' more (
          Listed-tar_gz_sub (rec_path ++ b'/' ∷ name) node tw₁ tw₂ sub
            (Listed-tar_gz_file (rec_path ++ b'/' ∷ name) node tw tw₁ one l))

    Listed-tar_gz_sub :
        (rec_path : Bytes) (node : Node) (tw tw' : List Entry)
        → tar_gz_sub write_header rec_path node tw ≡ ok tw'
        → Listed n b tw
        → Listed n b tw'
    Listed-tar_gz_sub rec_path (dir mode infos) tw tw' h l =
        Listed-tar_gz_infos rec_path infos tw tw' h l
    Listed-tar_gz_sub rec_path (closed_dir mode) tw tw' h l = cc
    Listed-tar_gz_sub rec_path (file mode content) tw tw' h l =
        subst (Listed n b) (ok-injective h) l
    Listed-tar_gz_sub rec_path (closed_file mode) tw tw' h l = subst (Listed n b) (ok-injective h) l

  mutual
    unfolding tar_gz_infos tar_gz_file

    pub HasFiles-Listed :
        (rec_path : Bytes) (infos : Infos) (tw tw' : List Entry)
        → tar_gz_infos write_header rec_path infos tw ≡ ok tw'
        → HasFiles infos rec_path n b
        → Listed n b tw'
    HasFiles-Listed rec_path end tw tw' h l = absurd l
    HasFiles-Listed rec_path (info name node infos) tw tw' h l =
        let (tw₁, one, h₁) =
          >>=-eq-ok (tar_gz_file write_header (rec_path ++ b'/' ∷ name) node tw) _ h in
        let (tw₂, sub, more) =
          >>=-eq-ok (tar_gz_sub write_header (rec_path ++ b'/' ∷ name) node tw₁) _ h₁ in
        elim l [
          | inl here ↦
              Listed-tar_gz_infos rec_path infos tw₂ tw' more
                (HasFile-Listed (rec_path ++ b'/' ∷ name) node tw tw₁ tw₂ one sub here)
          | inr later ↦ HasFiles-Listed rec_path infos tw₂ tw' more later
        ]

    pub HasFile-Listed :
        (rec_path : Bytes) (node : Node) (tw tw₁ tw₂ : List Entry)
        → tar_gz_file write_header rec_path node tw ≡ ok tw₁
        → tar_gz_sub write_header rec_path node tw₁ ≡ ok tw₂
        → HasFile node rec_path n b
        → Listed n b tw₂
    HasFile-Listed rec_path (dir mode infos) tw tw₁ tw₂ one sub l =
        HasFiles-Listed rec_path infos tw₁ tw₂ sub l
    HasFile-Listed rec_path (closed_dir mode) tw tw₁ tw₂ one sub l = absurd l
    HasFile-Listed rec_path (closed_file mode) tw tw₁ tw₂ one sub l = absurd l
    HasFile-Listed rec_path (file mode content) tw tw₁ tw₂ one sub (named, same) =
        subst (Listed n b) (added (file_header mode rec_path) content tw tw₁ one ∙ ok-injective sub)
          (Listed-right n b tw
            (record { header = file_header mode rec_path; content = content } ∷ [])
            (inl (named, refl, same)))
