-- ===== src/Fs/Archive/Restored.antt =====
-- TarGz, and then UnTarGz into a place where no file has one of the archive's names.
use bclib.Base.{
  and_true, or_false, or_true, not-true, ℕ, zero, suc, Option, ◌≡◌, refl, sym, ap, ◌∙◌, Bool, true,
  false, ◌&&◌, ◌||◌, not, none, some, List, [], ◌∷◌, ◌++◌, map, append-nil, drop, length, bytes_eq,
  bytes_eq→eq, bytes_eq_refl, if◌then◌else◌, Bool-cases, inl, inr, ◌==◌,
}
use bclib.Go.Result.{Result, ok, err, ◌>>=◌, >>=-eq-ok}
use bclib.Go.Text.{Bytes, text}
use bclib.Fs.Archive.{
  Node, file, dir, closed_file, closed_dir, Infos, Typeflag, type_dir, type_reg, other_type, Header,
  Entry, tar_gz_file, tar_gz_infos, tar_gz_sub, tar_gz, overlay, Disk, IsDisk, un_tar_gz,
}
use bclib.Fs.Archive.Unpacked.{effect, replay, content_at-un_tar_gz}
use bclib.Fs.Archive.Packed.{HasFile, HasFiles, Listed, HasFile-Listed, HasFiles-Listed}

-- The name of the tree in the archive.
abbrev pub root_name : Bytes → ℕ → Bytes
root_name base flag = if flag == 0 then text "." else base

module _ (write_header : Header → Result (Unit {0})) (base : Bytes) where
  packed :
      (rec_path n b : Bytes) (node : Node) (archive : List Entry)
      → (tar_gz_file write_header rec_path node [] >>= tar_gz_sub write_header rec_path node)
        ≡ ok archive
      → HasFile node rec_path n b
      → Listed n b archive
  packed rec_path n b node archive h l =
      let (tw, one, sub) = >>=-eq-ok (tar_gz_file write_header rec_path node []) _ h in
      HasFile-Listed write_header n b rec_path node [] tw archive one sub l

  packed_dir :
      (zeroth first : Bool) (mode : ℕ) (infos : Infos) (n b : Bytes) (archive : List Entry)
      → (if zeroth
          then tar_gz_infos write_header (text ".") infos []
          else if first
          then (tar_gz_file write_header base (dir mode infos) []
              >>= tar_gz_infos write_header base infos)
          else err "Invlaid flag")
        ≡ ok archive
      → HasFiles infos (if zeroth then text "." else base) n b
      → Listed n b archive
  unfolding tar_gz_infos
  packed_dir true first mode infos n b archive h l =
      HasFiles-Listed write_header n b (text ".") infos [] archive h l
  packed_dir false true mode infos n b archive h l = packed base n b (dir mode infos) archive h l
  packed_dir false false mode infos n b archive h l = cc

  packed_file :
      (zeroth first : Bool) (mode : ℕ) (content n b : Bytes) (archive : List Entry)
      → (if zeroth
          then tar_gz_file write_header (text ".") (file mode content) []
          else if first
          then tar_gz_file write_header base (file mode content) []
          else err "Invlaid flag")
        ≡ ok archive
      → HasFile (file mode content) (if zeroth then text "." else base) n b
      → Listed n b archive
  unfolding tar_gz_infos
  packed_file true first mode content n b archive h l =
      HasFile-Listed write_header n b (text ".") (file mode content) [] archive archive h refl l
  packed_file false true mode content n b archive h l =
      HasFile-Listed write_header n b base (file mode content) [] archive archive h refl l
  packed_file false false mode content n b archive h l = cc

  -- Every file of the tree is in the archive, under its name behind the tree's.
  pub tar_gz-Listed :
      (node : Node) (flag : ℕ) (n b : Bytes) (archive : List Entry)
      → tar_gz write_header base node flag ≡ ok archive
      → HasFile node (root_name base flag) n b
      → Listed n b archive
  unfolding tar_gz
  tar_gz-Listed (dir mode infos) flag n b archive h l =
      packed_dir (flag == 0) (flag == 1) mode infos n b archive h l
  tar_gz-Listed (file mode content) flag n b archive h l =
      packed_file (flag == 0) (flag == 1) mode content n b archive h l
  tar_gz-Listed (closed_dir mode) flag n b archive h l = cc
  tar_gz-Listed (closed_file mode) flag n b archive h l = cc

abbrev pub member : Bytes → List Bytes → Bool
member x [] = false
member x (y ∷ ys) = bytes_eq y x || member x ys

abbrev pub distinct : List Bytes → Bool
distinct [] = true
distinct (x ∷ xs) = not (member x xs) && distinct xs

overlay-none : (b : Bytes) → overlay b none ≡ b
overlay-none b = ap (λ t. b ++ t) (dropped (length b)) ∙ append-nil b
  where
    dropped : (k : ℕ) → drop {A = ℕ} k [] ≡ []
    dropped zero = refl
    dropped (suc k) = refl

module _ {W : Type 0} (d : Disk W) (dst : Bytes) where
  abbrev pub targets : List Entry → List Bytes
  targets archive = map (λ (e : Entry). d.join dst e.header.name) archive

  effect_apart :
      (t : Typeflag) (e : Entry) (q : Bytes) (old : Option Bytes)
      → bytes_eq (d.join dst e.header.name) q ≡ false
      → effect d dst q t e old ≡ old
  effect_apart type_dir e q old h = refl
  effect_apart type_reg e q old h = rw h
  effect_apart other_type e q old h = refl

  replay_absent :
      (es : List Entry) (q : Bytes) (old : Option Bytes)
      → member q (targets es) ≡ false
      → replay d dst q es old ≡ old
  unfolding replay
  replay_absent [] q old h = refl
  replay_absent (e ∷ es) q old h =
      let apart = or_false (bytes_eq (d.join dst e.header.name) q) (member q (targets es)) h in
      replay_absent es q (effect d dst q e.header.typeflag e old) apart.1
      ∙ effect_apart e.header.typeflag e q old apart.0

  Listed-member :
      (es : List Entry) (n b : Bytes) → Listed n b es → member (d.join dst n) (targets es) ≡ true
  Listed-member [] n b h = absurd h
  Listed-member (e ∷ es) n b (inl (named, reg, same)) =
      ap (λ x. bytes_eq (d.join dst x) (d.join dst n) || member (d.join dst n) (targets es)) named
      ∙ ap (λ t. t || member (d.join dst n) (targets es)) (bytes_eq_refl (d.join dst n))
  Listed-member (e ∷ es) n b (inr h) =
      ap (λ t. bytes_eq (d.join dst e.header.name) (d.join dst n) || t) (Listed-member es n b h)
      ∙ or_true (bytes_eq (d.join dst e.header.name) (d.join dst n))

  replay-Listed :
      (es : List Entry) (n b : Bytes)
      → distinct (targets es) ≡ true
      → Listed n b es
      → replay d dst (d.join dst n) es none ≡ some b
  unfolding replay
  replay-Listed [] n b u h = absurd h
  replay-Listed (e ∷ es) n b u (inl (named, reg, same)) =
      ap (replay d dst (d.join dst n) es) written
      ∙ replay_absent es (d.join dst n) (some b)
          (ap (λ x. member (d.join dst x) (targets es)) (sym named) ∙ not-true _ (and_true _ _ u).0)
    where
      written : effect d dst (d.join dst n) e.header.typeflag e none ≡ some b
      written =
          ap (λ t. effect d dst (d.join dst n) t e none) reg
          ∙ ap
              (λ x.
                if bytes_eq (d.join dst x) (d.join dst n)
                then some (overlay e.content none)
                else none)
              named
          ∙ ap (λ t. if t then some (overlay e.content none) else none)
              (bytes_eq_refl (d.join dst n))
          ∙ ap some (overlay-none e.content ∙ same)
  replay-Listed (e ∷ es) n b u (inr h) =
      ap (replay d dst (d.join dst n) es)
        (effect_apart e.header.typeflag e (d.join dst n) none apart)
      ∙ replay-Listed es n b (and_true _ _ u).1 h
    where
      apart : bytes_eq (d.join dst e.header.name) (d.join dst n) ≡ false
      apart = elim (Bool-cases (bytes_eq (d.join dst e.header.name) (d.join dst n))) [
        | inr other ↦ other
        | inl hit ↦
            let fresh : member (d.join dst e.header.name) (targets es) ≡ false =
              not-true _ (and_true _ _ u).0 in
            let there : member (d.join dst e.header.name) (targets es) ≡ true =
              ap (λ x. member x (targets es))
                (bytes_eq→eq (d.join dst e.header.name) (d.join dst n) hit)
              ∙ Listed-member es n b h in
            cc
      ]

-- A file of a tree that TarGz packed is where UnTarGz puts its name under the destination, with its
-- content, when both returned no error, no two names of the archive stand for one path there, and no
-- file was there before.
pub un_tar_gz-tar_gz :
    {W : Type 0} (d : Disk W) (write_header : Header → Result (Unit {0})) (base dst : Bytes)
    (node : Node) (flag : ℕ) (n b : Bytes) (archive : List Entry) (w w' : W)
    → IsDisk d
    → tar_gz write_header base node flag ≡ ok archive
    → distinct (targets d dst archive) ≡ true
    → un_tar_gz d dst archive w ≡ ok w'
    → HasFile node (root_name base flag) n b
    → d.content_at w (d.join dst n) ≡ none
    → d.content_at w' (d.join dst n) ≡ some b
un_tar_gz-tar_gz d write_header base dst node flag n b archive w w' law packed apart unpacked held
      fresh =
    content_at-un_tar_gz d law dst archive (d.join dst n) w w' unpacked
    ∙ ap (replay d dst (d.join dst n) archive) fresh
    ∙ replay-Listed d dst archive n b apart
        (tar_gz-Listed write_header base node flag n b archive packed held)
