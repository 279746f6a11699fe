-- ===== src/Fs/Archive/Existing.antt =====
-- UnTarGz leaves something under the name of every directory and file of the archive.
use bclib.Base.{
  ◌≡◌, refl, sym, ap, ◌∙◌, Bool, true, false, ◌||◌, or_true, Option, some, List, [], ◌∷◌, bytes_eq,
  bytes_eq_refl, if◌then◌else◌, Bool-cases, inl, inr, All,
}
use bclib.Go.Result.{ok, >>=-eq-ok, ok-injective}
use bclib.Go.Text.{Bytes}
use bclib.Fs.Archive.{
  Typeflag, type_dir, type_reg, other_type, Entry, Disk, IsDisk, is_some, overlay, extract,
  un_tar_gz,
}

module _ {W : Type 0} (d : Disk W) (dst : Bytes) (w : W) where
  -- What an entry promises: a directory or a file exists under its name.
  abbrev pub Exists : Typeflag → Bytes → Type 0
  Exists type_dir target = d.stat w target ≡ true
  Exists type_reg target = d.stat w target ≡ true
  Exists other_type target = Unit {0}

  abbrev pub Present : Entry → Type 0
  Present entry = Exists entry.header.typeflag (d.join dst entry.header.name)

module _ {W : Type 0} (d : Disk W) (law : IsDisk d) (dst : Bytes) where
  -- A path stays when its directory and its content stay.
  stays :
      (p : Bytes) (w w' : W)
      → (d.is_dir_at w p ≡ true → d.is_dir_at w' p ≡ true)
      → (is_some (d.content_at w p) ≡ true → is_some (d.content_at w' p) ≡ true)
      → d.stat w p ≡ true
      → d.stat w' p ≡ true
  stays p w w' dirs files h = law.stat_lem w' p ∙ elim (Bool-cases (d.is_dir_at w p)) [
    | inl there ↦ ap (λ t. t || is_some (d.content_at w' p)) (dirs there)
    | inr not_there ↦
        let file : is_some (d.content_at w p) ≡ true =
          ap (λ t. t || is_some (d.content_at w p)) (sym not_there) ∙ sym (law.stat_lem w p) ∙ h in
        ap (λ t. d.is_dir_at w' p || t) (files file) ∙ or_true (d.is_dir_at w' p)
  ]

  stat-mkdir_all :
      (target p : Bytes) (w w' : W)
      → d.mkdir_all target w ≡ ok w'
      → d.stat w p ≡ true
      → d.stat w' p ≡ true
  stat-mkdir_all target p w w' h =
      stays p w w' (law.is_dir_at_kept target p w w' h)
        (λ e. ap is_some (law.content_at-mkdir_all target p w w' h) ∙ e)

  some_kept :
      (b : Bool) (c : Bytes) (o : Option Bytes)
      → is_some o ≡ true
      → is_some (if b then some c else o) ≡ true
  some_kept true c o h = refl
  some_kept false c o h = h

  stat-extract :
      (t : Typeflag) (entry : Entry) (target p : Bytes) (w w' : W)
      → extract d target t entry w ≡ ok w'
      → d.stat w p ≡ true
      → d.stat w' p ≡ true
  stat-extract type_dir entry target p w w' h s = elim (Bool-cases (d.stat w target)) [
    | inl there ↦ ap (λ v. d.stat v p) (sym (ok-injective (rw there at h))) ∙ s
    | inr absent ↦ stat-mkdir_all target p w w' (rw absent at h) s
  ]
  stat-extract type_reg entry target p w w' h s =
      stays p w w' (λ e. law.is_dir_at-put target p entry.header.mode entry.content w w' h ∙ e)
        (λ e.
          ap is_some (law.content_at-put target p entry.header.mode entry.content w w' h)
          ∙ some_kept (bytes_eq target p) (overlay entry.content (d.content_at w target))
              (d.content_at w p) e)
        s
  stat-extract other_type entry target p w w' h s = ap (λ v. d.stat v p) (sym (ok-injective h)) ∙ s

  extract-Exists :
      (t : Typeflag) (entry : Entry) (target : Bytes) (w w' : W)
      → extract d target t entry w ≡ ok w'
      → Exists d dst w' t target
  extract-Exists type_dir entry target w w' h = elim (Bool-cases (d.stat w target)) [
    | inl there ↦ ap (λ v. d.stat v target) (sym (ok-injective (rw there at h))) ∙ there
    | inr absent ↦
        law.stat_lem w' target
        ∙ ap (λ t. t || is_some (d.content_at w' target))
            (law.is_dir_at-mkdir_all target w w' (rw absent at h))
  ]
  extract-Exists type_reg entry target w w' h =
      law.stat_lem w' target
      ∙ ap (λ t. d.is_dir_at w' target || t)
          (ap is_some (law.content_at-put target target entry.header.mode entry.content w w' h)
            ∙ ap
                (λ t. is_some (
                  if t
                  then some (overlay entry.content (d.content_at w target))
                  else d.content_at w target))
                (bytes_eq_refl target))
      ∙ or_true (d.is_dir_at w' target)
  extract-Exists other_type entry target w w' h = tt

  stat-un_tar_gz :
      (entries : List Entry) (p : Bytes) (w w' : W)
      → un_tar_gz d dst entries w ≡ ok w'
      → d.stat w p ≡ true
      → d.stat w' p ≡ true
  unfolding un_tar_gz
  stat-un_tar_gz [] p w w' h s = ap (λ v. d.stat v p) (sym (ok-injective h)) ∙ s
  stat-un_tar_gz (entry ∷ entries) p w w' h s =
      let target = d.join dst entry.header.name in
      let (mid, one, more) = >>=-eq-ok (extract d target entry.header.typeflag entry w) _ h in
      stat-un_tar_gz entries p mid w' more
        (stat-extract entry.header.typeflag entry target p w mid one s)

  Exists-kept :
      (t : Typeflag) (entries : List Entry) (target : Bytes) (w w' : W)
      → un_tar_gz d dst entries w ≡ ok w'
      → Exists d dst w t target
      → Exists d dst w' t target
  Exists-kept type_dir entries target w w' h e = stat-un_tar_gz entries target w w' h e
  Exists-kept type_reg entries target w w' h e = stat-un_tar_gz entries target w w' h e
  Exists-kept other_type entries target w w' h e = tt

  -- After an UnTarGz that returns no error os.Stat finds something under the name of every directory
  -- and of every file of the archive.
  un_tar_gz-Present :
      (entries : List Entry) (w w' : W)
      → un_tar_gz d dst entries w ≡ ok w'
      → All (Present d dst w') entries
  unfolding un_tar_gz
  un_tar_gz-Present [] w w' h = tt
  un_tar_gz-Present (entry ∷ entries) w w' h =
      let target = d.join dst entry.header.name in
      let (mid, one, more) = >>=-eq-ok (extract d target entry.header.typeflag entry w) _ h in
      (
        Exists-kept entry.header.typeflag entries target mid w' more
            (extract-Exists entry.header.typeflag entry target w mid one),
        un_tar_gz-Present entries mid w' more,
      )
