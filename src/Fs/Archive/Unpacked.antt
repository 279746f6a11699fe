-- ===== src/Fs/Archive/Unpacked.antt =====
-- What an unpacked archive leaves on the disk.
use bclib.Base.{
  ◌≡◌, sym, ap, ◌∙◌, Bool, true, false, Option, some, List, [], ◌∷◌, bytes_eq, bytes_eq→eq,
  if◌then◌else◌, Bool-cases, inl, inr,
}
use bclib.Go.Result.{ok, >>=-eq-ok, ok-injective}
use bclib.Go.Text.{Bytes}
use bclib.Fs.Archive.{
  Typeflag, type_dir, type_reg, other_type, Entry, Disk, IsDisk, overlay, extract, un_tar_gz,
}

module _ {W : Type 0} (d : Disk W) (dst q : Bytes) where
  -- What an entry makes of the content of one path: an entry of a file writes over its start.
  abbrev pub effect : Typeflag → Entry → Option Bytes → Option Bytes
  effect type_reg entry old =
      if bytes_eq (d.join dst entry.header.name) q then some (overlay entry.content old) else old
  effect type_dir entry old = old
  effect other_type entry old = old

  unfoldable pub replay : List Entry → Option Bytes → Option Bytes
  replay [] old = old
  replay (entry ∷ entries) old = replay entries (effect entry.header.typeflag entry old)

module _ {W : Type 0} (d : Disk W) (law : IsDisk d) (dst : Bytes) where
  made_or_there :
      (b : Bool) (target q : Bytes) (w w' : W)
      → (if b then ok w else d.mkdir_all target w) ≡ ok w'
      → d.content_at w' q ≡ d.content_at w q
  made_or_there true target q w w' h = ap (λ v. d.content_at v q) (sym (ok-injective h))
  made_or_there false target q w w' h = law.content_at-mkdir_all target q w w' h

  content_at-extract :
      (t : Typeflag) (entry : Entry) (q : Bytes) (w w' : W)
      → extract d (d.join dst entry.header.name) t entry w ≡ ok w'
      → d.content_at w' q ≡ effect d dst q t entry (d.content_at w q)
  content_at-extract type_dir entry q w w' h =
      made_or_there (d.stat w (d.join dst entry.header.name)) (d.join dst entry.header.name) q w w'
        h
  content_at-extract type_reg entry q w w' h = elim (Bool-cases (bytes_eq target q)) [
    | inl same ↦ at_put ∙ rw (same, bytes_eq→eq target q same)
    | inr other ↦ at_put ∙ rw other
  ]
    where
      target : Bytes
      target = d.join dst entry.header.name

      at_put : d.content_at w' q ≡ (
          if bytes_eq target q
          then some (overlay entry.content (d.content_at w target))
          else d.content_at w q)
      at_put = law.content_at-put target q entry.header.mode entry.content w w' h
  content_at-extract other_type entry q w w' h = ap (λ v. d.content_at v q) (sym (ok-injective h))

  -- After an UnTarGz that returns no error every path has the content that the entries of files for
  -- it make, one after the other, of what was there: each writes over the start.
  pub content_at-un_tar_gz :
      (entries : List Entry) (q : Bytes) (w w' : W)
      → un_tar_gz d dst entries w ≡ ok w'
      → d.content_at w' q ≡ replay d dst q entries (d.content_at w q)
  unfolding un_tar_gz replay
  content_at-un_tar_gz [] q w w' h = ap (λ v. d.content_at v q) (sym (ok-injective h))
  content_at-un_tar_gz (entry ∷ entries) q w w' h =
      let (mid, one, more) =
        >>=-eq-ok (extract d (d.join dst entry.header.name) entry.header.typeflag entry w) _ h in
      content_at-un_tar_gz entries q mid w' more
      ∙ ap (replay d dst q entries) (content_at-extract entry.header.typeflag entry q w mid one)
