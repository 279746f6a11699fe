-- ===== src/Fs/CopyDir/Contents.antt =====
-- What the files that CopyDir copied contain.
use bclib.Base.{
  ◌≡◌, sym, ap, ◌∙◌, Bool, true, false, ◌&&◌, not, and_true, not-true, none, List, [], ◌∷◌,
  if◌then◌else◌, All, ℕ,
}
use bclib.Go.Result.{Result, ok, >>=-eq-ok, ok-injective}
use bclib.Go.Text.{Bytes, split}
use bclib.Fs.{Os, IsFileSystem, slashed, make_parents, copy_file}
use bclib.Fs.Copies.{read-make_parents, read-copy_file}
use bclib.Fs.CopyDir.{Visit, dest_of, copy_visited, copy_dir}
use bclib.Fs.CopyDir.Selection.{Compiles, chosen_paths, copy_each, copy_dir-copy_each}

abbrev pub source : Bytes → Bytes
source path = slashed (slashed path)

abbrev pub target : Bytes → Bytes → Bytes → Bytes
target src dest path = slashed (dest_of src dest path)

-- No copy writes to a file that is copied later, to its own source, or to what an earlier one wrote.
module _ {W : Type 0} (os : Os W) (src dest : Bytes) where
  abbrev pub spares : Bytes → List Bytes → Bool
  spares p [] = true
  spares p (q ∷ qs) =
      not (os.same_file (target src dest q) (target src dest p))
      && (not (os.same_file (target src dest p) (source q)) && spares p qs)

  abbrev pub undisturbed : List Bytes → Bool
  undisturbed [] = true
  undisturbed (p ∷ ps) =
      not (os.same_file (target src dest p) (source p)) && (spares p ps && undisturbed ps)

module _ {W : Type 0} (os : Os W) (law : IsFileSystem os) (src dest : Bytes) where
  -- A copy leaves the files that are not its destination.
  read-copy_file_other :
      (from to q c : Bytes) (n : ℕ) (w w' : W)
      → copy_file os from to w ≡ ok (n, w')
      → os.same_file (slashed to) q ≡ false
      → os.read_file w q ≡ ok c
      → os.read_file w' q ≡ ok c
  unfolding copy_file
  read-copy_file_other from to q c n w w' h apart e =
      let (opened, o, h₁) = >>=-eq-ok (os.read_file w (slashed from)) _ h in
      let (w₁, parents, h₂) = >>=-eq-ok (make_parents os [] (split b'/' (slashed to)) w) _ h₁ in
      let (w₂, created, h₃) = >>=-eq-ok (os.create (slashed to) w₁) _ h₂ in
      let (b, got, h₄) = >>=-eq-ok (os.read_file w₂ (slashed from)) _ h₃ in
      let (w₃, wrote, h₅) = >>=-eq-ok (os.write (slashed to) b w₂) _ h₄ in
      let kept = read-make_parents os law [] q c (split b'/' (slashed to)) w w₁ parents e in
      let after_create : os.read_file w₂ q ≡ ok c =
        law.read-create (slashed to) q c w₁ w₂ created kept
        ∙ ap (λ t. ok (if t then [] else c)) apart in
      ap (λ (r : ℕ × W). os.read_file r.1 q) (sym (ok-injective h₅))
      ∙ law.read_apart (slashed to) q b c w₂ w₃ wrote apart after_create

  read-copy_visited_other :
      (path q c : Bytes) (w w' : W)
      → copy_visited os src dest path w ≡ ok w'
      → os.same_file (target src dest path) q ≡ false
      → os.read_file w q ≡ ok c
      → os.read_file w' q ≡ ok c
  unfolding copy_visited
  read-copy_visited_other path q c w w' h apart e =
      let (r, copied, h₁) = >>=-eq-ok (copy_file os (slashed path) (dest_of src dest path) w) _ h in
      ap (λ v. os.read_file v q) (sym (ok-injective h₁))
      ∙ read-copy_file_other (slashed path) (dest_of src dest path) q c r.0 w r.1 copied apart e

  read-copy_visited :
      (path c : Bytes) (w w' : W)
      → copy_visited os src dest path w ≡ ok w'
      → os.same_file (target src dest path) (source path) ≡ false
      → os.read_file w (source path) ≡ ok c
      → os.read_file w' (target src dest path) ≡ ok c
  unfolding copy_visited
  read-copy_visited path c w w' h apart e =
      let (r, copied, h₁) = >>=-eq-ok (copy_file os (slashed path) (dest_of src dest path) w) _ h in
      ap (λ v. os.read_file v (target src dest path)) (sym (ok-injective h₁))
      ∙ (read-copy_file os law (slashed path) (dest_of src dest path) c r.0 w r.1 e copied).0
      ∙ ap (λ t. ok (if t then [] else c)) apart

  -- The file stays behind copies that spare it.
  spared :
      (p c : Bytes) (ps : List Bytes) (w w' : W)
      → copy_each os src dest ps w ≡ ok w'
      → spares os src dest p ps ≡ true
      → os.read_file w (target src dest p) ≡ ok c
      → os.read_file w' (target src dest p) ≡ ok c
  unfolding copy_each
  spared p c [] w w' h u e = ap (λ v. os.read_file v (target src dest p)) (sym (ok-injective h)) ∙ e
  spared p c (q ∷ qs) w w' h u e =
      let (mid, one, more) = >>=-eq-ok (copy_visited os src dest q w) _ h in
      let parts = and_true _ _ u in
      spared p c qs mid w' more (and_true _ _ parts.1).1
        (read-copy_visited_other q (target src dest p) c w mid one (not-true _ parts.0) e)

  -- The file has what its source had before the copying.
  abbrev pub Copied : W → W → Bytes → Type 0
  Copied w w' p =
      (c : Bytes) → os.read_file w (source p) ≡ ok c → os.read_file w' (target src dest p) ≡ ok c

  moved_back :
      (p : Bytes) (ps : List Bytes) (w mid w' : W)
      → copy_visited os src dest p w ≡ ok mid
      → spares os src dest p ps ≡ true
      → All (Copied mid w') ps
      → All (Copied w w') ps
  moved_back p [] w mid w' h u a = tt
  moved_back p (q ∷ qs) w mid w' h u a =
      let parts = and_true _ _ (and_true _ _ u).1 in
      (
        λ c e. a.0 c (read-copy_visited_other p (source q) c w mid h (not-true _ parts.0) e),
        moved_back p qs w mid w' h parts.1 a.1,
      )

  pub copy_each-Copied :
      (ps : List Bytes) (w w' : W)
      → copy_each os src dest ps w ≡ ok w'
      → undisturbed os src dest ps ≡ true
      → All (Copied w w') ps
  unfolding copy_each
  copy_each-Copied [] w w' h u = tt
  copy_each-Copied (p ∷ ps) w w' h u =
      let (mid, one, more) = >>=-eq-ok (copy_visited os src dest p w) _ h in
      let parts = and_true _ _ u in
      let others = and_true _ _ parts.1 in
      (
        λ c e.
            spared p c ps mid w' more others.0
              (read-copy_visited p c w mid one (not-true _ parts.0) e),
        moved_back p ps w mid w' one others.0 (copy_each-Copied ps mid w' more others.1),
      )

-- After a CopyDir that returns no error every file that the patterns choose has under its new name
-- what it had under the old one before. The patterns compile, the walk has no error, and no copy
-- writes to its own source, to a file that is copied later, or to what was copied before.
pub copy_dir-Copied :
    {W : Type 0} (os : Os W) (match_string : Bytes → Bytes → Result Bool)
    (stat_dir : W → Bytes → Result Bool) (m : Bytes → Bytes → Bool) (walk : Bytes → List Visit)
    (src_path dest_path mre exre : Bytes) (w w' : W)
    → IsFileSystem os
    → Compiles match_string m mre
    → Compiles match_string m exre
    → stat_dir w (slashed src_path) ≡ ok true
    → stat_dir w (slashed dest_path) ≡ ok true
    → All (λ (v : Visit). v.fault ≡ none) (walk (slashed src_path))
    → undisturbed os
        (slashed src_path)
        (slashed dest_path)
        (chosen_paths m mre exre (walk (slashed src_path)))
      ≡ true
    → copy_dir os match_string stat_dir walk src_path dest_path mre exre w ≡ ok w'
    → All
        (λ (path : Bytes).
          (c : Bytes)
          → os.read_file w (source path) ≡ ok c
          → os.read_file w' (target (slashed src_path) (slashed dest_path) path) ≡ ok c)
        (chosen_paths m mre exre (walk (slashed src_path)))
copy_dir-Copied os match_string stat_dir m walk src_path dest_path mre exre w w' law first second s
      d h u e =
    copy_each-Copied os law (slashed src_path) (slashed dest_path)
      (chosen_paths m mre exre (walk (slashed src_path))) w w'
      (sym (
          copy_dir-copy_each os match_string stat_dir m mre exre first second walk src_path
            dest_path w s d h)
        ∙ e)
      u
