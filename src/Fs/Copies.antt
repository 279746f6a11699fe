-- ===== src/Fs/Copies.antt =====
-- Files that are copied, and files that are checked.
use bclib.Base.{
  ℕ, ◌*◌, ◌≡◌, refl, sym, ap, ◌∙◌, Bool, true, false, List, [], ◌∷◌, ◌++◌, length, take_all,
  bytes_eq_refl, if◌then◌else◌, arith,
}
use bclib.Go.Result.{Result, ok, ◌>>=◌, >>=-eq-ok, ok-injective}
use bclib.Go.Text.{Bytes, text, split}
use bclib.Go.Format.{hex_encode, length-hex_encode}
use bclib.Fs.{
  Os, IsFileSystem, path_exists, make_one, make_parents, slashed, copy_file, sha2gen, sha2_gen,
  is_sum, checked, check_sha2,
}

module _ {W : Type 0} (os : Os W) (law : IsFileSystem os) where
  read_made :
      (b : Bool) (path q c : Bytes) (w w' : W)
      → (if b then ok w else os.mkdir path w) ≡ ok w'
      → os.read_file w q ≡ ok c
      → os.read_file w' q ≡ ok c
  read_made true path q c w w' h e = ap (λ v. os.read_file v q) (sym (ok-injective h)) ∙ e
  read_made false path q c w w' h e = law.read-mkdir path q c w w' h e

  read-make_one :
      (path q c : Bytes) (w w' : W)
      → make_one os path w ≡ ok w'
      → os.read_file w q ≡ ok c
      → os.read_file w' q ≡ ok c
  unfolding make_one path_exists
  read-make_one path q c w w' h e =
      let (b, there, rest) = >>=-eq-ok (os.stat w path) _ h in read_made b path q c w w' rest e

  pub read-make_parents :
      (prefix q c : Bytes) (segs : List Bytes) (w w' : W)
      → make_parents os prefix segs w ≡ ok w'
      → os.read_file w q ≡ ok c
      → os.read_file w' q ≡ ok c
  unfolding make_parents
  read-make_parents prefix q c [] w w' h e = ap (λ v. os.read_file v q) (sym (ok-injective h)) ∙ e
  read-make_parents prefix q c (seg ∷ []) w w' h e =
      ap (λ v. os.read_file v q) (sym (ok-injective h)) ∙ e
  read-make_parents prefix q c (seg ∷ next ∷ segs) w w' h e =
      let path = prefix ++ seg ++ text "/" in
      let (mid, one, more) = >>=-eq-ok (make_one os path w) _ h in
      read-make_parents path q c (next ∷ segs) mid w' more (read-make_one path q c w mid one e)

  -- A CopyFile that returns no error leaves in the destination what was in the source, and returns
  -- its length, but where the two are one file: then the file is empty.
  pub read-copy_file :
      (src dest content : Bytes) (n : ℕ) (w w' : W)
      → os.read_file w (slashed src) ≡ ok content
      → copy_file os src dest w ≡ ok (n, w')
      → let kept : Bytes = if os.same_file (slashed dest) (slashed src) then [] else content in
        (os.read_file w' (slashed dest) ≡ ok kept) × (n ≡ length kept)
  unfolding copy_file
  read-copy_file src dest content n w w' there h =
      let (opened, o, h₁) = >>=-eq-ok (os.read_file w (slashed src)) _ h in
      let (w₁, parents, h₂) = >>=-eq-ok (make_parents os [] (split b'/' (slashed dest)) w) _ h₁ in
      let (w₂, created, h₃) = >>=-eq-ok (os.create (slashed dest) w₁) _ h₂ in
      let (c, got, h₄) = >>=-eq-ok (os.read_file w₂ (slashed src)) _ h₃ in
      let (w₃, wrote, h₅) = >>=-eq-ok (os.write (slashed dest) c w₂) _ h₄ in
      let src_kept =
        read-make_parents [] (slashed src) content (split b'/' (slashed dest)) w w₁ parents there in
      let same =
        ok-injective
          (sym got ∙ law.read-create (slashed dest) (slashed src) content w₁ w₂ created src_kept) in
      let end = ok-injective h₅ in
      (
        ap (λ (r : ℕ × W). os.read_file r.1 (slashed dest)) (sym end)
            ∙ law.read-write (slashed dest) c w₂ w₃ wrote
            ∙ ap ok same,
        ap (λ (r : ℕ × W). r.0) (sym end) ∙ ap length same,
      )

  module _ (sha256 : Bytes → Bytes) where
    -- After a Sha2Gen of a file that returned no error CheckSha2 accepts the file. The sum has 32
    -- bytes, the file of the sum is another file, and filepath.Clean leaves each name naming its file.
    pub check_sha2-sha2_gen :
        (full_path : Bytes) (w w' : W)
        → ((b : Bytes) → length (sha256 b) ≡ 32)
        → os.same_file (full_path ++ text ".sha2") (os.clean full_path) ≡ false
        → ((v : W)
            → os.read_file v (os.clean (full_path ++ text ".sha2"))
              ≡ os.read_file v (full_path ++ text ".sha2"))
        → sha2_gen os sha256 full_path w ≡ ok w'
        → check_sha2 os sha256 full_path w' ≡ true
    unfolding sha2_gen sha2gen check_sha2
    check_sha2-sha2_gen full_path w w' size apart named h =
        let sum_path = full_path ++ text ".sha2" in
        let (sum, s, h₁) = >>=-eq-ok (sha2gen os sha256 full_path w) _ h in
        let (content, read, e) = >>=-eq-ok (os.read_file w (os.clean full_path)) _ s in
        let (w₁, created, wrote) = >>=-eq-ok (os.create sum_path w) _ h₁ in
        let after_create : os.read_file w₁ (os.clean full_path) ≡ ok content =
          law.read-create sum_path (os.clean full_path) content w w₁ created read
          ∙ ap (λ b. ok (if b then [] else content)) apart in
        let after =
          law.read_apart sum_path (os.clean full_path) sum content w₁ w' wrote apart after_create in
        let again : sha2gen os sha256 full_path w' ≡ ok sum =
          ap (λ (r : Result Bytes). r >>= λ c. ok (hex_encode (sha256 c))) after ∙ e in
        let long : length sum ≡ 64 =
          ap length (sym (ok-injective e))
          ∙ length-hex_encode (sha256 content)
          ∙ ap (λ k. 2 * k) (size content) in
        ap (λ r. checked r (os.read_file w' (os.clean sum_path))) again
        ∙ ap (is_sum sum) (named w' ∙ law.read-write sum_path sum w₁ w' wrote)
        ∙ rw (long, take_all {n = 64} sum (omega (arith, long)), bytes_eq_refl sum) refl
