-- ===== src/Docker/Pulling.antt =====
-- When the pull of an image comes to an end.
use bclib.Base.{
  ℕ, zero, suc, ◌<◌, ◌≡◌, refl, ap, Bool, true, false, ◌||◌, Option, none, some, List, [], ◌∷◌,
  length, replicate, if◌then◌else◌, Bool-cases, inl, inr, arith,
}
use bclib.Go.Result.{ok}
use bclib.Go.Text.{Bytes}
use bclib.Docker.Run.{Engine, done, hangs, not_exists, said, over, pull_loop, ensure_image}

-- A read fails, or the buffer shows one of the two phrases after a read.
abbrev pub speaks : Bytes → List (Option Bytes) → Bool
speaks byt [] = said byt
speaks byt (none ∷ reads) = true
speaks byt (some chunk ∷ reads) = said (over chunk byt) || speaks (over chunk byt) reads

pull_loop-speaks :
    (fuel : ℕ) (byt : Bytes) (reads : List (Option Bytes))
    → length reads < fuel
    → pull_loop fuel byt reads ≡ speaks byt reads
unfolding pull_loop
pull_loop-speaks zero byt reads h = absurd (omega arith)
pull_loop-speaks (suc fuel) byt (none ∷ reads) h = refl
pull_loop-speaks (suc fuel) byt (some chunk ∷ reads) h =
    rw (pull_loop-speaks fuel (over chunk byt) reads (omega arith)) (split (said (over chunk byt)))
  where
    split :
        (b : Bool)
        → (if b then true else speaks (over chunk byt) reads) ≡ (b || speaks (over chunk byt) reads)
    split true = refl
    split false = refl
pull_loop-speaks (suc fuel) byt [] h = elim (Bool-cases (said byt)) [
  | inl there ↦ rw there
  | inr absent ↦ rw absent (never fuel byt absent)
]
  where
    never : (f : ℕ) (b : Bytes) → said b ≡ false → pull_loop f b [] ≡ false
    never zero b n = refl
    never (suc f) b n = rw n (never f b n)

-- An image that no tag names is there after ensureImage, when the progress of its pull has a read that
-- fails or shows one of the two phrases. Else ensureImage goes on reading at the end of the progress,
-- however much fuel it has.
pub ensure_image-speaks :
    {W : Type 0} (e : Engine W) (fuel : ℕ) (image_name : Bytes) (images : List (List Bytes))
    (reads : List (Option Bytes)) (w w' : W)
    → e.image_list w ≡ ok images
    → not_exists images image_name ≡ true
    → e.image_pull image_name w ≡ ok (reads, w')
    → length reads < fuel
    → ensure_image e fuel image_name w
      ≡ (if speaks (replicate 500 0) reads then done tt w' else hangs)
unfolding ensure_image
ensure_image-speaks e fuel image_name images reads w w' listed absent pull enough =
    rw (listed, absent, pull)
      (ap (λ b. if b then done tt w' else hangs)
        (pull_loop-speaks fuel (replicate 500 0) reads enough))
