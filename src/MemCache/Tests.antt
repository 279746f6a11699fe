-- ===== src/MemCache/Tests.antt =====
-- The theorems on the memory cache at concrete inputs.
use bclib.Base.{ℕ, ◌≡◌, ◌≢◌, refl, none, some, List, [], ◌∷◌}
use bclib.Go.Int.{pos}
use bclib.Go.Text.{text}
use bclib.Map.{lookup, insert, remove, int_key, bytes_key}
use bclib.MemCache.{TxCache, MemCache, dirty}
use bclib.MemCache.Undo.{set_all, dirty-set_all, Without}
use bclib.MemCache.Store.{
  Instance, new_mc_instance, caches, new_mc, set_at, commit_trans, Call, opens, sets, step, run,
}
use bclib.MemCache.Store.Owned.{Inv, new_mc_instance-Inv, run-Inv}
use bclib.MemCache.Store.Spec.{Request, reads, writes, answers, served}
use bclib.MemCache.Store.Spec as Spec
use bclib.MemCache.Store.Spec.Refines.{answers_refine}

abbrev entry : ℕ → ℕ → TxCache
entry i b = record { id = pos i; value = some (b ∷ []) }

abbrev layered : MemCache
layered = record { trans_id = pos 1; key = text "k"; tx = entry 2 20 ∷ entry 1 10 ∷ [] }

dirty-set_all_example :
    dirty (pos 3) (set_all (pos 3) (some (30 ∷ []) ∷ none ∷ []) layered) ≡ layered
dirty-set_all_example =
    dirty-set_all (pos 3) (some (30 ∷ []) ∷ none ∷ []) layered (refl, (refl, tt))

-- Call 1 wrote, then call 2: undoing call 1 leaves its entry.
kept : ¬ (Without (pos 1) (entry 1 10 ∷ []))
kept h = cc (h.0)

abbrev script : List Call
script = opens (pos 1) (text "a") ∷ opens (pos 2) (text "a") ∷ sets 0 (pos 7) (some (9 ∷ [])) ∷ []

abbrev shared_key : Instance
shared_key = run new_mc_instance script

first_place : lookup (text "a") (caches shared_key (pos 1)) ≡ some 0
unfolding run step new_mc_instance new_mc set_at lookup insert remove
first_place = refl

second_place : lookup (text "a") (caches shared_key (pos 2)) ≡ some 1
unfolding run step new_mc_instance new_mc set_at lookup insert remove
second_place = refl

nothing_left : lookup (text "a") (caches (commit_trans shared_key (pos 1)) (pos 1)) ≡ none
unfolding run step new_mc_instance new_mc set_at lookup insert remove commit_trans
nothing_left = refl

apart : pos 1 ≢ pos 2
apart e = cc

shared_key-Inv : Inv shared_key
shared_key-Inv = run-Inv new_mc_instance script new_mc_instance-Inv

-- A transaction writes and commits, another reads.
abbrev requests : List Request
requests =
    writes (pos 1) (pos 7) (text "a") (some (9 ∷ []))
    ∷ Spec.Request.commits (pos 1)
    ∷ reads (pos 2) (text "a")
    ∷ []

answers_refine_example : answers new_mc_instance requests ≡ none ∷ none ∷ some (9 ∷ []) ∷ []
unfolding served
answers_refine_example = answers_refine requests
