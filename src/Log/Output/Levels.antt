-- ===== src/Log/Output/Levels.antt =====
-- The levels that a logger lets through.
use bclib.Base.{
  ℕ, ◌≡◌, refl, ap, ◌∙◌, Bool, true, false, not, ◌&&◌, ◌||◌, Option, none, some, leb, if◌then◌else◌,
}
use bclib.Go.Text.{Bytes, text}
use bclib.Log.{
  LogInfo, has_bit, mask_of, allow_level, level_trace, level_debug, level_info, level_warn,
  level_error, level_fatal,
}
use bclib.Log.Output.{Outside, State, log, log_at}

-- The levels, the finest first.
pub data Level : Type 0 where
  at_trace at_debug at_info at_warn at_error at_fatal : Level

abbrev pub rank : Level → ℕ
rank at_trace = 0
rank at_debug = 1
rank at_info = 2
rank at_warn = 3
rank at_error = 4
rank at_fatal = 5

abbrev pub bit_of : Level → ℕ
bit_of at_trace = level_trace
bit_of at_debug = level_debug
bit_of at_info = level_info
bit_of at_warn = level_warn
bit_of at_error = level_error
bit_of at_fatal = level_fatal

-- What AllowLevel is given: a level, or "none".
abbrev pub threshold_name : Option Level → Bytes
threshold_name none = text "none"
threshold_name (some at_trace) = text "trace"
threshold_name (some at_debug) = text "debug"
threshold_name (some at_info) = text "info"
threshold_name (some at_warn) = text "warn"
threshold_name (some at_error) = text "error"
threshold_name (some at_fatal) = text "fatal"

abbrev pub lets_through : Option Level → Level → Bool
lets_through none l = false
lets_through (some t) l = leb (rank t) (rank l)

every :
    (P : Level → Type 0)
    → P at_trace
    → P at_debug
    → P at_info
    → P at_warn
    → P at_error
    → P at_fatal
    → (l : Level) → P l
every P a b c d e f at_trace = a
every P a b c d e f at_debug = b
every P a b c d e f at_info = c
every P a b c d e f at_warn = d
every P a b c d e f at_error = e
every P a b c d e f at_fatal = f

abbrev Shown : Option Level → ℕ → Level → Type 0
Shown t old l = has_bit (mask_of (threshold_name t) old) (bit_of l) ≡ lets_through t l

mask_shows : (t : Option Level) (old : ℕ) (l : Level) → Shown t old l
mask_shows none old = every (Shown none old) refl refl refl refl refl refl
mask_shows (some at_trace) old = every (Shown (some at_trace) old) refl refl refl refl refl refl
mask_shows (some at_debug) old = every (Shown (some at_debug) old) refl refl refl refl refl refl
mask_shows (some at_info) old = every (Shown (some at_info) old) refl refl refl refl refl refl
mask_shows (some at_warn) old = every (Shown (some at_warn) old) refl refl refl refl refl refl
mask_shows (some at_error) old = every (Shown (some at_error) old) refl refl refl refl refl refl
mask_shows (some at_fatal) old = every (Shown (some at_fatal) old) refl refl refl refl refl refl

swapped : (b c : Bool) (x y : State) → (if not b || not c then x else y) ≡ (if b && c then y else x)
swapped true true x y = refl
swapped true false x y = refl
swapped false true x y = refl
swapped false false x y = refl

-- After AllowLevel of a text that is, in lower case, the name of a level or "none", a message of a
-- level is logged exactly where it is of that level or a graver one, "none" letting none through,
-- and some output is on; else nothing changes.
log_at-allow_level :
    (o : Outside) (gid : ℕ) (to_lower : Bytes → Bytes) (lvl : Bytes) (t : Option Level) (l : Level)
    (li : LogInfo) (s : State)
    → to_lower lvl ≡ threshold_name t
    → log_at (bit_of l) o gid li (record s { logger = allow_level to_lower lvl s.logger }) ≡ (
        if lets_through t l && s.logger.is_output
        then log o gid li (record s { logger = allow_level to_lower lvl s.logger })
        else record s { logger = allow_level to_lower lvl s.logger })
unfolding log_at allow_level
log_at-allow_level o gid to_lower lvl t l li s h =
    let s' : State = record s { logger = allow_level to_lower lvl s.logger } in
    let b : has_bit (mask_of (to_lower lvl) s.logger.allowed) (bit_of l) ≡ lets_through t l =
      ap (λ n. has_bit (mask_of n s.logger.allowed) (bit_of l)) h
      ∙ mask_shows t s.logger.allowed l in
    ap (λ c. if not c || not s.logger.is_output then s' else log o gid li s') b
    ∙ swapped (lets_through t l) s.logger.is_output s' (log o gid li s')
