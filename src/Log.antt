-- ===== src/Log.antt =====
-- log/logger.go: levels, the texts of log lines, log files that are replaced when they are full, and
-- the queue of asynchronous output. Keys, values and formatted messages are their texts.
pub mod Text
pub mod Output
mod Tests
use bclib.Base.{
  ℕ, ◌+◌, ◌/◌, ◌%◌, ◌≡◌, Bool, true, false, ◌&&◌, ◌||◌, not, Option, none, some, List, [], ◌∷◌,
  ◌++◌, leb, ltb, ◌==◌, length, bytes_eq, if◌then◌else◌,
}
use bclib.Go.Text.{Bytes, text}

-- One bit for each level.
abbrev pub level_trace : ℕ
level_trace = 1

abbrev pub level_debug : ℕ
level_debug = 2

abbrev pub level_info : ℕ
level_info = 4

abbrev pub level_warn : ℕ
level_warn = 8

abbrev pub level_error : ℕ
level_error = 16

abbrev pub level_fatal : ℕ
level_fatal = 32

abbrev pub default_file_size : ℕ
default_file_size = 20971520

-- `allowed & bit != 0` for a single bit.
abbrev pub has_bit : ℕ → ℕ → Bool
has_bit allowed bit = (allowed / bit) % 2 == 1

-- The masks of AllowLevel are disjunctions of the levels from one on.
abbrev pub mask_of : Bytes → ℕ → ℕ
mask_of lvl old =
    if bytes_eq lvl (text "trace")
    then level_fatal + level_error + level_warn + level_info + level_debug + level_trace
    else if bytes_eq lvl (text "debug")
    then level_fatal + level_error + level_warn + level_info + level_debug
    else if bytes_eq lvl (text "info")
    then level_fatal + level_error + level_warn + level_info
    else if bytes_eq lvl (text "warn")
    then level_fatal + level_error + level_warn
    else if bytes_eq lvl (text "error")
    then level_fatal + level_error
    else if bytes_eq lvl (text "fatal")
    then level_fatal
    else if bytes_eq lvl (text "none")
    then 0
    else old

-- A message that waits in the queue: of Log, or of LogEx with its text formatted.
pub data LogInfo : Type 0 where
  plain : Bytes → Bytes → List Bytes → LogInfo
  formatted : Bytes → Bytes → LogInfo

pub record Logger : Type 0 where
  pub path : Bytes
  pub module_name : Bytes
  pub allowed : ℕ
  pub is_output_async : Bool
  pub is_output_to_screen : Bool
  pub is_output_to_file : Bool
  pub is_output : Bool
  pub with_thread_id : Bool
  pub max_file_size : ℕ
  pub cur_file_size : ℕ
  pub file_name : Bytes
  -- the name and the offset of an open file
  pub log_file : Option (Bytes × ℕ)
  pub cf : List LogInfo

unfoldable pub new_gi_logger : Bytes → Bytes → Logger
new_gi_logger path module_name = record {
  path = path;
  module_name = module_name;
  allowed = level_fatal + level_error + level_warn + level_info;
  is_output_async = false;
  is_output_to_screen = false;
  is_output_to_file = true;
  is_output = true;
  with_thread_id = true;
  max_file_size = default_file_size;
  cur_file_size = 0;
  file_name = [];
  log_file = none;
  cf = [];
}

unfoldable pub set_output_to_file : Bool → Logger → Logger
set_output_to_file b log = record log {
  is_output_to_file = b;
  is_output = b || log.is_output_to_screen;
}

unfoldable pub set_output_to_screen : Bool → Logger → Logger
set_output_to_screen b log = record log {
  is_output_to_screen = b;
  is_output = log.is_output_to_file || b;
}

unfoldable pub set_output_file_size : ℕ → Logger → Logger
set_output_file_size size log = if ltb 0 size then record log { max_file_size = size } else log

-- strings.ToLower is an argument.
unfoldable pub allow_level : (Bytes → Bytes) → Bytes → Logger → Logger
allow_level to_lower lvl log = record log { allowed = mask_of (to_lower lvl) log.allowed }

-- The loop of genLogText, at place i of kvs.
abbrev pub piece : ℕ → Bytes → Bytes
piece i v = if leb i 1 then v else if i % 2 == 0 then text "[" ++ v ++ text "=" else v ++ text "]"

abbrev pub is_empty {ℓ} : {A : Type ℓ} → List A → Bool
is_empty [] = true
is_empty (a ∷ r) = false

unfoldable pub pieces : ℕ → List Bytes → Bytes
pieces i [] = []
pieces i (v ∷ vs) =
    piece i v
    ++ (if not (i % 2 == 0) && not (is_empty vs) then text ", " else [])
    ++ pieces (i + 1) vs

abbrev pub evened : List Bytes → List Bytes
evened kvs = if length kvs % 2 == 0 then kvs else kvs ++ text "<Missing something!>" ∷ []

abbrev pub newline : Bytes
newline = 10 ∷ []

unfoldable pub gen_log_text : Bytes → Bytes → List Bytes → Bytes
unfolding pieces
gen_log_text tag msg keyvals = pieces 0 (evened (tag ∷ msg ∷ keyvals)) ++ newline

unfoldable pub gen_log_text_ex : Bytes → Bytes → Bytes
gen_log_text_ex tag message = tag ++ message ++ newline
