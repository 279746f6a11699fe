-- ===== src/Log/Output.antt =====
-- log/logger.go: what is written, and where. Each function is one step, as the mutex makes a flush.
-- The file system is a map from names to contents, without directories; a file that is open has an
-- offset, at which a write goes over what is there. The standard error follows the file, as dup2 makes
-- it on Linux and macOS.
pub mod Async
pub mod Files
pub mod Levels
pub mod Lost
pub mod Kept
use bclib.Base.{
  ℕ, ◌+◌, ◌≡◌, Bool, true, false, not, ◌&&◌, ◌||◌, Option, none, some, List, [], ◌∷◌, ◌++◌, leb,
  length, take, drop, if◌then◌else◌,
}
use bclib.Go.Text.{Bytes, text}
use bclib.Map.{Map, lookup, insert, bytes_key}
use bclib.Log.{
  Logger, LogInfo, plain, formatted, has_bit, gen_log_text, gen_log_text_ex, level_trace,
  level_debug, level_info, level_warn, level_error, level_fatal,
}

-- The time of each opening of a file, whether it succeeds, the tag of a line (at the time when it is
-- made, with the number of the goroutine that makes it or without, at a level), the number of the
-- queue's goroutine, and fmt.Printf of a text alone. `tag n` has the time of the making of line n.
pub record Outside : Type 0 where
  pub stamp : ℕ → Bytes
  pub opens : ℕ → Bool
  pub tag : ℕ → Option ℕ → Bytes → Bytes
  pub queue_gid : ℕ
  pub printf : Bytes → Bytes

-- The files, the screen, the file that the standard error goes to, and how many files were opened and
-- lines made.
pub record World : Type 0 where
  pub files : Map Bytes Bytes
  pub screen : Bytes
  pub stderr : Option Bytes
  pub openings : ℕ
  pub lines : ℕ

pub record State : Type 0 where
  pub logger : Logger
  pub world : World

abbrev pub is_some {ℓ} : {A : Type ℓ} → Option A → Bool
is_some none = false
is_some (some a) = true

abbrev pub content : Option Bytes → Bytes
content none = []
content (some b) = b

-- os.O_CREATE without os.O_TRUNC
abbrev pub created : Bytes → Map Bytes Bytes → Map Bytes Bytes
created name files = insert name (content (lookup name files)) files

abbrev pub stamped_name : Logger → Bytes → Bytes
stamped_name log stamp = log.path ++ text "/" ++ log.module_name ++ stamp ++ text ".log"

abbrev pub next_opening : World → World
next_opening w = record w { openings = w.openings + 1 }

unfoldable pub new_log_file : Outside → State → State
new_log_file o s =
    let name = stamped_name s.logger (o.stamp s.world.openings) in
    let w = next_opening s.world in
    if o.opens s.world.openings
    then record {
      logger = record s.logger { file_name = name; log_file = some (name, 0); cur_file_size = 0 };
      world = record w { files = created name w.files; stderr = some name };
    }
    else record {
      logger = record s.logger { file_name = name; log_file = none; cur_file_size = 0 };
      world = w;
    }

unfoldable pub print : Outside → Bytes → State → State
print o buf s = record s { world = record s.world { screen = s.world.screen ++ o.printf buf } }

-- A write at an offset.
abbrev pub overwritten : ℕ → Bytes → Bytes → Bytes
overwritten offset buf old = take offset old ++ buf ++ drop (offset + length buf) old

-- The write to the open file, and the replacement of a full one.
unfoldable pub write_file : Outside → Bytes → Bytes × ℕ → State → State
write_file o buf (name, offset) s =
    let files =
      insert name (overwritten offset buf (content (lookup name s.world.files))) s.world.files in
    let size = s.logger.cur_file_size + length buf in
    let s' : State = record {
      logger = record s.logger {
        log_file = some (name, offset + length buf);
        cur_file_size = size;
      };
      world = record s.world { files = files };
    } in
    if leb s.logger.max_file_size size then new_log_file o s' else s'

abbrev pub there : State → Bool
there s = is_some (lookup s.logger.file_name s.world.files)

-- The parts of flush: the screen, the first file, a file in place of one that is gone, the write, and
-- what is done where no file is wanted.
unfoldable pub show : Outside → Bytes → State → State
show o buf s = if s.logger.is_output_to_screen then print o buf s else s

unfoldable pub open_first : Outside → State → State
open_first o s = if is_some s.logger.log_file then s else new_log_file o s

unfoldable pub open_again : Outside → State → State
open_again o s = if there s then s else new_log_file o s

unfoldable pub put_out : Outside → Bytes → State → State
put_out o buf s = elim s.logger.log_file [
  | none ↦ if s.logger.is_output_to_screen then s else print o buf s
  | some f ↦ write_file o buf f s
]

unfoldable pub close_file : State → State
close_file s =
    if is_some s.logger.log_file
    then record s { logger = record s.logger { log_file = none; cur_file_size = 0 } }
    else s

unfoldable pub flush : Outside → Bytes → State → State
flush o buf s =
    if s.logger.is_output_to_file
    then put_out o buf (open_again o (open_first o (show o buf s)))
    else close_file (show o buf s)

-- The text of a message, made by the goroutine that writes it.
abbrev pub line : Outside → ℕ → LogInfo → State → Bytes
line o gid (plain level msg keyvals) s =
    gen_log_text (o.tag s.world.lines (if s.logger.with_thread_id then some gid else none) level)
      msg keyvals
line o gid (formatted level message) s = gen_log_text_ex (o.tag s.world.lines none level) message

abbrev pub next_line : State → State
next_line s = record s { world = record s.world { lines = s.world.lines + 1 } }

unfoldable pub write_line : Outside → ℕ → LogInfo → State → State
write_line o gid li s = flush o (line o gid li s) (next_line s)

-- Log and LogEx in a goroutine; the queue waits when it holds 10000 messages.
unfoldable pub log : Outside → ℕ → LogInfo → State → State
log o gid li s =
    if s.logger.is_output_async
    then record s { logger = record s.logger { cf = s.logger.cf ++ li ∷ [] } }
    else write_line o gid li s

unfoldable pub log_at : ℕ → Outside → ℕ → LogInfo → State → State
log_at bit o gid li s =
    if not (has_bit s.logger.allowed bit) || not s.logger.is_output then s else log o gid li s

-- Trace, Debug, Info, Warn, Error and Fatal, and below those of a formatted message.
module _ (o : Outside) (gid : ℕ) (msg : Bytes) (keyvals : List Bytes) where
  unfoldable pub trace : State → State
  trace s = log_at level_trace o gid (plain (text "Trace") msg keyvals) s

  unfoldable pub debug : State → State
  debug s = log_at level_debug o gid (plain (text "Debug") msg keyvals) s

  unfoldable pub info : State → State
  info s = log_at level_info o gid (plain (text "Info") msg keyvals) s

  unfoldable pub warn : State → State
  warn s = log_at level_warn o gid (plain (text "Warn") msg keyvals) s

  unfoldable pub error : State → State
  error s = log_at level_error o gid (plain (text "Error") msg keyvals) s

  unfoldable pub fatal : State → State
  fatal s = log_at level_fatal o gid (plain (text "Fatal") msg keyvals) s

module _ (o : Outside) (gid : ℕ) (message : Bytes) where
  unfoldable pub tracef : State → State
  tracef s = log_at level_trace o gid (formatted (text "Trace") message) s

  unfoldable pub debugf : State → State
  debugf s = log_at level_debug o gid (formatted (text "Debug") message) s

  unfoldable pub infof : State → State
  infof s = log_at level_info o gid (formatted (text "Info") message) s

  unfoldable pub warnf : State → State
  warnf s = log_at level_warn o gid (formatted (text "Warn") message) s

  unfoldable pub errorf : State → State
  errorf s = log_at level_error o gid (formatted (text "Error") message) s

  unfoldable pub fatalf : State → State
  fatalf s = log_at level_fatal o gid (formatted (text "Fatal") message) s

-- What asyncRun makes of the messages of the queue, one after the other, in its own goroutine.
unfoldable pub async_run : Outside → List LogInfo → State → State
async_run o [] s = s
async_run o (li ∷ lis) s = async_run o lis (write_line o o.queue_gid li s)

abbrev pub with_async : Bool → State → State
with_async b s = record s { logger = record s.logger { is_output_async = b } }

abbrev pub emptied : State → State
emptied s = record s { logger = record s.logger { cf = [] } }

-- To stop it waits until the thread has written the queue.
unfoldable pub set_output_async : Bool → Outside → State → State
set_output_async true o s = with_async true s
set_output_async false o s =
    if s.logger.is_output_async then async_run o s.logger.cf (emptied (with_async false s)) else s

-- The lines of the messages that Flush itself takes from the queue, in one buffer.
unfoldable pub drained : Outside → ℕ → List LogInfo → State → Bytes × State
drained o gid [] s = ([], s)
drained o gid (li ∷ lis) s =
    let (more, s') = drained o gid lis (next_line s) in (line o gid li s ++ more, s')

-- The part of Flush behind SetOutputAsync, for messages that came after the queue's goroutine had
-- stopped.
unfoldable pub flush_rest : Outside → ℕ → State → State
unfolding drained
flush_rest o gid s = elim s.logger.cf [
  | [] ↦ s
  | li ∷ lis ↦ (let (buf, s') = drained o gid (li ∷ lis) (emptied s) in flush o buf s')
]

unfoldable pub flush_queue : Outside → ℕ → State → State
unfolding flush_rest
flush_queue o gid s = flush_rest o gid (set_output_async false o s)
