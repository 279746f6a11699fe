-- ===== src/Log/Tests.antt =====
-- The theorems on the logger, at one logger and a few messages.
use bclib.Base.{ℕ, ◌≡◌, ◌≢◌, ◌<◌, refl, ap, true, false, Option, none, some, List, [], ◌∷◌, arith}
use bclib.Go.Text.{Bytes, text}
use bclib.Map.{lookup, bytes_key}
use bclib.Log.{Logger, LogInfo, plain, formatted}
use bclib.Log.Output.{Outside, State, stamped_name, set_output_async, flush_queue}
use bclib.Log.Output.Async.{log_all, all_by, flush_queue-log_all}
use bclib.Log.Output.Files.{IsFresh, IsOrderly, name_of, all_text, flush_all, joined}
use bclib.Log.Output.Kept.{flush_all-all_text}

-- A thread in front of a level.
abbrev tag_of : Option ℕ → Bytes → Bytes
tag_of none level = level
tag_of (some gid) level = gid ∷ level

-- Every opening has its number as its time, and every line too.
abbrev outside : Outside
outside = record {
  stamp = λ n. n ∷ [];
  opens = λ n. true;
  tag = λ n t l. n ∷ tag_of t l;
  queue_gid = 7;
  printf = λ b. b;
}

-- A logger whose files are full at one byte.
abbrev small_logger : Logger
small_logger = record {
  path = [];
  module_name = [];
  allowed = 60;
  is_output_async = false;
  is_output_to_screen = false;
  is_output_to_file = true;
  is_output = true;
  with_thread_id = true;
  max_file_size = 1;
  cur_file_size = 0;
  file_name = [];
  log_file = none;
  cf = [];
}

abbrev start : State
start = record {
  logger = small_logger;
  world = record { files = []; screen = []; stderr = none; openings = 0; lines = 0 };
}

abbrev messages : List (ℕ × LogInfo)
messages = (1, plain (text "Info") (text "one") []) ∷ (2, formatted (text "Warn") (text "two")) ∷ []

flush_queue-log_all_example :
    flush_queue outside 1 (log_all outside messages (set_output_async true outside start))
    ≡ log_all outside (all_by 7 messages) start
flush_queue-log_all_example = flush_queue-log_all outside 1 messages start refl refl

start-IsFresh : IsFresh start
start-IsFresh = record {
  to_file = refl;
  not_to_screen = refl;
  closed = refl;
  no_files = refl;
  unopened = refl;
}

abbrev second : Bytes → ℕ
second (a ∷ b ∷ r) = b
second _ = 0

start_apart : (i j : ℕ) → i < j → name_of outside [] [] j ≢ name_of outside [] [] i
start_apart i j h e = omega (arith, h, ap second e)

start-IsOrderly : IsOrderly outside [] []
start-IsOrderly = record { all_open = λ n. refl; apart = start_apart }

flush_all-all_text_example :
    all_text outside [] []
      (flush_all outside (text "one" ∷ text "two" ∷ []) start).world.files
      (flush_all outside (text "one" ∷ text "two" ∷ []) start).world.openings
    ≡ joined (text "one" ∷ text "two" ∷ [])
flush_all-all_text_example =
    flush_all-all_text outside start (text "one" ∷ text "two" ∷ []) start-IsFresh start-IsOrderly

-- A logger whose file of this time is there already.
abbrev again : State
again = record {
  logger = record small_logger { max_file_size = 100 };
  world = record {
    files = (47 ∷ 0 ∷ text ".log", text "old") ∷ [];
    screen = [];
    stderr = none;
    openings = 0;
    lines = 0;
  };
}

old_there :
    lookup (stamped_name again.logger (outside.stamp 0)) again.world.files ≡ some (text "old")
unfolding lookup
old_there = refl
