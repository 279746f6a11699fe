-- ===== src/Log/Output/Async.antt =====
-- Output through the queue, and without it.
use bclib.Base.{
  ℕ, ◌+◌, ◌≡◌, refl, sym, ap, ◌∙◌, Bool, true, false, none, some, List, [], ◌∷◌, ◌++◌, leb, length,
  append_assoc, append-nil, if◌then◌else◌,
}
use bclib.Go.Text.{Bytes}
use bclib.Log.{LogInfo}
use bclib.Log.Output.{
  Outside, State, is_some, there, new_log_file, print, write_file, show, open_first, open_again,
  put_out, close_file, flush, line, next_line, write_line, log, async_run, with_async, emptied,
  drained, flush_rest, set_output_async, flush_queue,
}

-- Messages that are logged one after the other, each in its goroutine.
unfoldable pub log_all : Outside → List (ℕ × LogInfo) → State → State
unfolding log
log_all o [] s = s
log_all o ((gid, li) ∷ lis) s = log_all o lis (log o gid li s)

-- The messages alone, and the messages as one goroutine logs them.
abbrev bare : List (ℕ × LogInfo) → List LogInfo
bare [] = []
bare ((gid, li) ∷ lis) = li ∷ bare lis

abbrev pub all_by : ℕ → List (ℕ × LogInfo) → List (ℕ × LogInfo)
all_by gid [] = []
all_by gid ((other, li) ∷ lis) = (gid, li) ∷ all_by gid lis

-- The mode of output of a state and its queue are the given ones.
abbrev Mode : Bool → List LogInfo → State → Type 0
Mode m q s = (s.logger.is_output_async ≡ m) × (s.logger.cf ≡ q)

either :
    (m : Bool) (q : List LogInfo) (b : Bool) (x y : State)
    → Mode m q x
    → Mode m q y
    → Mode m q (if b then x else y)
either m q true x y h k = h
either m q false x y h k = k

module _ (o : Outside) (m : Bool) (q : List LogInfo) where
  new_log_file-Mode : (s : State) → Mode m q s → Mode m q (new_log_file o s)
  unfolding new_log_file
  new_log_file-Mode s h = either m q (o.opens s.world.openings) _ _ h h

  write_file-Mode :
      (buf : Bytes) (f : Bytes × ℕ) (s : State) → Mode m q s → Mode m q (write_file o buf f s)
  unfolding write_file
  write_file-Mode buf (name, offset) s h =
      either m q (leb s.logger.max_file_size (s.logger.cur_file_size + length buf)) _ _
        (new_log_file-Mode _ h) h

  put_out-Mode : (buf : Bytes) (s : State) → Mode m q s → Mode m q (put_out o buf s)
  unfolding put_out print
  put_out-Mode buf s h =
      elim s.logger.log_file
        as (λ f. Mode m q (elim f as (λ x. State) [
          | none ↦ if s.logger.is_output_to_screen then s else print o buf s
          | some g ↦ write_file o buf g s
        ])) [
          | none ↦ either m q s.logger.is_output_to_screen s (print o buf s) h h
          | some f ↦ write_file-Mode buf f s h
        ]

  open_first-Mode : (s : State) → Mode m q s → Mode m q (open_first o s)
  unfolding open_first
  open_first-Mode s h =
      either m q (is_some s.logger.log_file) s (new_log_file o s) h (new_log_file-Mode s h)

  open_again-Mode : (s : State) → Mode m q s → Mode m q (open_again o s)
  unfolding open_again
  open_again-Mode s h = either m q (there s) s (new_log_file o s) h (new_log_file-Mode s h)

  show-Mode : (buf : Bytes) (s : State) → Mode m q s → Mode m q (show o buf s)
  unfolding show print
  show-Mode buf s h = either m q s.logger.is_output_to_screen (print o buf s) s h h

close_file-Mode : (m : Bool) (q : List LogInfo) (s : State) → Mode m q s → Mode m q (close_file s)
unfolding close_file
close_file-Mode m q s h = either m q (is_some s.logger.log_file) _ s h h

flush-Mode :
    (o : Outside) (m : Bool) (q : List LogInfo) (buf : Bytes) (s : State)
    → Mode m q s
    → Mode m q (flush o buf s)
unfolding flush
flush-Mode o m q buf s h =
    let shown = show-Mode o m q buf s h in
    either m q s.logger.is_output_to_file _ _
      (put_out-Mode o m q buf _ (open_again-Mode o m q _ (open_first-Mode o m q _ shown)))
      (close_file-Mode m q _ shown)

write_line-Mode :
    (o : Outside) (m : Bool) (q : List LogInfo) (gid : ℕ) (li : LogInfo) (s : State)
    → Mode m q s
    → Mode m q (write_line o gid li s)
unfolding write_line
write_line-Mode o m q gid li s h = flush-Mode o m q (line o gid li s) (next_line s) h

async_run-Mode :
    (o : Outside) (m : Bool) (q lis : List LogInfo) (s : State)
    → Mode m q s
    → Mode m q (async_run o lis s)
unfolding async_run
async_run-Mode o m q [] s h = h
async_run-Mode o m q (li ∷ lis) s h =
    async_run-Mode o m q lis _ (write_line-Mode o m q o.queue_gid li s h)

-- Without the queue each message of the queue's goroutine is written as from the queue.
log_all_sync :
    (o : Outside) (q : List LogInfo) (lis : List (ℕ × LogInfo)) (s : State)
    → Mode false q s
    → log_all o (all_by o.queue_gid lis) s ≡ async_run o (bare lis) s
unfolding log_all async_run log
log_all_sync o q [] s h = refl
log_all_sync o q ((gid, li) ∷ lis) s h =
    ap
      (λ b. log_all o (all_by o.queue_gid lis) (
        if b
        then record s { logger = record s.logger { cf = s.logger.cf ++ li ∷ [] } }
        else write_line o o.queue_gid li s))
      h.0
    ∙ log_all_sync o q lis (write_line o o.queue_gid li s)
        (write_line-Mode o false q o.queue_gid li s h)

abbrev queued : List LogInfo → State → State
queued lis s = record s { logger = record s.logger { cf = lis } }

-- With the queue nothing is written.
log_all_async :
    (o : Outside) (lis : List (ℕ × LogInfo)) (waiting : List LogInfo) (s : State)
    → log_all o lis (queued waiting (with_async true s))
      ≡ queued (waiting ++ bare lis) (with_async true s)
unfolding log_all log
log_all_async o [] waiting s = ap (λ q. queued q (with_async true s)) (sym (append-nil waiting))
log_all_async o ((gid, li) ∷ lis) waiting s =
    log_all_async o lis (waiting ++ li ∷ []) s
    ∙ ap (λ q. queued q (with_async true s)) (append_assoc waiting (li ∷ []) (bare lis))

-- Nothing is left for Flush itself when the queue is empty.
flush_rest_none : (o : Outside) (gid : ℕ) (s : State) → s.logger.cf ≡ [] → flush_rest o gid s ≡ s
unfolding flush_rest
flush_rest_none o gid s e =
    ap
      (λ (q : List LogInfo). elim q as (λ x. State) [
        | [] ↦ s
        | li ∷ lis ↦ (let (buf, s') = drained o gid (li ∷ lis) (emptied s) in flush o buf s')
      ])
      e

-- Messages of whatever goroutines that are logged through the queue, to a logger whose queue is
-- empty, and then flushed leave the files, the screen and the logger as the same messages that the
-- goroutine of the queue writes at once, at the times when it makes their lines.
pub flush_queue-log_all :
    (o : Outside) (gid : ℕ) (lis : List (ℕ × LogInfo)) (s : State)
    → s.logger.is_output_async ≡ false
    → s.logger.cf ≡ []
    → flush_queue o gid (log_all o lis (set_output_async true o s))
      ≡ log_all o (all_by o.queue_gid lis) s
unfolding flush_queue set_output_async
flush_queue-log_all o gid lis s h e =
    let start : State = queued [] (with_async false s) in
    let idle : Mode false [] start = (refl, refl) in
    let back : s ≡ start = λ i. queued (e i) (with_async (h i) s) in
    (λ i. flush_queue o gid (log_all o lis (queued (e i) (with_async true s))))
    ∙ ap (flush_queue o gid) (log_all_async o lis [] s)
    ∙ flush_rest_none o gid (async_run o (bare lis) start)
        (async_run-Mode o false [] (bare lis) start idle).1
    ∙ sym (log_all_sync o [] lis start idle)
    ∙ sym (ap (log_all o (all_by o.queue_gid lis)) back)
