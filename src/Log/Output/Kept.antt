-- ===== src/Log/Output/Kept.antt =====
-- What the log files hold together.
use mathlib.Core.Path.{subst}
use bclib.Base.{
  ℕ, suc, ◌+◌, ◌≡◌, refl, sym, ap, ◌∙◌, Bool, true, false, Option, none, some, List, [], ◌∷◌, ◌++◌,
  leb, length, append_assoc, append-nil, length-append, arith, if◌then◌else◌,
}
use bclib.Go.Text.{Bytes}
use bclib.Map.{lookup, insert, bytes_key}
use bclib.Log.Output.{
  Outside, State, is_some, content, there, new_log_file, print, overwritten, write_file, flush,
  open_first, open_again, put_out,
}
use bclib.Log.Output.Files.{
  IsFresh, flush_all, joined, overwritten_end, if_true, if_false, flush_to_files, name_of, all_text,
  IsOrderly, Open, lookup_same, lookup_other, all_text-insert, new_log_file-Open,
}

module _ (o : Outside) (path module_name : Bytes) (orderly : IsOrderly o path module_name) where
  -- What a write makes of a state: the content of the file, the offset and the size.
  after_write : State → Bytes → Bytes → ℕ → ℕ → State
  after_write s name c offset size = record {
    logger = record s.logger { log_file = some (name, offset); cur_file_size = size };
    world = record s.world { files = insert name c s.world.files };
  }

  after_write-Open :
      (s : State) (total buf : Bytes) (size : ℕ) (op : Open o path module_name s total)
      → Open o path module_name
          (after_write s
            (name_of o path module_name op.last)
            (op.c ++ buf)
            (length (op.c ++ buf))
            size)
          (total ++ buf)
  unfolding after_write
  after_write-Open s total buf size op =
      let r = op.ready in
      let name = name_of o path module_name op.last in
      record {
        last = op.last;
        ready = record {
          its_path = r.its_path;
          its_module = r.its_module;
          to_file = r.to_file;
          not_to_screen = r.not_to_screen;
          count = r.count;
          later = λ j h.
              lookup_other name (name_of o path module_name j) (op.c ++ buf) s.world.files
                (λ e. orderly.apart op.last j (omega (arith, h)) (sym e))
              ∙ r.later j h;
          written =
              (λ i.
                all_text-insert o path module_name orderly s.world.files (op.c ++ buf) op.last
                  op.last (omega arith) i
                ++ content (lookup_same name (op.c ++ buf) s.world.files i))
              ∙ sym (append_assoc (all_text o path module_name s.world.files op.last) op.c buf)
              ∙ (λ i.
                  (all_text o path module_name s.world.files op.last ++ content (sym op.here i))
                  ++ buf)
              ∙ ap (λ t. t ++ buf) r.written;
        };
        c = op.c ++ buf;
        named = op.named;
        handle = refl;
        here = lookup_same name (op.c ++ buf) s.world.files;
      }

  write_file-Open :
      (s : State) (total buf : Bytes) (op : Open o path module_name s total)
      → Open o path module_name
          (write_file o buf (name_of o path module_name op.last, length op.c) s)
          (total ++ buf)
  unfolding write_file after_write
  write_file-Open s total buf op =
      let name = name_of o path module_name op.last in
      let size = s.logger.cur_file_size + length buf in
      let cont : overwritten (length op.c) buf (content (lookup name s.world.files)) ≡ op.c ++ buf =
        ap (λ x. overwritten (length op.c) buf (content x)) op.here ∙ overwritten_end op.c buf in
      let len : length op.c + length buf ≡ length (op.c ++ buf) = sym (length-append op.c buf) in
      let after = after_write-Open s total buf size op in
      let whole = after_write s name (op.c ++ buf) (length (op.c ++ buf)) size in
      subst (λ t. Open o path module_name t (total ++ buf))
        (sym (λ i.
          if leb s.logger.max_file_size size
          then new_log_file o (after_write s name (cont i) (len i) size)
          else after_write s name (cont i) (len i) size))
        (either_open (leb s.logger.max_file_size size) (new_log_file o whole) whole (total ++ buf)
          (new_log_file-Open o path module_name orderly whole (suc after.last) (total ++ buf)
            after.ready)
          after)
    where
      either_open :
          (b : Bool) (x y : State) (t : Bytes)
          → Open o path module_name x t
          → Open o path module_name y t
          → Open o path module_name (if b then x else y) t
      either_open true x y t h k = h
      either_open false x y t h k = k

  -- The write of a flush, where the newest file is open.
  put_out-Open :
      (s : State) (total buf : Bytes)
      → Open o path module_name s total
      → Open o path module_name (put_out o buf (open_again o s)) (total ++ buf)
  unfolding put_out open_again
  put_out-Open s total buf op =
      let name = name_of o path module_name op.last in
      let found : there s ≡ true =
        ap (λ n. is_some (lookup n s.world.files)) op.named ∙ ap is_some op.here in
      subst (λ t. Open o path module_name t (total ++ buf))
        (sym (
          ap (put_out o buf) (if_true (there s) s (new_log_file o s) found)
          ∙ ap
              (λ (f : Option (Bytes × ℕ)). elim f as (λ x. State) [
                | none ↦ if s.logger.is_output_to_screen then s else print o buf s
                | some g ↦ write_file o buf g s
              ])
              op.handle))
        (write_file-Open s total buf op)

  flush-Open :
      (s : State) (total buf : Bytes)
      → Open o path module_name s total
      → Open o path module_name (flush o buf s) (total ++ buf)
  unfolding open_first
  flush-Open s total buf op =
      subst (λ t. Open o path module_name t (total ++ buf))
        (sym (
          flush_to_files o s buf op.ready.to_file op.ready.not_to_screen
          ∙ ap (λ t. put_out o buf (open_again o t))
              (if_true (is_some s.logger.log_file) s (new_log_file o s) (ap is_some op.handle))))
        (put_out-Open s total buf op)

  -- The first flush opens the first file.
  first_flush-Open :
      (s : State) (buf : Bytes)
      → IsFresh s
      → s.logger.path ≡ path
      → s.logger.module_name ≡ module_name
      → Open o path module_name (flush o buf s) buf
  unfolding open_first
  first_flush-Open s buf fresh p m =
      subst (λ t. Open o path module_name t buf)
        (sym (
          flush_to_files o s buf fresh.to_file fresh.not_to_screen
          ∙ ap (λ t. put_out o buf (open_again o t))
              (if_false (is_some s.logger.log_file) s (new_log_file o s)
                (ap is_some fresh.closed))))
        (put_out-Open (new_log_file o s) [] buf (
          new_log_file-Open o path module_name orderly s 0 [] record {
            its_path = p;
            its_module = m;
            to_file = fresh.to_file;
            not_to_screen = fresh.not_to_screen;
            count = fresh.unopened;
            later = λ j h.
                ap (lookup (name_of o path module_name j)) fresh.no_files
                ∙ nothing_there (name_of o path module_name j);
            written = refl;
          }))
    where
      nothing_there : (n : Bytes) → lookup {V = Bytes} n [] ≡ none
      nothing_there n = unfold lookup in refl

  flush_all-Open :
      (ts : List Bytes) (s : State) (total : Bytes)
      → Open o path module_name s total
      → Open o path module_name (flush_all o ts s) (total ++ joined ts)
  unfolding flush_all
  flush_all-Open [] s total op = subst (Open o path module_name s) (sym (append-nil total)) op
  flush_all-Open (t ∷ ts) s total op =
      subst (Open o path module_name (flush_all o ts (flush o t s)))
        (append_assoc total t (joined ts))
        (flush_all-Open ts (flush o t s) (total ++ t) (flush-Open s total t op))

-- Texts that are flushed by a new logger of files leave together, in the files in the order of their
-- opening, exactly these texts in their order, where every opening succeeds and has a file name of its
-- own.
pub flush_all-all_text :
    (o : Outside) (s : State) (ts : List Bytes)
    → IsFresh s
    → IsOrderly o s.logger.path s.logger.module_name
    → all_text o s.logger.path s.logger.module_name
        (flush_all o ts s).world.files
        (flush_all o ts s).world.openings
      ≡ joined ts
unfolding flush_all
flush_all-all_text o s [] fresh orderly =
    ap (all_text o s.logger.path s.logger.module_name s.world.files) fresh.unopened
flush_all-all_text o s (t ∷ ts) fresh orderly =
    let op =
      flush_all-Open o s.logger.path s.logger.module_name orderly ts (flush o t s) t
        (first_flush-Open o s.logger.path s.logger.module_name orderly s t fresh refl refl) in
    ap (all_text o s.logger.path s.logger.module_name (flush_all o ts (flush o t s)).world.files)
      op.ready.count
    ∙ op.ready.written
