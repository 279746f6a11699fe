-- ===== src/Log/Output/Lost.antt =====
-- A file that is opened for the second time.
use bclib.Base.{
  ℕ, zero, suc, ◌∷◌, ◌+◌, ◌≤◌, ◌<◌, ◌≡◌, refl, ap, ◌∙◌, true, false, none, some, [], ◌++◌, leb,
  length, drop, append-nil, arith,
}
use bclib.Go.Text.{Bytes}
use bclib.Map.{lookup, bytes_key}
use bclib.Log.Output.{
  Outside, State, is_some, content, stamped_name, there, new_log_file, overwritten, write_file,
  flush, open_first, open_again, put_out,
}
use bclib.Log.Output.Files.{
  if_true, if_false, after_opening, new_log_file-after_opening, flush_to_files, lookup_same,
}

drop_more : (old : Bytes) (n : ℕ) → length old ≤ n → drop n old ≡ []
drop_more [] zero h = refl
drop_more [] (suc n) h = refl
drop_more (b ∷ old) zero h = absurd (omega arith)
drop_more (b ∷ old) (suc n) h = drop_more old n (omega (arith, h))

write_file_room :
    (o : Outside) (buf name : Bytes) (offset : ℕ) (s : State)
    → leb s.logger.max_file_size (s.logger.cur_file_size + length buf) ≡ false
    → lookup name (write_file o buf (name, offset) s).world.files
      ≡ some (overwritten offset buf (content (lookup name s.world.files)))
unfolding write_file
write_file_room o buf name offset s h =
    ap (λ (t : State). lookup name t.world.files) (if_false _ _ _ h)
    ∙ lookup_same name (overwritten offset buf (content (lookup name s.world.files))) s.world.files

all_over : (old buf : Bytes) → length old ≤ length buf → overwritten 0 buf old ≡ buf
all_over old buf h =
    ap (λ t. buf ++ t) (drop_more old (0 + length buf) (omega (arith, h))) ∙ append-nil buf

-- A flush of a logger of files alone, whose file is not open, into a file that is there under the
-- name of this time: where the text is not shorter than the file and does not fill it, the file then
-- holds the text alone, and what it held is gone.
flush_overwrites :
    (o : Outside) (s : State) (buf old : Bytes)
    → s.logger.is_output_to_file ≡ true
    → s.logger.is_output_to_screen ≡ false
    → s.logger.log_file ≡ none
    → o.opens s.world.openings ≡ true
    → lookup (stamped_name s.logger (o.stamp s.world.openings)) s.world.files ≡ some old
    → length old ≤ length buf
    → length buf < s.logger.max_file_size
    → lookup (stamped_name s.logger (o.stamp s.world.openings)) (flush o buf s).world.files
      ≡ some buf
unfolding open_first open_again put_out after_opening
flush_overwrites o s buf old f g closed opens found longer room =
    let name = stamped_name s.logger (o.stamp s.world.openings) in
    let s' = after_opening s (s.world.openings + 1) name old in
    let opened : new_log_file o s ≡ s' =
      new_log_file-after_opening o s opens
      ∙ (λ i. after_opening s (s.world.openings + 1) name (content (found i))) in
    let here : lookup name s'.world.files ≡ some old = lookup_same name old s.world.files in
    let wrote : flush o buf s ≡ write_file o buf (name, 0) s' =
      flush_to_files o s buf f g
      ∙ ap (λ t. put_out o buf (open_again o t))
          (if_false (is_some s.logger.log_file) s (new_log_file o s) (ap is_some closed) ∙ opened)
      ∙ ap (put_out o buf) (if_true (there s') s' (new_log_file o s') (ap is_some here)) in
    ap (λ (t : State). lookup name t.world.files) wrote
    ∙ write_file_room o buf name 0 s' (not_full s.logger.max_file_size (length buf) room)
    ∙ ap (λ x. some (overwritten 0 buf (content x))) here
    ∙ ap some (all_over old buf longer)
  where
    not_full : (max n : ℕ) → n < max → leb max (0 + n) ≡ false
    not_full max n h = ground arith
