-- ===== src/Log/Output/Files.antt =====
-- The log files of a logger that writes to files.
use mathlib.Core.Path.{subst}
use bclib.Base.{
  ℕ, zero, suc, ◌+◌, ◌≤◌, ◌<◌, ◌≡◌, ◌≢◌, refl, sym, ap, ◌∙◌, Bool, true, false, none, some, List,
  [], ◌∷◌, ◌++◌, length, drop, append-nil, arith, if◌then◌else◌, Bool-cases, inl, inr, bytes_eq,
  bytes_eq_refl, bytes_eq→eq, take_all,
}
use bclib.Go.Text.{Bytes, text}
use bclib.Map.{Map, lookup, insert, bytes_key, lookup-insert}
use bclib.Log.Output.{
  Outside, State, content, stamped_name, new_log_file, print, overwritten, flush, show, open_first,
  open_again, put_out,
}

-- A logger that writes to files alone, and has not yet.
pub record IsFresh (s : State) : Type 0 where
  pub to_file : s.logger.is_output_to_file ≡ true
  pub not_to_screen : s.logger.is_output_to_screen ≡ false
  pub closed : s.logger.log_file ≡ none
  pub no_files : s.world.files ≡ []
  pub unopened : s.world.openings ≡ 0

-- Texts that are flushed one after the other.
unfoldable pub flush_all : Outside → List Bytes → State → State
flush_all o [] s = s
flush_all o (t ∷ ts) s = flush_all o ts (flush o t s)

abbrev pub joined : List Bytes → Bytes
joined [] = []
joined (t ∷ ts) = t ++ joined ts

none_left : (m : ℕ) → drop {A = ℕ} m [] ≡ []
none_left zero = refl
none_left (suc m) = refl

pub if_true : (b : Bool) (x y : State) → b ≡ true → (if b then x else y) ≡ x
if_true b x y h = ap (λ c. if c then x else y) h

pub if_false : (b : Bool) (x y : State) → b ≡ false → (if b then x else y) ≡ y
if_false b x y h = ap (λ c. if c then x else y) h

drop_past : (old : Bytes) (n : ℕ) → drop (length old + n) old ≡ []
drop_past [] n = none_left (0 + n)
drop_past (b ∷ old) n = rw (suc_add (length old) n) (drop_past old n)
  where
    suc_add : (k m : ℕ) → suc k + m ≡ suc (k + m)
    suc_add k m = omega arith

-- A write where the file ends.
pub overwritten_end : (old buf : Bytes) → overwritten (length old) buf old ≡ old ++ buf
overwritten_end old buf =
    (λ i. take_all {n = length old} old (omega arith) i ++ buf ++ drop_past old (length buf) i)
    ∙ append-nil (old ++ buf)

module _ (o : Outside) (path module_name : Bytes) where
  -- The name of the file of an opening.
  abbrev pub name_of : ℕ → Bytes
  name_of n = path ++ text "/" ++ module_name ++ o.stamp n ++ text ".log"

  -- The contents of the first files, one behind the other.
  abbrev pub all_text : Map Bytes Bytes → ℕ → Bytes
  all_text files zero = []
  all_text files (suc n) = all_text files n ++ content (lookup (name_of n) files)

  -- Every opening succeeds and has a name of its own.
  pub record IsOrderly : Type 0 where
    pub all_open : (n : ℕ) → o.opens n ≡ true
    pub apart : (i j : ℕ) → i < j → name_of j ≢ name_of i

  pub record Ready (s : State) (n : ℕ) (total : Bytes) : Type 0 where
    pub its_path : s.logger.path ≡ path
    pub its_module : s.logger.module_name ≡ module_name
    pub to_file : s.logger.is_output_to_file ≡ true
    pub not_to_screen : s.logger.is_output_to_screen ≡ false
    pub count : s.world.openings ≡ n
    pub later : (j : ℕ) → n ≤ j → lookup (name_of j) s.world.files ≡ none
    pub written : all_text s.world.files n ≡ total

  -- The newest file is open at its end.
  pub record Open (s : State) (total : Bytes) : Type 0 where
    pub last : ℕ
    pub ready : Ready s (suc last) total
    pub c : Bytes
    pub named : s.logger.file_name ≡ name_of last
    pub handle : s.logger.log_file ≡ some (name_of last, length c)
    pub here : lookup (name_of last) s.world.files ≡ some c

bytes_apart : (a b : Bytes) → a ≢ b → bytes_eq a b ≡ false
bytes_apart a b h = elim (Bool-cases (bytes_eq a b)) [
  | inl e ↦ absurd (h (bytes_eq→eq a b e))
  | inr e ↦ e
]

pub lookup_same : (k v : Bytes) (files : Map Bytes Bytes) → lookup k (insert k v files) ≡ some v
lookup_same k v files =
    lookup-insert k k v files ∙ ap (λ b. if b then some v else lookup k files) (bytes_eq_refl k)

pub lookup_other :
    (k j v : Bytes) (files : Map Bytes Bytes) → k ≢ j → lookup j (insert k v files) ≡ lookup j files
lookup_other k j v files h =
    lookup-insert k j v files ∙ ap (λ b. if b then some v else lookup j files) (bytes_apart k j h)

-- What an opening makes of a state: the count, the name and the content.
unfoldable pub after_opening : State → ℕ → Bytes → Bytes → State
after_opening s n name c = record {
  logger = record s.logger { file_name = name; log_file = some (name, 0); cur_file_size = 0 };
  world = record s.world { openings = n; files = insert name c s.world.files; stderr = some name };
}

pub new_log_file-after_opening :
    (o : Outside) (s : State)
    → o.opens s.world.openings ≡ true
    → new_log_file o s
      ≡ after_opening s
          (s.world.openings + 1)
          (stamped_name s.logger (o.stamp s.world.openings))
          (content (lookup (stamped_name s.logger (o.stamp s.world.openings)) s.world.files))
unfolding new_log_file after_opening
new_log_file-after_opening o s h = if_true _ _ _ h

-- A flush to files alone.
pub flush_to_files :
    (o : Outside) (s : State) (buf : Bytes)
    → s.logger.is_output_to_file ≡ true
    → s.logger.is_output_to_screen ≡ false
    → flush o buf s ≡ put_out o buf (open_again o (open_first o s))
unfolding flush show
flush_to_files o s buf f g =
    if_true s.logger.is_output_to_file _ _ f
    ∙ ap (λ t. put_out o buf (open_again o (open_first o t)))
        (if_false s.logger.is_output_to_screen (print o buf s) s g)

module _ (o : Outside) (path module_name : Bytes) (orderly : IsOrderly o path module_name) where
  pub all_text-insert :
      (files : Map Bytes Bytes) (v : Bytes) (n j : ℕ)
      → n ≤ j
      → all_text o path module_name (insert (name_of o path module_name j) v files) n
        ≡ all_text o path module_name files n
  all_text-insert files v zero j h = refl
  all_text-insert files v (suc n) j h = λ i.
      all_text-insert files v n j (omega (arith, h)) i
      ++ content (
          lookup_other (name_of o path module_name j) (name_of o path module_name n) v files
            (orderly.apart n j (omega (arith, h))) i)

  new_log_file_lem :
      (s : State) (n : ℕ) (total : Bytes)
      → Ready o path module_name s n total
      → new_log_file o s ≡ after_opening s (suc n) (name_of o path module_name n) []
  new_log_file_lem s n total r =
      let name : (stamped_name s.logger (o.stamp s.world.openings)) ≡ name_of o path module_name n =
        λ i. r.its_path i ++ text "/" ++ r.its_module i ++ o.stamp (r.count i) ++ text ".log" in
      new_log_file-after_opening o s (orderly.all_open s.world.openings)
      ∙ (λ i.
          after_opening s (s.world.openings + 1) (name i) (content (lookup (name i) s.world.files)))
      ∙ (λ i.
          after_opening s (up (r.count i)) (name_of o path module_name n)
            (content (r.later n (omega arith) i)))
      ∙ ap (λ k. after_opening s k (name_of o path module_name n) []) (up_suc n)
    where
      up : ℕ → ℕ
      up k = k + 1

      up_suc : (k : ℕ) → up k ≡ suc k
      up_suc k = omega arith

  after_opening-Open :
      (s : State) (n : ℕ) (total : Bytes)
      → Ready o path module_name s n total
      → Open o path module_name (after_opening s (suc n) (name_of o path module_name n) []) total
  unfolding after_opening
  after_opening-Open s n total r =
      let name = name_of o path module_name n in
      record {
        last = n;
        ready = record {
          its_path = r.its_path;
          its_module = r.its_module;
          to_file = r.to_file;
          not_to_screen = r.not_to_screen;
          count = refl;
          later = λ j h.
              lookup_other name (name_of o path module_name j) [] s.world.files
                (λ e. orderly.apart n j (omega (arith, h)) (sym e))
              ∙ r.later j (omega (arith, h));
          written =
              (λ i.
                all_text-insert s.world.files [] n n (omega arith) i
                ++ content (lookup_same name [] s.world.files i))
              ∙ append-nil (all_text o path module_name s.world.files n)
              ∙ r.written;
        };
        c = [];
        named = refl;
        handle = refl;
        here = lookup_same name [] s.world.files;
      }

  -- A file opened for a state that is ready is open at its end.
  pub new_log_file-Open :
      (s : State) (n : ℕ) (total : Bytes)
      → Ready o path module_name s n total
      → Open o path module_name (new_log_file o s) total
  new_log_file-Open s n total r =
      subst (λ t. Open o path module_name t total) (sym (new_log_file_lem s n total r))
        (after_opening-Open s n total r)
