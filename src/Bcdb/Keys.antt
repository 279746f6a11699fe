-- ===== src/Bcdb/Keys.antt =====
-- The keys of a database as one text.
use bclib.Base.{◌≡◌, refl, ap, ◌∙◌, Option, none, some, List, [], ◌∷◌, map, All}
use bclib.Go.Text.{Bytes, split, Lacks, split-piece, split-last}
use bclib.Bcdb.{LevelDb, join, joined_keys, get_all_key}

-- A text of keys, read back.
abbrev pub keys_of : Option Bytes → List Bytes
keys_of none = []
keys_of (some bz) = split b';' bz

split-join :
    (k : Bytes) (ks : List Bytes)
    → Lacks b';' k
    → All (Lacks b';') ks
    → split b';' (join b';' (k ∷ ks)) ≡ k ∷ ks
split-join k [] h hs = split-last b';' k h
split-join k (j ∷ ks) h (h', hs) = split-piece b';' k _ h ∙ ap (λ t. k ∷ t) (split-join j ks h' hs)

-- What GetAllKey returns, split at the semicolons, is the list of the keys, in the iterator's order,
-- where no key contains a semicolon; for a database without keys nil stands for no text at all.
pub keys_of-get_all_key :
    {D : Type 0} (ldb : LevelDb D) (db : D)
    → All (λ (e : Bytes × Bytes). Lacks b';' e.0) (ldb.entries db)
    → keys_of (get_all_key ldb db) ≡ map (λ (e : Bytes × Bytes). e.0) (ldb.entries db)
unfolding get_all_key
keys_of-get_all_key ldb db h = go (ldb.entries db) h
  where
    lacking :
        (es : List (Bytes × Bytes))
        → All (λ (e : Bytes × Bytes). Lacks b';' e.0) es
        → All (Lacks b';') (map (λ (e : Bytes × Bytes). e.0) es)
    lacking [] h' = tt
    lacking (e ∷ es) (h', hs) = (h', lacking es hs)

    go :
        (es : List (Bytes × Bytes))
        → All (λ (e : Bytes × Bytes). Lacks b';' e.0) es
        → keys_of (joined_keys es) ≡ map (λ (e : Bytes × Bytes). e.0) es
    go [] h' = refl
    go (e ∷ es) (h', hs) = split-join e.0 (map (λ (p : Bytes × Bytes). p.0) es) h' (lacking es hs)
