-- ===== src/Wal.antt =====
-- wal/wal.go: accounts in password-sealed files. The store and the errors' texts are those of Sig.
-- A password given as an empty string comes from the terminal: `ask`. The making of the directory is
-- not modelled.
pub mod Change
pub mod Methods
pub mod Passwords
pub mod RoundTrip
pub mod Tests
use bclib.Base.{
  ℕ, ◌+◌, ◌≡◌, Bool, true, false, ◌&&◌, ◌||◌, not, String, Option, none, some, List, [], ◌∷◌, ◌++◌,
  leb, ltb, ◌==◌, length, bytes_eq, if◌then◌else◌,
}
use bclib.Go.Result.{Result, ok, err, panic, guard, ◌>>=◌, ◌>>◌}
use bclib.Go.Text.{Bytes, text}
use bclib.Algorithm.Primitives.{Primitives}
use bclib.Algorithm.Address.{sha3_256_of}
use bclib.Algorithm.Cipher.{encrypt_with_password, decrypt_with_password}
use bclib.Map.{lookup, bytes_key}
use bclib.Sig.{Files, write_file}

-- The fields that the file holds, and the file's name.
pub record Account : Type 0 where
  pub name : Bytes
  pub private_key : Bytes
  pub hash : Bytes
  pub key_store_file : Bytes

-- Package unicode on runes, the runes of a string, amino's JSON of an account (without the file's
-- name), filepath.Join, and the terminal.
pub record Platform : Type 0 where
  pub is_number : ℕ → Bool
  pub is_upper : ℕ → Bool
  pub is_lower : ℕ → Bool
  pub runes : Bytes → List ℕ
  pub marshal : Account → Result Bytes
  pub unmarshal : Bytes → Result Account
  pub join : Bytes → Bytes → Bytes
  pub ask : Result Bytes

-- The pattern ^[a-zA-Z0-9_@.-]{1,40}$.
abbrev pub is_name_char : ℕ → Bool
is_name_char c =
    (leb b'a' c && leb c b'z')
    || (leb b'A' c && leb c b'Z')
    || (leb b'0' c && leb c b'9')
    || (c == b'_')
    || (c == b'@')
    || (c == b'.')
    || (c == b'-')

abbrev pub all_name_chars : Bytes → Bool
all_name_chars [] = true
all_name_chars (c ∷ s) = is_name_char c && all_name_chars s

abbrev pub checked_name : Bytes → Bool
checked_name name = leb 1 (length name) && leb (length name) 40 && all_name_chars name

unfoldable pub check_name : Bytes → Result (Unit {0})
check_name name =
    guard (checked_name name)
      "Name contains by [letters, numbers, \"_\", \"@\", \".\" and \"-\"] and length must be [1-40] "

abbrev pub contains : ℕ → Bytes → Bool
contains c [] = false
contains c (d ∷ s) = (d == c) || contains c s

abbrev pub asc_other : Bytes
asc_other = text " !\"#$%&'()*+,-/:;<=>?[]\\^{|}~@_.`"

-- What the loop of checkPassword has found.
pub record Found : Type 0 where
  pub count : ℕ
  pub number : Bool
  pub upper : Bool
  pub lower : Bool
  pub special : Bool
  pub other : Bool

abbrev pub found_char : Platform → ℕ → Found → Found
found_char pf c f =
    if pf.is_number c
    then record f { number = true; count = f.count + 1 }
    else if pf.is_upper c
    then record f { upper = true; count = f.count + 1 }
    else if pf.is_lower c
    then record f { lower = true; count = f.count + 1 }
    else if contains c asc_other
    then record f { special = true; count = f.count + 1 }
    else record f { other = false }

unfoldable pub scan : Platform → List ℕ → Found → Found
scan pf [] f = f
scan pf (c ∷ s) f = scan pf s (found_char pf c f)

abbrev pub nothing_found : Found
nothing_found = record {
  count = 0;
  number = false;
  upper = false;
  lower = false;
  special = false;
  other = true;
}

abbrev pub is_strong : Found → Bool
is_strong f =
    f.number && f.upper && f.lower && f.special && f.other && leb 8 f.count && leb f.count 20

unfoldable pub check_password : Platform → Bytes → Bool
unfolding scan
check_password pf s = is_strong (scan pf (pf.runes s) nothing_found)

abbrev pub account_hash : Primitives → Bytes → Bytes → Bytes
account_hash p name private_key = sha3_256_of p (name ∷ private_key ∷ [])

abbrev pub asked : Platform → Bytes → Result Bytes
asked pf password = if length password == 0 then pf.ask else ok password

abbrev pub is_found : Option Bytes → Bool
is_found none = false
is_found (some b) = true

abbrev pub exists : Bytes → Files → Bool
exists name files = is_found (lookup name files)

abbrev pub content : Option Bytes → Bytes
content none = []
content (some b) = b

unfoldable pub save :
    Primitives → Platform → Option String → Account → Bytes → Bool → Files → Result Files
save p pf write_error acct password not_allow_exist files = do
  guard (bytes_eq (account_hash p acct.name acct.private_key) acct.hash)
      "verify hash of wallet failed"
  guard (not (length acct.key_store_file == 0)) "no key store file specified in account object"
  guard (not (exists acct.key_store_file files && not_allow_exist))
      "key store file is already exist"
  password_bytes ← asked pf password
  guard (check_password pf password_bytes)
      "Password must contains by [Uppercase and lowercase letters, numbers, ASCII 32 through 127] and length must be [8-20]"
  json ← pf.marshal acct
  write_file write_error acct.key_store_file
      (content (encrypt_with_password p (some json) password_bytes none)) files

unfoldable pub import_account :
    Primitives
    → Platform
    → Option String
    → Bytes
    → Bytes
    → Bytes
    → Bytes
    → Files
    → Result (Account × Files)
unfolding check_name save
import_account p pf write_error key_store_dir name password private_key files =
    let acct : Account = record {
      name = name;
      private_key = private_key;
      hash = account_hash p name private_key;
      key_store_file = pf.join key_store_dir (name ++ text ".wal");
    } in
    do check_name name; files' ← save p pf write_error acct password true files; ok (acct, files')

abbrev pub found_file : Option Bytes → Result Bytes
found_file none = err "KeyStorePath does not exist"
found_file (some b) = ok b

-- A bad name or password ends the process (the function Error exits), which is the panic.
abbrev pub or_exit : Bool → Result (Unit {0})
or_exit true = ok tt
or_exit false = panic "exit"

unfoldable pub load_account : Primitives → Platform → Bytes → Bytes → Bytes → Files → Result Account
unfolding check_password
load_account p pf key_store_dir name password files = do
  or_exit (checked_name name)
  wal_bytes ← found_file (lookup (pf.join key_store_dir (name ++ text ".wal")) files)
  password_bytes ← asked pf password
  or_exit (check_password pf password_bytes)
  json ← decrypt_with_password p (some wal_bytes) password_bytes none
  acct ← pf.unmarshal json
  guard (bytes_eq (account_hash p acct.name acct.private_key) acct.hash)
      "verify hash of wallet failed"
  ok (record acct { key_store_file = pf.join key_store_dir (name ++ text ".wal") })

-- NewAccount, with the key that was generated.
unfoldable pub new_account :
    Primitives
    → Platform
    → Option String
    → Bytes
    → Bytes
    → Bytes
    → Bytes
    → Files
    → Result (Account × Files)
unfolding import_account
new_account p pf write_error key_store_dir name password private_key files = do
  or_exit (checked_name name)
  import_account p pf write_error key_store_dir name password private_key files
