-- ===== src/Docker.antt =====
-- dockerlib/dockerlib_linux.go: containers that are found, killed and reset. The daemon behind the
-- docker client is a parameter; `W` is what it has. A new client is made for each call, and closed.
-- The messages to the logger are left out.
pub mod Names
pub mod Params
pub mod Run
pub mod Removal
pub mod Pulling
pub mod Residue
mod Tests
pub mod Killing
use bclib.Base.{
  ℕ, ◌≡◌, Bool, true, false, ◌&&◌, ◌||◌, not, Option, none, some, List, [], ◌∷◌, ◌++◌, ◌==◌, length,
  bytes_eq, if◌then◌else◌, All,
}
use bclib.Go.Result.{Result, ok, err, panic, bad_slice, nil_pointer, ◌>>=◌, ◌>>◌}
use bclib.Go.Text.{Bytes, text, has_prefix}
use bclib.Docker.Names.{general_container_name, format_container_name}

pub record Container : Type 0 where
  pub id : Bytes
  pub names : List Bytes

-- A call that fails leaves what the daemon has. The Boolean of a removal is its option Force, which
-- also removes a container that runs.
pub record Daemon (W : Type 0) : Type 0 where
  pub new_env_client : W → Result (Unit {0})
  pub container_list : W → Result (List Container)
  pub container_remove : Bool → Bytes → W → Result W
  pub container_stats : Bytes → W → Result Bool
  pub inspect_address : Bytes → W → Result Bytes

-- name[1:]
abbrev pub tail : Bytes → Result Bytes
tail [] = panic bad_slice
tail (c ∷ name) = ok name

-- The inner loop of getContainerIDByName, and of Reset with another test.
unfoldable pub any_name : (Bytes → Bool) → List Bytes → Result Bool
any_name test [] = ok false
any_name test (name ∷ names) = do
  rest ← tail name
  let more = any_name test names
  if test rest then ok true else more

-- The outer loop: it goes on behind a container without an id.
unfoldable pub find_id : Bytes → List Container → Result Bytes
unfolding any_name
find_id container_name [] = ok []
find_id container_name (con ∷ cons) = do
  found ← any_name (λ rest. bytes_eq rest container_name) con.names
  let more = find_id container_name cons
  if found && not (length con.id == 0) then ok con.id else more

-- The ids that Reset collects.
unfoldable pub prefixed_ids : Bytes → List Container → Result (List Bytes)
unfolding any_name
prefixed_ids prefix [] = ok []
prefixed_ids prefix (c ∷ cs) = do
  found ← any_name (λ rest. has_prefix rest prefix) c.names
  ids ← prefixed_ids prefix cs
  ok (if found then c.id ∷ ids else ids)

-- What a call comes to that logs the error of another one and returns a value for it.
abbrev pub on_error {ℓ κ} : {A : Type ℓ} {B : Type κ} → Result A → B → (A → Result B) → Result B
on_error (ok a) b f = f a
on_error (err e) b f = ok b
on_error (panic e) b f = panic e

module _ {W : Type 0} (d : Daemon W) where
  unfoldable pub get_container_id_by_name : Bytes → W → Result Bytes
  unfolding find_id
  get_container_id_by_name container_name w =
      on_error (d.container_list w) [] (λ cs. find_id container_name cs)

  unfoldable pub kill_by_id : Bytes → W → Result (Bool × W)
  kill_by_id container_id w =
      on_error (d.container_remove true container_id w) (false, w) (λ w'. ok (true, w'))

  -- The killing of what getContainerIDByName found.
  unfoldable pub kill_found : Bytes → W → Result (Bool × W)
  unfolding kill_by_id
  kill_found container_id w =
      if length container_id == 0 then ok (true, w) else kill_by_id container_id w

  unfoldable pub kill_all : List Bytes → W → Result (Bool × W)
  unfolding kill_by_id
  kill_all [] w = ok (true, w)
  kill_all (id ∷ ids) w = do
    r ← kill_by_id id w
    let more = kill_all ids (r.1)
    if r.0 then more else ok (false, r.1)

  unfoldable pub kill : Bytes → List Bytes → Bytes → W → Result (Bool × W)
  unfolding get_container_id_by_name kill_found
  kill prefix random name w = do
    container_name ← general_container_name prefix random name
    on_error (d.new_env_client w) (false, w)
        λ u. do container_id ← get_container_id_by_name container_name w; kill_found container_id w

  unfoldable pub status : Bytes → List Bytes → Bytes → W → Result Bool
  unfolding get_container_id_by_name
  status prefix random name w = do
    container_name ← general_container_name prefix random name
    on_error (d.new_env_client w) false λ u. do
      container_id ← get_container_id_by_name container_name w
      if length container_id == 0
          then ok false
          else on_error (d.container_stats container_id w) false (λ body. ok body)

  unfoldable pub reset : Bytes → W → Result (Bool × W)
  unfolding prefixed_ids kill_all
  reset prefix w =
      on_error (d.new_env_client w) (false, w)
        λ u.
          on_error (d.container_list w) (false, w)
            λ cs. do ids ← prefixed_ids (format_container_name prefix) cs; kill_all ids w

  -- Without a client the code goes on with a nil pointer.
  unfoldable pub get_docker_container_ip : Bytes → List Bytes → Bytes → W → Result Bytes
  unfolding get_container_id_by_name
  get_docker_container_ip prefix random name w = do
    container_name ← general_container_name prefix random name
    elim (d.new_env_client w) [
      | ok u ↦ do
        container_id ← get_container_id_by_name container_name w
        if length container_id == 0
            then ok []
            else on_error (d.inspect_address container_id w) [] (λ a. ok a)
      | err e ↦ panic nil_pointer
      | panic e ↦ panic e
    ]
