-- ===== src/Docker/Tests.antt =====
-- The theorems on docker, with a daemon that is its list of containers. A new container has its name
-- as its id.
use bclib.Base.{
  ◌≡◌, refl, sym, ap, ◌∙◌, Bool, true, false, ◌||◌, some, List, [], ◌∷◌, bytes_eq, arith,
}
use bclib.Go.Result.{Result, ok, err, panic, ok-injective}
use bclib.Go.Text.{Bytes, text, has_prefix}
use bclib.Docker.{
  Container, Daemon, any_name, find_id, prefixed_ids, get_container_id_by_name, kill_by_id,
  kill_found, kill_all, kill, status, reset,
}
use bclib.Docker.Names.{format_container_name, without_byte, general_container_name}
use bclib.Docker.Removal.{IsDaemon, without_id, survivors, reset-survivors}
use bclib.Docker.Killing.{status-kill}
use bclib.Docker.Run.{Engine, done, not_exists, contains_text, ensure_image}
use bclib.Docker.Pulling.{ensure_image-speaks}

abbrev Listing : Type 0
Listing = List Container

abbrev daemon : Daemon Listing
daemon = record {
  new_env_client = λ w. ok tt;
  container_list = λ w. ok w;
  container_remove = λ force id w. ok (without_id id w);
  container_stats = λ id w. ok true;
  inspect_address = λ id w. ok (text "172.17.0.2");
}

daemon-IsDaemon : IsDaemon daemon
daemon-IsDaemon = record {
  container_list-remove = λ force id cs w w' h l.
      ap ok (sym (ok-injective h)) ∙ ap (λ v. ok (without_id id v)) (ok-injective l);
}

abbrev has_id : Bytes → Listing → Bool
has_id id [] = false
has_id id (c ∷ cs) = bytes_eq c.id id || has_id id cs

abbrev created : Bool → Bytes → Listing → Result (Bytes × Listing)
created true name w = err "conflict"
created false name w = ok (name, record { id = name; names = (b'/' ∷ name) ∷ [] } ∷ w)

-- `start` tells whether containers can be started; a pull shows one phrase.
abbrev engine : Result (Unit {0}) → Engine Listing
engine start = record {
  daemon = daemon;
  image_list = λ w. ok ((text "alpine:latest" ∷ []) ∷ []);
  image_pull = λ n w. ok (some (text "Pulling") ∷ some (text "Downloaded") ∷ [], w);
  container_create = λ c name w. created (has_id name w) name w;
  container_start = λ id w. elim start [ ok u ↦ ok w | err e ↦ err e | panic e ↦ panic e ];
  container_wait = λ id w. ok w;
  container_logs = λ id w. ok (text "default via 10.0.0.1");
  exec_create = λ n c w. ok (n, w);
  exec_start = λ id c w. ok w;
}

abbrev web : Container
web = record { id = text "1"; names = text "/bc_web" ∷ [] }

abbrev db : Container
db = record { id = text "2"; names = text "/db" ∷ [] }

abbrev two : Listing
two = web ∷ db ∷ []

reset-two : reset daemon (text "[bc]_") two ≡ ok (true, db ∷ [])
unfolding reset prefixed_ids any_name has_prefix kill_all kill_by_id format_container_name
    without_byte
reset-two = refl

reset-survivors_example :
    daemon.container_list (db ∷ [])
    ≡ ok (survivors (λ rest. has_prefix rest (format_container_name (text "[bc]_"))) two two)
reset-survivors_example =
    reset-survivors daemon daemon-IsDaemon (text "[bc]_") two two (db ∷ []) refl reset-two

kill-two : kill daemon (text "bc_") [] (text "web") two ≡ ok (true, db ∷ [])
unfolding kill general_container_name get_container_id_by_name find_id any_name kill_found
    kill_by_id
kill-two = refl

status-kill_example : status daemon (text "bc_") [] (text "web") (db ∷ []) ≡ ok false
status-kill_example =
    status-kill daemon daemon-IsDaemon (text "bc_") (text "web") [] [] two two (db ∷ [])
      (omega arith) refl refl refl kill-two refl

-- A failing listing counts as a killed container.
abbrev blind : Daemon Listing
blind = record daemon { container_list = λ w. err "timeout" }

kill-blind : kill blind (text "bc_") [] (text "web") two ≡ ok (true, two)
unfolding kill general_container_name get_container_id_by_name kill_found
kill-blind = refl

ensure_image-speaks_example : ensure_image (engine (ok tt)) 3 (text "nginx") two ≡ done tt two
unfolding contains_text has_prefix not_exists
ensure_image-speaks_example =
    ensure_image-speaks (engine (ok tt)) 3 (text "nginx") ((text "alpine:latest" ∷ []) ∷ [])
      (some (text "Pulling") ∷ some (text "Downloaded") ∷ []) two two refl refl refl (omega arith)
