-- ===== src/Docker/Run.antt =====
-- Run, Exec and ensureImage of dockerlib/dockerlib_linux.go.
use bclib.Base.{
  ℕ, zero, suc, Bool, true, false, ◌&&◌, ◌||◌, not, String, Option, none, some, List, [], ◌∷◌, ◌++◌,
  drop, length, replicate, bytes_eq, if◌then◌else◌,
}
use bclib.Go.Result.{Result, ok, err, panic, out_of_range}
use bclib.Go.Text.{Bytes, text, has_prefix, split}
use bclib.Docker.{Daemon}
use bclib.Docker.Names.{general_container_name}
use bclib.Docker.Params.{DockerRunParams, ExecConfig, ExecStartCheck, Config, config_of}

-- What the daemon does with images and with containers that run. A pull gives the reads of its
-- progress, `none` for one that fails; behind the last one every read is the end of the file. The
-- logs are their first read.
pub record Engine (W : Type 0) : Type 0 where
  pub daemon : Daemon W
  pub image_list : W → Result (List (List Bytes))
  pub image_pull : Bytes → W → Result (List (Option Bytes) × W)
  pub container_create : Config → Bytes → W → Result (Bytes × W)
  pub container_start : Bytes → W → Result W
  pub container_wait : Bytes → W → Result W
  pub container_logs : Bytes → W → Result Bytes
  pub exec_create : Bytes → ExecConfig → W → Result (Bytes × W)
  pub exec_start : Bytes → ExecStartCheck → W → Result W

-- What a call comes to: its value, or false with an error, and what the daemon has then; a panic; or
-- no end within the fuel.
pub data Did (W A : Type 0) : Type 0 where
  done : A → W → Did W A
  failed : String → W → Did W A
  crashed : String → Did W A
  hangs : Did W A

abbrev pub then_did : {W A B : Type 0} → Did W A → (A → W → Did W B) → Did W B
then_did (done a w) f = f a w
then_did (failed e w) f = failed e w
then_did (crashed e) f = crashed e
then_did hangs f = hangs

-- A call of the daemon with its error passed on; it leaves what the daemon has.
abbrev pub passed : {W A : Type 0} → Result A → W → Did W A
passed (ok a) w = done a w
passed (err e) w = failed e w
passed (panic e) w = crashed e

abbrev pub moved : {W : Type 0} → Result W → W → Did W (Unit {0})
moved (ok w') w = done tt w'
moved (err e) w = failed e w
moved (panic e) w = crashed e

abbrev pub has_tag : Bytes → List Bytes → Bool
has_tag image_name [] = false
has_tag image_name (tag ∷ tags) = bytes_eq tag image_name || has_tag image_name tags

-- The two loops of notExists, whether one of the tags is the image's name.
unfoldable pub not_exists : List (List Bytes) → Bytes → Bool
not_exists [] image_name = true
not_exists (tags ∷ images) image_name =
    let rest = not_exists images image_name in if has_tag image_name tags then false else rest

-- strings.Contains(s, part)
unfoldable pub contains_text : Bytes → Bytes → Bool
unfolding has_prefix
contains_text [] part = has_prefix [] part
contains_text (c ∷ s) part = has_prefix (c ∷ s) part || contains_text s part

abbrev pub said : Bytes → Bool
said byt = contains_text byt (text "Downloaded") || contains_text byt (text "up to date")

-- A read goes over the start of the buffer.
abbrev pub over : Bytes → Bytes → Bytes
over chunk byt = chunk ++ drop (length chunk) byt

-- The loop over the progress of a pull, on fuel.
unfoldable pub pull_loop : ℕ → Bytes → List (Option Bytes) → Bool
unfolding contains_text
pull_loop zero byt reads = false
pull_loop (suc fuel) byt (none ∷ reads) = true
pull_loop (suc fuel) byt (some chunk ∷ reads) =
    let rest = pull_loop fuel (over chunk byt) reads in if said (over chunk byt) then true else rest
pull_loop (suc fuel) byt [] = let rest = pull_loop fuel byt [] in if said byt then true else rest

abbrev pub removed : {W : Type 0} → Bytes → Result W → W → Did W Bytes
removed out (ok w') w = done out w'
removed out (err e) w = done out w
removed out (panic e) w = crashed e

module _ {W : Type 0} (e : Engine W) where
  -- What it writes to params.FirstOutput.
  unfoldable pub feed_back : Bytes → DockerRunParams → W → Did W Bytes
  feed_back container_id params w =
      if params.need_out
      then passed (e.container_logs container_id w) w
      else done params.first_output w

  -- From ContainerCreate on.
  unfoldable pub run_container : Bytes → Bytes → DockerRunParams → W → Did W Bytes
  unfolding feed_back
  run_container image name params w =
      then_did (passed (e.container_create (config_of image params) name w) w) λ created w₀.
        then_did (moved (e.container_start (created.0) (created.1)) (created.1)) λ u w₁.
          then_did
            (if params.need_wait then moved (e.container_wait (created.0) w₁) w₁ else done tt w₁)
            λ u w₂. then_did (feed_back (created.0) params w₂) λ out w₃.
              if params.need_remove
              then removed out (e.daemon.container_remove false (created.0) w₃) w₃
              else done out w₃

  -- Exec hands both configurations on as they are.
  unfoldable pub exec : Bytes → ExecConfig → ExecStartCheck → Bytes → W → Did W (Unit {0})
  exec prefix config start_config container w =
      then_did (passed (e.daemon.new_env_client w) w) λ u w.
        then_did (passed (e.exec_create (prefix ++ container) config w) w)
          λ res w. moved (e.exec_start (res.0) start_config (res.1)) (res.1)

abbrev pub third : {W : Type 0} → List Bytes → W → Did W Bytes
third (a ∷ b ∷ c ∷ rest) w = done c w
third other w = crashed out_of_range

abbrev pub hub_params : DockerRunParams
hub_params = record {
  env = [];
  cmd = text "ip" ∷ text "r" ∷ [];
  work_dir = [];
  mounts = [];
  port_map = [];
  need_pull = false;
  first_output = [];
  need_out = true;
  need_remove = true;
  auto_remove = false;
  need_wait = true;
}

-- Fuel for the progress of a pull.
module _ {W : Type 0} (e : Engine W) (fuel : ℕ) where
  abbrev pub pulled : List (Option Bytes) → W → Did W (Unit {0})
  pulled reads w = if pull_loop fuel (replicate 500 0) reads then done tt w else hangs

  unfoldable pub ensure_image : Bytes → W → Did W (Unit {0})
  unfolding not_exists pull_loop
  ensure_image image_name w = then_did (passed (e.image_list w) w) λ images w.
      if not_exists images image_name
      then then_did (passed (e.image_pull image_name w) w) (λ r w. pulled (r.0) (r.1))
      else done tt w

  -- The attempts to get the image, and the error of the last one.
  unfoldable pub attempts : ℕ → String → Bytes → W → Did W (Unit {0})
  unfolding ensure_image
  attempts zero last image_name w = failed last w
  attempts (suc n) last image_name w = elim (ensure_image image_name w) [
    | done u w' ↦ done tt w'
    | failed e w' ↦ attempts n e image_name w'
    | crashed e ↦ crashed e
    | hangs ↦ hangs
  ]

  -- Run, with what it leaves in params.FirstOutput. The prefixes of the errors are left out.
  unfoldable pub run : Bytes → List Bytes → Bytes → Bytes → DockerRunParams → W → Did W Bytes
  unfolding attempts run_container
  run prefix random image name params w =
      then_did (passed (general_container_name prefix random name) w) λ container_name w.
        then_did (passed (e.daemon.new_env_client w) w) λ u w.
          then_did (if params.need_pull then attempts 3 "" image w else done tt w)
            λ u w. run_container e image container_name params w

  -- GetDockerHubIP; an error of Run gives the empty text.
  unfoldable pub get_docker_hub_ip : Bytes → List Bytes → W → Did W Bytes
  unfolding run
  get_docker_hub_ip prefix random w =
      elim (run prefix random (text "alpine:latest") [] hub_params w) [
        | done out w' ↦ third (split b' ' out) w'
        | failed e w' ↦ done [] w'
        | crashed e ↦ crashed e
        | hangs ↦ hangs
      ]

-- net.Addr, as far as GetMyIntranetIP asks it.
pub record Addr : Type 0 where
  pub is_ip_net : Bool
  pub is_loopback : Bool
  pub is_v4 : Bool
  pub ip_text : Bytes

abbrev pub first_intranet : List Addr → Bytes
first_intranet [] = []
first_intranet (a ∷ addrs) =
    let rest = first_intranet addrs in
    if a.is_ip_net && not a.is_loopback && a.is_v4 then a.ip_text else rest

unfoldable pub get_my_intranet_ip : Result (List Addr) → Bytes
get_my_intranet_ip (ok addrs) = first_intranet addrs
get_my_intranet_ip (err e) = []
get_my_intranet_ip (panic e) = []
