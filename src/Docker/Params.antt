-- ===== src/Docker/Params.antt =====
-- The parameters of dockerlib/types.go, and what Run of dockerlib/dockerlib_linux.go makes of them.
use bclib.Base.{Bool, List, [], ◌∷◌, ◌++◌, if◌then◌else◌}
use bclib.Go.Text.{Bytes, text}
use bclib.Map.{Map}

pub record Mounts : Type 0 where
  pub source : Bytes
  pub destination : Bytes
  pub read_only : Bool

pub record HostPort : Type 0 where
  pub port : Bytes
  pub host : Bytes

pub record DockerRunParams : Type 0 where
  pub env : List Bytes
  pub cmd : List Bytes
  pub work_dir : Bytes
  pub mounts : List Mounts
  pub port_map : Map Bytes HostPort
  pub need_pull : Bool
  pub first_output : Bytes
  pub need_out : Bool
  pub need_remove : Bool
  pub auto_remove : Bool
  pub need_wait : Bool

unfoldable pub assemble_mounts : List Mounts → List Bytes
assemble_mounts [] = []
assemble_mounts (m ∷ ms) =
    (m.source ++ b':' ∷ (m.destination ++ (if m.read_only then text ":ro,Z" else text ":Z")))
    ∷ assemble_mounts ms

unfoldable pub assemble_port_set : Map Bytes HostPort → List Bytes
assemble_port_set [] = []
assemble_port_set ((k, v) ∷ m) = k ∷ assemble_port_set m

-- A list of one binding for each port.
unfoldable pub assemble_port_map : Map Bytes HostPort → Map Bytes (List HostPort)
assemble_port_map [] = []
assemble_port_map ((k, v) ∷ m) = (k, v ∷ []) ∷ assemble_port_map m

-- container.Config and container.HostConfig
pub record Config : Type 0 where
  pub image : Bytes
  pub cmd : List Bytes
  pub tty : Bool
  pub env : List Bytes
  pub working_dir : Bytes
  pub exposed_ports : List Bytes
  pub binds : List Bytes
  pub port_bindings : Map Bytes (List HostPort)
  pub auto_remove : Bool

abbrev pub config_of : Bytes → DockerRunParams → Config
config_of image params = record {
  image = image;
  cmd = params.cmd;
  tty = params.need_out;
  env = params.env;
  working_dir = params.work_dir;
  exposed_ports = assemble_port_set params.port_map;
  binds = assemble_mounts params.mounts;
  port_bindings = assemble_port_map params.port_map;
  auto_remove = params.auto_remove;
}

pub record ExecConfig : Type 0 where
  pub user : Bytes
  pub privileged : Bool
  pub tty : Bool
  pub attach_stdin : Bool
  pub attach_stderr : Bool
  pub attach_stdout : Bool
  pub detach : Bool
  pub detach_keys : Bytes
  pub env : List Bytes
  pub cmd : List Bytes

pub record ExecStartCheck : Type 0 where
  pub detach : Bool
  pub tty : Bool
