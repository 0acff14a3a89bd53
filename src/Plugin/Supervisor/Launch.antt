-- ===== src/Plugin/Supervisor/Launch.antt =====
-- plugin/host/supervisor.go: what spawn, resolveRuntime and buildEnv make of a manifest's sidecar, up to the
-- start of the process. exec.LookPath, os.Getenv, os.MkdirAll and the platform are arguments; the data
-- directory is an absolute path.
pub mod Entry
pub mod Env
mod Tests
use opendray_v2_lab.Common.Dict.{lookup}
use opendray_v2_lab.Common.{
  Bool, true, false, not, ◌&&◌, ◌||◌, List, [], ◌∷◌, ◌++◌, Option, none, some, Bytes, bytes_eq,
  codes, ◌==◌, if◌then◌else◌,
}
use opendray_v2_lab.Go.Path.{is_abs}
use opendray_v2_lab.Go.Path.Join.{join}
use opendray_v2_lab.Plugin.Contributions.{is_empty}
use opendray_v2_lab.Plugin.Manifest.{HostV1}

abbrev pub platform_key : Bytes → Bytes → Bytes
platform_key goos goarch = goos ++ (codes "-" ++ goarch)

abbrev pub entry_or : Bytes → Option Bytes → Bytes
entry_or entry none = entry
entry_or entry (some plat) = if is_empty plat then entry else plat

unfoldable pub entry_of : Bytes → Bytes → HostV1 → Bytes
unfolding lookup
entry_of goos goarch h = entry_or h.entry (lookup (platform_key goos goarch) h.platforms)

abbrev pub install_dir : Bytes → Bytes → Bytes → Bytes
install_dir data_dir plugin_name version =
    let base = join (data_dir ∷ plugin_name ∷ []) in
    if is_empty version then base else join (base ∷ version ∷ [])

abbrev pub cwd_of : Bytes → Bytes → Bytes
cwd_of dir cwd = if is_empty cwd then dir else if is_abs cwd then cwd else join (dir ∷ cwd ∷ [])

pub data LaunchError : Type 0 where
  runtime_not_found : Bytes → LaunchError
  runtime_unknown : Bytes → LaunchError
  create_cwd : LaunchError

-- A command and its arguments, or an error.
pub data Resolved : Type 0 where
  resolved : Bytes → List Bytes → Resolved
  refused : LaunchError → Resolved

abbrev pub found_as : Bytes → List Bytes → Option Bytes → Resolved
found_as kind args none = refused (runtime_not_found kind)
found_as kind args (some bin) = resolved bin args

abbrev pub entry_path : Bytes → Bytes → Bytes
entry_path dir entry = if is_abs entry then entry else join (dir ∷ entry ∷ [])

unfoldable pub resolve_runtime : (Bytes → Option Bytes) → Bytes → Bytes → Bytes → Resolved
unfolding join is_abs
resolve_runtime look_path kind entry dir =
    let abs = entry_path dir entry in
    if (kind == codes "binary") || ((kind == codes "custom") || is_empty kind)
    then resolved abs []
    else if kind == codes "node"
    then found_as kind (abs ∷ []) (look_path (codes "node"))
    else if kind == codes "deno"
    then found_as kind (codes "run" ∷ codes "-A" ∷ abs ∷ []) (look_path (codes "deno"))
    else if kind == codes "python3"
    then found_as kind (abs ∷ []) (look_path (codes "python3"))
    else if kind == codes "bun"
    then found_as kind (codes "run" ∷ abs ∷ []) (look_path (codes "bun"))
    else refused (runtime_unknown kind)

abbrev pub inherited : List Bytes
inherited = codes "PATH" ∷ codes "HOME" ∷ codes "USER" ∷ codes "LANG" ∷ codes "TMPDIR" ∷ []

abbrev pub setting : Bytes → Bytes → Bytes
setting key val = key ++ b'=' ∷ val

abbrev pub from_host : (Bytes → Bytes) → List Bytes → List Bytes
from_host getenv [] = []
from_host getenv (key ∷ keys) =
    if is_empty (getenv key)
    then from_host getenv keys
    else setting key (getenv key) ∷ from_host getenv keys

abbrev pub from_manifest : List (Bytes × Bytes) → List Bytes
from_manifest [] = []
from_manifest ((key, val) ∷ rest) = setting key val ∷ from_manifest rest

unfoldable pub build_env : (Bytes → Bytes) → List (Bytes × Bytes) → List Bytes
build_env getenv extra = from_host getenv inherited ++ from_manifest extra

-- What the process is started with.
pub record Launch : Type 0 where
  pub command : Bytes
  pub args : List Bytes
  pub dir : Bytes
  pub env : List Bytes

pub data Planned : Type 0 where
  planned : Launch → Planned
  failed : LaunchError → Planned

abbrev pub with_command : Bytes → List Bytes → Resolved → Planned
with_command dir env (refused e) = failed e
with_command dir env (resolved command args) =
    planned record { command = command; args = args; dir = dir; env = env }

unfoldable pub plan :
    (Bytes → Option Bytes)
    → (Bytes → Bytes)
    → (Bytes → Bool)
    → (goos goarch data_dir plugin_name version : Bytes) → HostV1
    → Planned
unfolding entry_of resolve_runtime build_env join is_abs
plan look_path getenv mkdir_all goos goarch data_dir plugin_name version h =
    let dir = install_dir data_dir plugin_name version in
    let cwd = cwd_of dir h.cwd in
    if not (mkdir_all cwd)
    then failed create_cwd
    else with_command cwd (build_env getenv h.env)
        (resolve_runtime look_path h.runtime (entry_of goos goarch h) dir)
