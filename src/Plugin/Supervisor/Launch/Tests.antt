-- ===== src/Plugin/Supervisor/Launch/Tests.antt =====
-- A sidecar that runs in node, what is started for it, and instances of what is proved of that.
use opendray_v2_lab.Common.Order.{pos}
use opendray_v2_lab.Common.Dict.{lookup}
use opendray_v2_lab.Common.{
  ◌≡◌, refl, true, [], ◌∷◌, Option, none, some, Bytes, bytes_eq, codes, ◌==◌, All, if◌then◌else◌,
}
use opendray_v2_lab.Go.Path.{is_abs}
use opendray_v2_lab.Go.Path.Below.{IsWithin}
use opendray_v2_lab.Go.Path.Join.{join}
use opendray_v2_lab.Go.Regexp.{match_string}
use opendray_v2_lab.Go.Strings.{contains}
use opendray_v2_lab.Plugin.Manifest.{HostV1}
use opendray_v2_lab.Plugin.Manifest.Host.{host_errors}
use opendray_v2_lab.Plugin.Supervisor.Launch.{
  entry_of, resolve_runtime, inherited, build_env, planned, plan,
}
use opendray_v2_lab.Plugin.Supervisor.Launch.Entry.{entry_of_amd64, Runs, resolve_runtime_below}
use opendray_v2_lab.Plugin.Supervisor.Launch.Env.{IsSetting, build_env-All}

abbrev quoted : Bytes → Bytes
quoted s = s

abbrev look_path : Bytes → Option Bytes
look_path kind = if kind == codes "node" then some (codes "/usr/bin/node") else none

abbrev getenv : Bytes → Bytes
getenv key = if key == codes "HOME" then codes "/root" else []

abbrev clock_host : HostV1
clock_host = record {
  entry = codes "bin/clock.js";
  runtime = codes "node";
  platforms = (codes "linux-x64", codes "bin/x.js") ∷ [];
  protocol = [];
  restart = [];
  env = (codes "TZ", codes "UTC") ∷ [];
  cwd = codes "run";
  idle_shutdown_minutes = pos 5;
}

accepted : host_errors quoted clock_host ≡ []
unfolding host_errors match_string contains
accepted = refl

started :
    plan look_path getenv
      (λ dir. true)
      (codes "linux")
      (codes "amd64")
      (codes "/data")
      (codes "clock")
      (codes "1.0.0")
      clock_host
    ≡ planned record {
      command = codes "/usr/bin/node";
      args = codes "/data/clock/1.0.0/bin/clock.js" ∷ [];
      dir = codes "/data/clock/1.0.0/run";
      env = codes "HOME=/root" ∷ codes "TZ=UTC" ∷ [];
    }
unfolding plan lookup join is_abs
started = refl

entry_of_amd64_example : entry_of (codes "linux") (codes "amd64") clock_host ≡ codes "bin/clock.js"
entry_of_amd64_example = entry_of_amd64 quoted (codes "linux") clock_host accepted

resolve_runtime_below_example :
    (file : Bytes) × IsWithin (codes "/data/clock") file
    × Runs look_path file (
        resolve_runtime look_path
          (codes "node")
          (entry_of (codes "linux") (codes "amd64") clock_host)
          (codes "/data/clock"))
unfolding is_abs
resolve_runtime_below_example =
    resolve_runtime_below quoted look_path (codes "linux") (codes "amd64") (codes "/data/clock")
      clock_host accepted refl refl (entry_of_amd64 quoted (codes "linux") clock_host accepted)

build_env-All_example :
    All
      (IsSetting getenv inherited ((codes "TZ", codes "UTC") ∷ []))
      (build_env getenv ((codes "TZ", codes "UTC") ∷ []))
build_env-All_example = build_env-All quoted getenv clock_host accepted
