-- ===== src/Plugin/Commands/Tests.antt =====
-- A plugin with one command, what an invocation starts, and instances of what is proved of it.
use opendray_v2_lab.Common.Order.{pos}
use opendray_v2_lab.Common.{◌≡◌, refl, true, [], ◌∷◌, none, some, bytes_eq, codes}
use opendray_v2_lab.Bridge.Gate.{Gate, no_permissions, parsed, found}
use opendray_v2_lab.Go.Sort.Insertion.{insertion}
use opendray_v2_lab.Plugin.Contributions.{Registry, Command}
use opendray_v2_lab.Plugin.Contributions.Flatten.{flatten_entries, collect}
use opendray_v2_lab.Plugin.Compat.{no_contributes}
use opendray_v2_lab.Plugin.Commands.{Outside, Trace, host_call, exited, invoke}
use opendray_v2_lab.Plugin.Commands.Allowed.{Commanded, invoke-Starts}

abbrev gate : Gate
gate = record {
  load = λ plugin. found (codes "{}");
  audit = none;
  json = record {
    to_permissions = λ raw. parsed no_permissions;
    to_bool = λ raw. none;
    to_strings = λ raw. none;
    to_fs = λ raw. none;
  };
  parse_url = λ s. none;
  parse_ip = λ s. none;
}

abbrev refresh : Command
refresh = record {
  id = codes "clock.refresh";
  title = codes "Refresh";
  icon = [];
  category = [];
  when = [];
  run = some record {
    kind = codes "host";
    method = codes "refresh";
    args = [];
    view_id = [];
    url = [];
    message = [];
    task_id = [];
  };
}

abbrev registry : Registry
registry = record {
  by_plugin = (codes "clock", record no_contributes { commands = refresh ∷ [] }) ∷ [];
}

abbrev outside : Outside
outside = record {
  sh = λ line. exited [] (pos 0);
  tasks = none;
  host = some (λ plugin method params. some (codes "ok"));
  marshal = λ args. none;
  parse_request_uri = λ url. true;
}

abbrev quiet : Trace
quiet = record { rows = []; started = [] }

host_called :
    (invoke insertion gate 0 outside registry
      (codes "clock")
      (codes "clock.refresh")
      quiet).1.started
    ≡ host_call (codes "clock") (codes "refresh") none ∷ []
unfolding invoke collect flatten_entries
host_called = refl

invoke-Starts_example :
    Commanded insertion gate registry
      (codes "clock")
      (codes "clock.refresh")
      quiet
      (invoke insertion gate 0 outside registry (codes "clock") (codes "clock.refresh") quiet)
invoke-Starts_example =
    invoke-Starts insertion gate 0 outside registry (codes "clock") (codes "clock.refresh") quiet
