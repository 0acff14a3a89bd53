-- ===== src/Plugin/Manifest/Tests.antt =====
-- A manifest of a webview plugin with a sidecar, runs of the checks, and instances of what is proved of them.
use opendray_v2_lab.Common.Dict.{lookup}
use opendray_v2_lab.Common.Order.{pos, negsuc}
use opendray_v2_lab.Common.{
  ◌≡◌, ◌↔◌, refl, true, false, List, [], ◌∷◌, Option, none, some, Bytes, bytes_eq, codes, map,
}
use opendray_v2_lab.Go.Decimal.{format_nat}
use opendray_v2_lab.Go.Regexp.{match_string}
use opendray_v2_lab.Go.Strings.{contains}
use opendray_v2_lab.Go.Utf8.{rune_count}
use opendray_v2_lab.Plugin.Contributions.{Contributes, View}
use opendray_v2_lab.Plugin.Manifest.{Provider, HostV1, is_v1, has_host_backend}
use opendray_v2_lab.Plugin.Manifest.Contributed.{validate_contributes}
use opendray_v2_lab.Plugin.Manifest.Grammar.{validate_command_id, validate_relative_bundle_path}
use opendray_v2_lab.Plugin.Manifest.Known.{KnowsAll, validate_v1_strict-KnowsAll}
use opendray_v2_lab.Plugin.Manifest.Strict.{validate_v1_strict}
use opendray_v2_lab.Plugin.Manifest.Validate.{validate_v1}
use opendray_v2_lab.Plugin.Manifest.Whole.{IsManifest, validate_v1-IsManifest}

abbrev quoted : Bytes → Bytes
quoted s = s

abbrev clock_view : View
clock_view = record {
  id = codes "clock.main";
  title = codes "Clock";
  container = codes "panel";
  icon = [];
  when = [];
  render = codes "webview";
  entry = codes "index.html";
}

abbrev clock_contributes : Contributes
clock_contributes = record {
  commands = [];
  status_bar = [];
  keybindings = [];
  menus = [];
  activity_bar =
      record {
        id = codes "clock";
        icon = codes "c";
        title = codes "Clock";
        view_id = codes "clock.main";
      }
      ∷ [];
  views = clock_view ∷ [];
  panels = [];
  editor_actions = [];
  session_actions = [];
}

abbrev clock_host : HostV1
clock_host = record {
  entry = codes "bin/clock";
  runtime = codes "node";
  platforms = (codes "linux-x64", codes "bin/x") ∷ [];
  protocol = [];
  restart = [];
  env = (codes "TZ", codes "UTC") ∷ [];
  cwd = [];
  idle_shutdown_minutes = pos 5;
}

abbrev clock : Provider
clock = record {
  name = codes "clock";
  display_name = codes "Clock";
  description = [];
  icon = [];
  version = codes "1.0.2-b1";
  provider_type = [];
  category = [];
  display_name_zh = [];
  description_zh = [];
  cli = none;
  capabilities = record {
    models = [];
    supports_resume = false;
    supports_stream = false;
    supports_images = false;
    supports_mcp = false;
    dynamic_models = false;
  };
  config_schema = [];
  required = false;
  publisher = codes "acme";
  engines = some record { opendray = codes "^1"; node = []; deno = [] };
  form = codes "webview";
  activation = codes "onView:clock.main" ∷ [];
  contributes = some clock_contributes;
  permissions = none;
  host = some clock_host;
  v2_reserved = [];
}

accepted : validate_v1 quoted true clock ≡ []
unfolding validate_v1 match_string contains rune_count validate_command_id
    validate_relative_bundle_path
accepted = refl

-- Two broken rules are reported in the order of the fields.
two_errors :
    map
      (λ e. e.path)
      (validate_v1 quoted true (record clock {
        name = codes "-clock";
        host =
            some record clock_host { entry = codes "../clock"; idle_shutdown_minutes = negsuc 0 };
      }))
    ≡ codes "name" ∷ codes "host.entry" ∷ codes "host.idleShutdownMinutes" ∷ []
unfolding validate_v1 match_string contains rune_count validate_command_id
    validate_relative_bundle_path
two_errors = refl

second_view :
    map
      (λ e. e.path)
      (validate_contributes record clock_contributes {
        views = clock_view ∷ record clock_view { entry = codes "/x" } ∷ [];
      })
    ≡ codes "contributes.views[1].entry" ∷ []
unfolding validate_contributes match_string contains rune_count format_nat validate_command_id
    validate_relative_bundle_path
second_view = refl

has_sidecar : has_host_backend clock ≡ true
unfolding has_host_backend
has_sidecar = refl

abbrev to_object : Bytes → Option (List (Bytes × Bytes))
to_object raw = some ((codes "name", codes "clock") ∷ (codes "contributes", codes "null") ∷ [])

known : validate_v1_strict quoted to_object true clock (codes "{}") ≡ []
unfolding validate_v1_strict match_string contains rune_count lookup validate_command_id
    validate_relative_bundle_path
known = refl

validate_v1-IsManifest_example :
    (validate_v1 quoted true clock ≡ []) ↔ (is_v1 clock ≡ true → IsManifest true clock)
validate_v1-IsManifest_example = validate_v1-IsManifest quoted true clock

validate_v1_strict-KnowsAll_example :
    (validate_v1_strict quoted to_object true clock (codes "{}") ≡ [])
    ↔ (IsManifest true clock × KnowsAll to_object (to_object (codes "{}")))
unfolding is_v1
validate_v1_strict-KnowsAll_example =
    validate_v1_strict-KnowsAll quoted to_object true clock (codes "{}") refl
