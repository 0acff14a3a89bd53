-- ===== src/Plugin/Install/Stage/Tests.antt =====
-- A staged install of a plugin, and instances of what is proved of Stage.
use opendray_v2_lab.Common.Dict.{lookup, insert}
use opendray_v2_lab.Common.{
  ℕ, ◌≡◌, refl, true, false, [], ◌∷◌, ◌++◌, none, some, Bytes, bytes_eq, codes,
}
use opendray_v2_lab.Go.Path.{slash, is_abs, IsPlainPart, clean, or_root}
use opendray_v2_lab.Go.Path.Join.{join}
use opendray_v2_lab.Go.Regexp.{match_string}
use opendray_v2_lab.Go.Strings.{contains}
use opendray_v2_lab.Go.Utf8.{rune_count}
use opendray_v2_lab.Plugin.Install.{PendingInstall, Installer, rename}
use opendray_v2_lab.Plugin.Manifest.{PermissionsV1, Provider}
use opendray_v2_lab.Plugin.Install.Stage.{Source, staged, StageAnswers, Library, granted, stage}
use opendray_v2_lab.Plugin.Install.Stage.Staged.{stage_place}

abbrev clock : Provider
clock = record {
  name = codes "clock";
  display_name = codes "Clock";
  description = [];
  icon = [];
  version = codes "1.0.2";
  provider_type = [];
  category = [];
  display_name_zh = [];
  description_zh = [];
  cli = none;
  capabilities = record {
    models = [];
    supports_resume = false;
    supports_stream = false;
    supports_images = false;
    supports_mcp = false;
    dynamic_models = false;
  };
  config_schema = [];
  required = false;
  publisher = codes "acme";
  engines = some record { opendray = codes "^1"; node = []; deno = [] };
  form = codes "declarative";
  activation = [];
  contributes = none;
  permissions = none;
  host = none;
  v2_reserved = [];
}

abbrev library : Library
library = record {
  unmarshal = λ raw. some clock;
  to_object = λ raw. some [];
  quoted = λ s. s;
  hash = λ p. some (codes "h");
  short_hash = λ s. s;
  join = join;
}

abbrev local_dir : Source
local_dir = record {
  is_local = true;
  describe = codes "local";
  fetched = some (codes "/tmp/x");
  cleans = false;
}

abbrev answers : StageAnswers
answers = record {
  context_alive = true;
  make_data_dir = true;
  staging_parent = some (codes "/data/.staging/1");
  move_fetched = true;
  copy_fetched = true;
  token = codes "t";
  now = 5;
  ttl = 10;
}

abbrev installer : Installer PermissionsV1 ℕ
installer = record {
  data_dir = codes "/data";
  pending = [];
  db = record { plugins = []; consents = []; tombstones = [] };
  bundles = (codes "/tmp/x", record { manifest_json = some (codes "{}"); files = [] }) ∷ [];
  runtime = 0;
  audit = [];
  changes = 0;
}

abbrev pend : PendingInstall PermissionsV1
pend = record {
  token = codes "t";
  name = codes "clock";
  version = codes "1.0.2";
  manifest_hash = codes "h";
  perms = granted none;
  staged_path = codes "/data/.staging/1/bundle";
  expires_at = 15;
}

staged_test : (stage library true true local_dir answers installer).0 ≡ staged pend
unfolding stage match_string contains rune_count join clean rename lookup insert
staged_test = refl

stage_place_example :
    IsPlainPart (codes "clock")
    × IsPlainPart (codes "1.0.2")
    × (base : Bytes) × (clean (codes "/data") ≡ or_root base)
    × (join (codes "/data" ∷ codes "clock" ∷ codes "1.0.2" ∷ [])
        ≡ base ++ slash ∷ (codes "clock" ++ slash ∷ codes "1.0.2"))
stage_place_example =
    stage_place library true true local_dir answers installer pend staged_test
      (unfold is_abs in refl)
