-- ===== src/Plugin/Compat/Tests.antt =====
-- A legacy panel, its overlay, and an instance of what is proved of it.
use opendray_v2_lab.Common.{◌≡◌, refl, false, [], ◌∷◌, none, Bytes, bytes_eq, codes, map, arith}
use opendray_v2_lab.Go.Regexp.{match_string}
use opendray_v2_lab.Go.Utf8.{rune_count}
use opendray_v2_lab.Plugin.ConfigSchema.{validate_config_schema}
use opendray_v2_lab.Plugin.Manifest.{Provider, is_v1}
use opendray_v2_lab.Plugin.Manifest.Grammar.{validate_name, validate_semver}
use opendray_v2_lab.Plugin.Manifest.Validate.{validate_v1}
use opendray_v2_lab.Plugin.Compat.{contributes_or, synthesize}
use opendray_v2_lab.Plugin.Compat.Panel.{validate_v1-synthesize}

abbrev quoted : Bytes → Bytes
quoted s = s

abbrev docs : Provider
docs = record {
  name = codes "docs";
  display_name = [];
  description = [];
  icon = codes "d";
  version = codes "0.1.0";
  provider_type = codes "panel";
  category = codes "docs";
  display_name_zh = [];
  description_zh = [];
  cli = none;
  capabilities = record {
    models = [];
    supports_resume = false;
    supports_stream = false;
    supports_images = false;
    supports_mcp = false;
    dynamic_models = false;
  };
  config_schema = [];
  required = false;
  publisher = [];
  engines = none;
  form = [];
  activation = [];
  contributes = none;
  permissions = none;
  host = none;
  v2_reserved = [];
}

one_view : map (λ v. v.id) (contributes_or (synthesize docs).contributes).views ≡ codes "docs" ∷ []
unfolding synthesize
one_view = refl

validate_v1-synthesize_example : validate_v1 quoted false (synthesize docs) ≡ []
unfolding is_v1 validate_name validate_semver match_string rune_count validate_config_schema
validate_v1-synthesize_example =
    validate_v1-synthesize quoted false docs refl refl refl refl refl refl (λ e. cc e)
      ((λ e. cc e), omega arith) refl
