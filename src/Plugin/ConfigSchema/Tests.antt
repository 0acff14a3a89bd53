-- ===== src/Plugin/ConfigSchema/Tests.antt =====
-- Runs of validateConfigSchema of plugin/manifest_validate.go, and an instance of what is proved about it.
use opendray_v2_lab.Common.{◌≡◌, refl, [], ◌∷◌, bytes_eq, codes}
use opendray_v2_lab.Plugin.ConfigSchema.{
  ConfigField, key_shape, key_duplicate, options_required, type_unknown, key_errors, field_errors,
  validate_fields, validate_config_schema,
}

abbrev url : ConfigField
url = record {
  key = codes "base_url";
  label = codes "URL";
  field_type = codes "string";
  options = [];
}

abbrev mode : ConfigField
mode = record {
  key = codes "mode";
  label = codes "Mode";
  field_type = codes "select";
  options = [];
}

valid_test : validate_config_schema (url ∷ []) ≡ []
unfolding validate_config_schema validate_fields field_errors key_errors
valid_test = refl

broken_test :
    validate_config_schema
      (url ∷ mode ∷ url ∷ record url { key = codes "1x"; field_type = codes "date" } ∷ [])
    ≡ (1, options_required) ∷ (2, key_duplicate) ∷ (3, key_shape) ∷ (3, type_unknown) ∷ []
unfolding validate_config_schema validate_fields field_errors key_errors
broken_test = refl
