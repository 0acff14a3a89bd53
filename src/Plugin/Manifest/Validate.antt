-- ===== src/Plugin/Manifest/Validate.antt =====
-- plugin/manifest_validate.go: ValidateV1. A legacy manifest has no errors; of any other, every broken rule is
-- reported, in the order of the fields.
use opendray_v2_lab.Common.{
  ℕ, Bool, not, ◌&&◌, ◌||◌, List, [], ◌∷◌, ◌++◌, Option, none, some, Bytes, bytes_eq, codes, ◌==◌,
  if◌then◌else◌,
}
use opendray_v2_lab.Plugin.ConfigSchema
use opendray_v2_lab.Plugin.ConfigSchema.{
  key_required, key_shape, key_duplicate, label_required, type_unknown, options_required,
  validate_config_schema, ConfigField,
}
use opendray_v2_lab.Plugin.Contributions.{Contributes, is_some}
use opendray_v2_lab.Plugin.Manifest.{
  PermissionsV1, Provider, form_declarative, form_webview, form_host, is_v1, effective_form,
}
use opendray_v2_lab.Plugin.Manifest.Contributed.{one_of, validate_contributes}
use opendray_v2_lab.Plugin.Manifest.Errors.{schema, ValidationError, report_error, each, indexed}
use opendray_v2_lab.Plugin.Manifest.Grammar.{
  validate_name, validate_publisher, validate_semver, validate_engines, validate_activation_event,
}
use opendray_v2_lab.Plugin.Manifest.Host.{validate_permissions, validate_host_v1}

abbrev pub forms : List Bytes
forms = form_declarative ∷ form_webview ∷ form_host ∷ []

unfoldable pub activation_errors : ℕ → Bytes → List ValidationError
activation_errors i ev =
    report_error (indexed (codes "activation") i) (validate_activation_event ev)

abbrev pub contributes_errors : Option Contributes → List ValidationError
contributes_errors none = []
contributes_errors (some c) = validate_contributes c

abbrev pub permissions_errors : Option PermissionsV1 → List ValidationError
permissions_errors none = []
permissions_errors (some p) = validate_permissions p

-- A sidecar is checked for the form "host", and for the form "webview" when there is one.
unfoldable pub checks_host : Provider → Bool
unfolding effective_form
checks_host p =
    (effective_form p == form_host) || ((effective_form p == form_webview) && is_some p.host)

-- The path of an error of configSchema.
abbrev pub suffix_of : ConfigSchema.Rule → Bytes
suffix_of key_required = codes ".key"
suffix_of key_shape = codes ".key"
suffix_of key_duplicate = codes ".key"
suffix_of label_required = codes ".label"
suffix_of type_unknown = codes ".type"
suffix_of options_required = codes ".options"

abbrev pub schema_errors : List (ℕ × ConfigSchema.Rule) → List ValidationError
schema_errors [] = []
schema_errors ((i, r) ∷ rest) =
    record { path = indexed (codes "configSchema") i ++ suffix_of r; rule = schema r }
    ∷ schema_errors rest

unfoldable pub rule_errors : (Bytes → Bytes) → Bool → Provider → List ValidationError
unfolding validate_name validate_publisher validate_semver validate_engines
    validate_activation_event activation_errors validate_contributes validate_permissions
    checks_host validate_host_v1 validate_config_schema indexed
rule_errors quoted host_form_allowed p =
    report_error (codes "name") (validate_name p.name)
    ++ (report_error (codes "publisher") (validate_publisher p.publisher)
        ++ (report_error (codes "version") (validate_semver p.version)
            ++ (report_error (codes "engines.opendray") (validate_engines p.engines)
                ++ (one_of forms (codes "form") p.form
                    ++ (each activation_errors 0 p.activation
                        ++ (contributes_errors p.contributes
                            ++ (permissions_errors p.permissions
                                ++ ((if checks_host p
                                      then validate_host_v1 quoted host_form_allowed p.host
                                      else [])
                                    ++ schema_errors
                                        (validate_config_schema p.config_schema)))))))))

unfoldable pub validate_v1 : (Bytes → Bytes) → Bool → Provider → List ValidationError
unfolding is_v1 rule_errors
validate_v1 quoted host_form_allowed p =
    let errs = rule_errors quoted host_form_allowed p in if not (is_v1 p) then [] else errs
