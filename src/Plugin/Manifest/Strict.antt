-- ===== src/Plugin/Manifest/Strict.antt =====
-- plugin/manifest_strict.go: the check that a manifest has no field the schema does not know. json.Unmarshal
-- into a map, which is none for what is not an object, is an argument.
use opendray_v2_lab.Common.{
  Bool, not, ◌&&◌, List, [], ◌∷◌, ◌++◌, Option, none, some, Bytes, bytes_eq, codes, ◌==◌,
  if◌then◌else◌,
}
use opendray_v2_lab.Common.Dict.{lookup}
use opendray_v2_lab.Plugin.ConfigSchema.{among}
use opendray_v2_lab.Plugin.Contributions.{is_empty}
use opendray_v2_lab.Plugin.Manifest.{Provider, is_v1}
use opendray_v2_lab.Plugin.Manifest.Errors.{unknown_field, ValidationError, report}
use opendray_v2_lab.Plugin.Manifest.Validate.{validate_v1}

abbrev pub v1_top_level_fields : List Bytes
v1_top_level_fields =
    codes "$schema"
    ∷ codes "name"
    ∷ codes "displayName"
    ∷ codes "displayName_zh"
    ∷ codes "description"
    ∷ codes "description_zh"
    ∷ codes "icon"
    ∷ codes "version"
    ∷ codes "type"
    ∷ codes "category"
    ∷ codes "cli"
    ∷ codes "capabilities"
    ∷ codes "configSchema"
    ∷ codes "required"
    ∷ codes "publisher"
    ∷ codes "engines"
    ∷ codes "form"
    ∷ codes "activation"
    ∷ codes "contributes"
    ∷ codes "permissions"
    ∷ codes "host"
    ∷ codes "v2Reserved"
    ∷ []

abbrev pub v1_contributes_fields : List Bytes
v1_contributes_fields =
    codes "commands"
    ∷ codes "statusBar"
    ∷ codes "keybindings"
    ∷ codes "menus"
    ∷ codes "activityBar"
    ∷ codes "views"
    ∷ codes "panels"
    ∷ codes "editorActions"
    ∷ codes "sessionActions"
    ∷ []

-- The keys of an object that are not among the known ones.
abbrev pub unknown_keys : Bytes → List Bytes → List (Bytes × Bytes) → List ValidationError
unknown_keys before known [] = []
unknown_keys before known ((k, v) ∷ rest) =
    report (not (among k known)) (before ++ k) unknown_field ++ unknown_keys before known rest

abbrev pub unknown_keys_of : Option (List (Bytes × Bytes)) → List ValidationError
unknown_keys_of none = []
unknown_keys_of (some c) = unknown_keys (codes "contributes.") v1_contributes_fields c

abbrev pub contributes_unknown :
    (Bytes → Option (List (Bytes × Bytes))) → Option Bytes → List ValidationError
contributes_unknown unmarshal none = []
contributes_unknown unmarshal (some raw) =
    if not (is_empty raw) && not (raw == codes "null") then unknown_keys_of (unmarshal raw) else []

abbrev pub unknown_in :
    (Bytes → Option (List (Bytes × Bytes))) → Option (List (Bytes × Bytes)) → List ValidationError
unknown_in unmarshal none = []
unknown_in unmarshal (some obj) =
    unknown_keys [] v1_top_level_fields obj
    ++ contributes_unknown unmarshal (lookup (codes "contributes") obj)

unfoldable pub validate_no_unknown_fields :
    (Bytes → Option (List (Bytes × Bytes))) → Bytes → List ValidationError
unfolding lookup
validate_no_unknown_fields unmarshal raw = unknown_in unmarshal (unmarshal raw)

unfoldable pub validate_v1_strict :
    (Bytes → Bytes)
    → (Bytes → Option (List (Bytes × Bytes)))
    → Bool
    → Provider
    → Bytes
    → List ValidationError
unfolding validate_v1 is_v1 validate_no_unknown_fields
validate_v1_strict quoted unmarshal host_form_allowed p raw =
    let errs = validate_v1 quoted host_form_allowed p in
    if not (is_v1 p) then errs else errs ++ validate_no_unknown_fields unmarshal raw
