-- ===== src/Plugin/Manifest/Known.antt =====
-- plugin/manifest_strict.go: which manifests pass at install time, where the fields that the schema does not
-- know count too.
use opendray_v2_lab.Common.{
  ◌≡◌, ◌↔◌, refl, ap, Bool, true, false, not, ◌&&◌, List, [], ◌∷◌, ◌++◌, Option, none, some, Bytes,
  bytes_eq, codes, ◌==◌, if◌then◌else◌, arith,
}
use opendray_v2_lab.Common.Dict.{lookup}
use opendray_v2_lab.Plugin.ConfigSchema.{among}
use opendray_v2_lab.Plugin.Contributions.{is_empty}
use opendray_v2_lab.Plugin.Manifest.{Provider, is_v1}
use opendray_v2_lab.Plugin.Manifest.Empty.{both, report_empty}
use opendray_v2_lab.Plugin.Manifest.Errors.{unknown_field, ValidationError, report}
use opendray_v2_lab.Plugin.Manifest.Sidecar.{AllKeys}
use opendray_v2_lab.Plugin.Manifest.Strict.{
  v1_top_level_fields, v1_contributes_fields, unknown_keys, unknown_keys_of, contributes_unknown,
  unknown_in, validate_no_unknown_fields, validate_v1_strict,
}
use opendray_v2_lab.Plugin.Manifest.Validate.{rule_errors}
use opendray_v2_lab.Plugin.Manifest.Whole.{OfOption, IsManifest, rule_errors-IsManifest}

-- Every key of an object is one of the known ones.
abbrev pub Knows : List Bytes → List (Bytes × Bytes) → Type 0
Knows known obj = AllKeys (λ k. among k known ≡ true) obj

unknown_keys_empty :
    (before : Bytes) (known : List Bytes) (obj : List (Bytes × Bytes))
    → (unknown_keys before known obj ≡ []) ↔ Knows known obj
unknown_keys_empty before known [] = (λ h. tt, λ h. refl)
unknown_keys_empty before known ((k, v) ∷ rest) =
    let r = report_empty (not (among k known)) (before ++ k) unknown_field in
    both (report (not (among k known)) (before ++ k) unknown_field) (unknown_keys before known rest)
      (λ e. ground (arith, r.0 e), λ e. r.1 (ap not e)) (unknown_keys_empty before known rest)

-- The contributions that are written and are an object have known keys only.
abbrev pub KnowsContributes : (Bytes → Option (List (Bytes × Bytes))) → Option Bytes → Type 0
KnowsContributes unmarshal none = Unit
KnowsContributes unmarshal (some raw) =
    not (is_empty raw) && not (raw == codes "null") ≡ true
    → OfOption (Knows v1_contributes_fields) (unmarshal raw)

unknown_keys_of_empty :
    (o : Option (List (Bytes × Bytes)))
    → (unknown_keys_of o ≡ []) ↔ OfOption (Knows v1_contributes_fields) o
unknown_keys_of_empty none = (λ h. tt, λ h. refl)
unknown_keys_of_empty (some c) = unknown_keys_empty (codes "contributes.") v1_contributes_fields c

written_empty {ℓ} :
    {P : Type ℓ} (b : Bool) (errs : List ValidationError)
    → (errs ≡ []) ↔ P
    → ((if b then errs else []) ≡ []) ↔ (b ≡ true → P)
written_empty true errs h = (λ e x. h.0 e, λ p. h.1 (p refl))
written_empty false errs h = (λ e x. absurd (cc x), λ p. refl)

contributes_unknown_empty :
    (unmarshal : Bytes → Option (List (Bytes × Bytes))) (raw : Option Bytes)
    → (contributes_unknown unmarshal raw ≡ []) ↔ KnowsContributes unmarshal raw
contributes_unknown_empty unmarshal none = (λ h. tt, λ h. refl)
contributes_unknown_empty unmarshal (some raw) =
    written_empty (not (is_empty raw) && not (raw == codes "null"))
      (unknown_keys_of (unmarshal raw)) (unknown_keys_of_empty (unmarshal raw))

-- The text is no object, or one with known keys only.
abbrev pub KnowsAll :
    (Bytes → Option (List (Bytes × Bytes))) → Option (List (Bytes × Bytes)) → Type 0
KnowsAll unmarshal none = Unit
KnowsAll unmarshal (some obj) =
    Knows v1_top_level_fields obj × KnowsContributes unmarshal (lookup (codes "contributes") obj)

unknown_in_empty :
    (unmarshal : Bytes → Option (List (Bytes × Bytes))) (o : Option (List (Bytes × Bytes)))
    → (unknown_in unmarshal o ≡ []) ↔ KnowsAll unmarshal o
unknown_in_empty unmarshal none = (λ h. tt, λ h. refl)
unknown_in_empty unmarshal (some obj) =
    both (unknown_keys [] v1_top_level_fields obj)
      (contributes_unknown unmarshal (lookup (codes "contributes") obj))
      (unknown_keys_empty [] v1_top_level_fields obj)
      (contributes_unknown_empty unmarshal (lookup (codes "contributes") obj))

-- At install time a v1 manifest passes exactly when its fields are as the schema asks, every key at its top
-- is known, and so is every key of its contributions, when these are written and are an object.
pub validate_v1_strict-KnowsAll :
    (quoted : Bytes → Bytes) (unmarshal : Bytes → Option (List (Bytes × Bytes))) (allowed : Bool)
    (p : Provider) (raw : Bytes)
    → is_v1 p ≡ true
    → (validate_v1_strict quoted unmarshal allowed p raw ≡ [])
      ↔ (IsManifest allowed p × KnowsAll unmarshal (unmarshal raw))
unfolding validate_v1_strict validate_no_unknown_fields
validate_v1_strict-KnowsAll quoted unmarshal allowed p raw v1 = rw v1 (
    both (rule_errors quoted allowed p) (validate_no_unknown_fields unmarshal raw)
      (rule_errors-IsManifest quoted allowed p) (unknown_in_empty unmarshal (unmarshal raw)))
