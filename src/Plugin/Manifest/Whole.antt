-- ===== src/Plugin/Manifest/Whole.antt =====
-- plugin/manifest_validate.go and manifest_strict.go: which manifests are accepted.
use opendray_v2_lab.Common.{
  ℕ, ◌≡◌, ◌↔◌, inl, inr, refl, Bool, true, false, List, [], ◌∷◌, ◌++◌, Option, none, some, Bytes,
  bytes_eq, codes, Bool-cases, All, if◌then◌else◌, arith,
}
use opendray_v2_lab.Go.Regexp.Language.{Lang, match_string_iff}
use opendray_v2_lab.Plugin.ConfigSchema
use opendray_v2_lab.Plugin.ConfigSchema.{among, validate_config_schema}
use opendray_v2_lab.Plugin.ConfigSchema.Valid.{AllNew, validate_config_schema-AllNew}
use opendray_v2_lab.Plugin.Contributions.{Contributes}
use opendray_v2_lab.Plugin.Manifest.{PermissionsV1, EnginesV1, Provider, names_engine, is_v1}
use opendray_v2_lab.Plugin.Manifest.Component.{version_not_empty}
use opendray_v2_lab.Plugin.Manifest.Contributed.{one_of}
use opendray_v2_lab.Plugin.Manifest.Empty.{
  both, report_error_empty, each_empty, IsOneOf, one_of_empty,
}
use opendray_v2_lab.Plugin.Manifest.Errors.{Rule, ValidationError, report_error, each, indexed}
use opendray_v2_lab.Plugin.Manifest.Grammar.{
  re_version, re_activation, validate_name, validate_publisher, validate_semver, validate_engines,
  validate_activation_event,
}
use opendray_v2_lab.Plugin.Manifest.Host.{validate_host_v1}
use opendray_v2_lab.Plugin.Manifest.Labels.{IsLabel, matched_iff, validate_name-IsLabel}
use opendray_v2_lab.Plugin.Manifest.Places.{IsContributes, validate_contributes-IsContributes}
use opendray_v2_lab.Plugin.Manifest.Sidecar.{
  IsPermissions, validate_permissions-IsPermissions, IsSidecar, validate_host_v1-IsSidecar,
}
use opendray_v2_lab.Plugin.Manifest.Validate.{
  forms, activation_errors, contributes_errors, permissions_errors, checks_host, schema_errors,
  rule_errors, validate_v1,
}

abbrev pub OfOption {ℓ} : {A : Type ℓ} → (A → Type 0) → Option A → Type 0
OfOption P none = Unit
OfOption P (some a) = P a

-- What the schema asks of a manifest, where `allowed` tells whether the build runs sidecars.
pub record IsManifest (allowed : Bool) (p : Provider) : Type 0 where
  pub name : IsLabel 64 p.name
  pub publisher : IsLabel 40 p.publisher
  pub version : Lang re_version p.version
  pub engines : names_engine p.engines ≡ true
  pub form : IsOneOf forms p.form
  pub activation : All (Lang re_activation) p.activation
  pub contributes : OfOption IsContributes p.contributes
  pub permissions : OfOption IsPermissions p.permissions
  pub host : checks_host p ≡ true → IsSidecar allowed p.host
  pub config_schema : AllNew [] p.config_schema

-- One text under a path, of which a check says what passes.
field {ℓ} :
    {P : Type ℓ} (path : Bytes) (o : Option Rule) → (o ≡ none) ↔ P → (report_error path o ≡ []) ↔ P
field path o h = let e = report_error_empty path o in (λ x. h.0 (e.0 x), λ x. e.1 (h.1 x))

pub validate_semver_iff : (v : Bytes) → (validate_semver v ≡ none) ↔ Lang re_version v
unfolding validate_semver
validate_semver_iff v = matched_iff re_version v version_not_empty

validate_engines_iff :
    (e : Option EnginesV1) → (validate_engines e ≡ none) ↔ (names_engine e ≡ true)
unfolding validate_engines
validate_engines_iff e = (λ h. ground (arith, h), λ h. ground (arith, h))

activation_errors_empty :
    (i : ℕ) (ev : Bytes) → (activation_errors i ev ≡ []) ↔ Lang re_activation ev
unfolding activation_errors validate_activation_event
activation_errors_empty i ev =
    let m = match_string_iff ev re_activation in
    field (indexed (codes "activation") i) (validate_activation_event ev)
      (λ h. m.0 (ground (arith, h)), λ h. rw (m.1 h) refl)

contributes_errors_empty :
    (c : Option Contributes) → (contributes_errors c ≡ []) ↔ OfOption IsContributes c
contributes_errors_empty none = (λ h. tt, λ h. refl)
contributes_errors_empty (some c) = validate_contributes-IsContributes c

permissions_errors_empty :
    (p : Option PermissionsV1) → (permissions_errors p ≡ []) ↔ OfOption IsPermissions p
permissions_errors_empty none = (λ h. tt, λ h. refl)
permissions_errors_empty (some p) = validate_permissions-IsPermissions p

checked_empty {ℓ} :
    {P : Type ℓ} (b : Bool) (errs : List ValidationError)
    → (errs ≡ []) ↔ P
    → ((if b then errs else []) ≡ []) ↔ (b ≡ true → P)
checked_empty true errs h = (λ e x. h.0 e, λ p. h.1 (p refl))
checked_empty false errs h = (λ e x. absurd (cc x), λ p. refl)

schema_errors_empty : (es : List (ℕ × ConfigSchema.Rule)) → (schema_errors es ≡ []) ↔ (es ≡ [])
schema_errors_empty [] = (λ h. refl, λ h. refl)
schema_errors_empty ((i, r) ∷ es) = (λ h. absurd (cc h), λ h. absurd (cc h))

pub rule_errors-IsManifest :
    (quoted : Bytes → Bytes) (allowed : Bool) (p : Provider)
    → (rule_errors quoted allowed p ≡ []) ↔ IsManifest allowed p
unfolding rule_errors
rule_errors-IsManifest quoted allowed p =
    let a = report_error (codes "name") (validate_name p.name) in
    let b = report_error (codes "publisher") (validate_publisher p.publisher) in
    let c = report_error (codes "version") (validate_semver p.version) in
    let d = report_error (codes "engines.opendray") (validate_engines p.engines) in
    let e = one_of forms (codes "form") p.form in
    let f = each activation_errors 0 p.activation in
    let g = contributes_errors p.contributes in
    let h = permissions_errors p.permissions in
    let i = (if checks_host p then validate_host_v1 quoted allowed p.host else []) in
    let j = schema_errors (validate_config_schema p.config_schema) in
    let schema_ok = schema_errors_empty (validate_config_schema p.config_schema) in
    let fields_ok = validate_config_schema-AllNew p.config_schema in
    let parts =
      both a (b ++ (c ++ (d ++ (e ++ (f ++ (g ++ (h ++ (i ++ j))))))))
        (field (codes "name") (validate_name p.name) (validate_name-IsLabel p.name).0)
        (both b (c ++ (d ++ (e ++ (f ++ (g ++ (h ++ (i ++ j)))))))
          (field (codes "publisher") (validate_publisher p.publisher)
            (validate_name-IsLabel p.publisher).1)
          (both c (d ++ (e ++ (f ++ (g ++ (h ++ (i ++ j))))))
            (field (codes "version") (validate_semver p.version) (validate_semver_iff p.version))
            (both d (e ++ (f ++ (g ++ (h ++ (i ++ j)))))
              (field (codes "engines.opendray") (validate_engines p.engines)
                (validate_engines_iff p.engines))
              (both e (f ++ (g ++ (h ++ (i ++ j)))) (one_of_empty forms (codes "form") p.form) (
                both f (g ++ (h ++ (i ++ j)))
                  (each_empty (Lang re_activation) activation_errors activation_errors_empty 0
                    p.activation)
                  (both g (h ++ (i ++ j)) (contributes_errors_empty p.contributes) (
                    both h (i ++ j) (permissions_errors_empty p.permissions) (
                      both i j
                        (checked_empty (checks_host p) (validate_host_v1 quoted allowed p.host)
                          (validate_host_v1-IsSidecar quoted allowed p.host))
                        (
                          λ x. fields_ok.0 (schema_ok.0 x),
                          λ x. schema_ok.1 (fields_ok.1 x),
                        ))))))))) in
    (
      λ x.
          let (a, (b, (c, (d, (e, (f, (g, (h, (i, j))))))))) = parts.0 x in
          record {
            name = a;
            publisher = b;
            version = c;
            engines = d;
            form = e;
            activation = f;
            contributes = g;
            permissions = h;
            host = i;
            config_schema = j;
          },
      λ x. parts.1 (
        x.name,
        (
          x.publisher,
          (
            x.version,
            (
              x.engines,
              (x.form, (x.activation, (x.contributes, (x.permissions, (x.host, x.config_schema))))),
            ),
          ),
        ),
      ),
    )

-- A legacy manifest, one without a publisher or without engines.opendray, has no errors. Any other has none
-- exactly when all of its fields are as the schema asks.
pub validate_v1-IsManifest :
    (quoted : Bytes → Bytes) (allowed : Bool) (p : Provider)
    → (validate_v1 quoted allowed p ≡ []) ↔ (is_v1 p ≡ true → IsManifest allowed p)
unfolding validate_v1
validate_v1-IsManifest quoted allowed p = elim (Bool-cases (is_v1 p)) [
  | inl v1 ↦
      let r = rule_errors-IsManifest quoted allowed p in
      (λ h x. r.0 (rw v1 at h), λ h. rw v1 (r.1 (h v1)))
  | inr legacy ↦ (λ h x. absurd (cc (legacy, x)), λ h. rw legacy refl)
]
