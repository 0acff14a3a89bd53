-- ===== src/Plugin/Install/Stage/Staged.antt =====
-- plugin/install/install.go, Stage: what a staged install is.
use opendray_v2_lab.Common.Dict.{lookup}
use opendray_v2_lab.Common.{
  ◌≡◌, inl, inr, refl, ap, ◌∙◌, subst, Bool, true, not, ◌&&◌, List, [], ◌∷◌, ◌++◌, Option, none,
  some, Bytes, bytes_eq, codes, Bool-cases, pick,
}
use opendray_v2_lab.Go.Path.{slash, is_abs, IsPlainPart, clean, or_root}
use opendray_v2_lab.Go.Path.Join.{join}
use opendray_v2_lab.Plugin.Install.{PendingInstall, put, Bundle, Installer, rename}
use opendray_v2_lab.Plugin.Manifest.{PermissionsV1, Provider, is_v1}
use opendray_v2_lab.Plugin.Manifest.Component.{join-validated}
use opendray_v2_lab.Plugin.Manifest.Errors.{ValidationError}
use opendray_v2_lab.Plugin.Manifest.Grammar.{validate_name, validate_semver}
use opendray_v2_lab.Plugin.Manifest.Labels.{validate_name-IsLabel}
use opendray_v2_lab.Plugin.Manifest.Strict.{validate_v1_strict}
use opendray_v2_lab.Plugin.Manifest.Whole.{validate_semver_iff}
use opendray_v2_lab.Plugin.Manifest.Known.{validate_v1_strict-KnowsAll}
use opendray_v2_lab.Plugin.Install.Stage.{
  load_manifest_with_raw, Source, StageResult, staged, rejected, StageAnswers, Library, granted,
  pending_of, copied, moved, with_parent, with_hash, with_errors, with_manifest, with_fetched,
  stage,
}

module _ {R : Type 0} (lib : Library) (host_form_allowed allow_local : Bool) (src : Source)
    (a : StageAnswers) (i : Installer PermissionsV1 R) where
  -- The manifest that stands behind a pending install.
  pub record Staging (pend : PendingInstall PermissionsV1) : Type 0 where
    pub path : Bytes
    pub manifest : Provider
    pub raw : Bytes
    pub fetched : src.fetched ≡ some path
    pub loaded : load_manifest_with_raw lib.unmarshal (lookup path i.bundles) ≡ some (manifest, raw)
    pub v1 : is_v1 manifest ≡ true
    pub accepted : validate_v1_strict lib.quoted lib.to_object host_form_allowed manifest raw ≡ []
    pub named : pend.name ≡ manifest.name
    pub versioned : pend.version ≡ manifest.version
    pub perms : pend.perms ≡ granted manifest.permissions

  abbrev pub Kept : Installer PermissionsV1 R → Type 0
  Kept i' =
      (i'.db ≡ i.db)
      × (i'.runtime ≡ i.runtime)
      × (i'.changes ≡ i.changes)
      × (i'.data_dir ≡ i.data_dir)

  abbrev pub Outcome : StageResult → Installer PermissionsV1 R → Type 0
  Outcome (rejected e) i' = (i'.pending ≡ i.pending) × (i'.audit ≡ i.audit) × Kept i'
  Outcome (staged pend) i' =
      Staging pend
      × (i'.pending ≡ put pend i.pending)
      × (i'.audit
          ≡ i.audit
            ++ record {
              plugin_name = pend.name;
              method = codes "stage";
              args = lib.short_hash src.describe;
            }
              ∷ [])
      × Kept i'

  abbrev To : StageResult × Installer PermissionsV1 R → Type 0
  To r = Outcome r.0 r.1

  module _ (p : Provider) (raw path : Bytes) (f : src.fetched ≡ some path)
      (l : load_manifest_with_raw lib.unmarshal (lookup path i.bundles) ≡ some (p, raw))
      (v : is_v1 p ≡ true)
      (ok : validate_v1_strict lib.quoted lib.to_object host_form_allowed p raw ≡ []) where
    staging : (hash dst : Bytes) → Staging (pending_of a p hash dst)
    staging hash dst = record {
      path = path;
      manifest = p;
      raw = raw;
      fetched = f;
      loaded = l;
      v1 = v;
      accepted = ok;
      named = refl;
      versioned = refl;
      perms = refl;
    }

    copied-Outcome :
        (hash parent dst : Bytes) (b : Option Bundle)
        → To (copied lib host_form_allowed allow_local src a p hash path parent dst b i)
    copied-Outcome hash parent dst none = (refl, refl, (refl, refl, refl, refl))
    copied-Outcome hash parent dst (some bundle) =
        pick To a.copy_fetched _ _ (λ _. (staging hash dst, refl, refl, (refl, refl, refl, refl)))
          (λ _. (refl, refl, (refl, refl, refl, refl)))

    moved-Outcome :
        (hash parent dst : Bytes) (b : Option (List (Bytes × Bundle)))
        → To (moved lib host_form_allowed allow_local src a p hash path parent dst b i)
    moved-Outcome hash parent dst none = copied-Outcome hash parent dst (lookup path i.bundles)
    moved-Outcome hash parent dst (some bundles) =
        (staging hash dst, refl, refl, (refl, refl, refl, refl))

    with_parent-Outcome :
        (hash : Bytes) (o : Option Bytes)
        → To (with_parent lib host_form_allowed allow_local src a p hash path o i)
    with_parent-Outcome hash none = (refl, refl, (refl, refl, refl, refl))
    with_parent-Outcome hash (some parent) =
        let dst = lib.join (parent ∷ codes "bundle" ∷ []) in
        moved-Outcome hash parent dst (rename a.move_fetched path dst i.bundles)

    with_hash-Outcome :
        (o : Option Bytes) → To (with_hash lib host_form_allowed allow_local src a p path o i)
    with_hash-Outcome none = (refl, refl, (refl, refl, refl, refl))
    with_hash-Outcome (some hash) =
        pick To (not a.make_data_dir) _ _ (λ _. (refl, refl, (refl, refl, refl, refl)))
          (λ _. with_parent-Outcome hash a.staging_parent)

  with_errors-Outcome :
      (p : Provider) (raw path : Bytes)
      → src.fetched ≡ some path
      → load_manifest_with_raw lib.unmarshal (lookup path i.bundles) ≡ some (p, raw)
      → is_v1 p ≡ true
      → (errs : List ValidationError)
      → validate_v1_strict lib.quoted lib.to_object host_form_allowed p raw ≡ errs
      → To (with_errors lib host_form_allowed allow_local src a p path errs i)
  with_errors-Outcome p raw path f l v (e ∷ errs) x = (refl, refl, (refl, refl, refl, refl))
  with_errors-Outcome p raw path f l v [] x = with_hash-Outcome p raw path f l v x (lib.hash p)

  with_manifest-Outcome :
      (path : Bytes) (o : Option (Provider × Bytes))
      → src.fetched ≡ some path
      → load_manifest_with_raw lib.unmarshal (lookup path i.bundles) ≡ o
      → To (with_manifest lib host_form_allowed allow_local src a path o i)
  with_manifest-Outcome path none f l = (refl, refl, (refl, refl, refl, refl))
  with_manifest-Outcome path (some (p, raw)) f l = elim (Bool-cases (is_v1 p)) [
    | inl v1 ↦ rw v1 (
        with_errors-Outcome p raw path f l v1
          (validate_v1_strict lib.quoted lib.to_object host_form_allowed p raw) refl)
    | inr legacy ↦ rw legacy (refl, refl, (refl, refl, refl, refl))
  ]

  with_fetched-Outcome :
      (o : Option Bytes)
      → src.fetched ≡ o
      → To (with_fetched lib host_form_allowed allow_local src a o i)
  with_fetched-Outcome none f = (refl, refl, (refl, refl, refl, refl))
  with_fetched-Outcome (some path) f =
      with_manifest-Outcome path (load_manifest_with_raw lib.unmarshal (lookup path i.bundles)) f
        refl

  pub stage-Outcome :
      Outcome
        (stage lib host_form_allowed allow_local src a i).0
        (stage lib host_form_allowed allow_local src a i).1
  unfolding stage
  stage-Outcome =
      pick To (not a.context_alive) _ _ (λ _. (refl, refl, (refl, refl, refl, refl)))
        (λ _.
          pick To (src.is_local && not allow_local) _ _
            (λ _. (refl, refl, (refl, refl, refl, refl)))
            (λ _. with_fetched-Outcome src.fetched refl))

  -- A staged install has its place in the data directory, when that is absolute: the name and the version are one
  -- component each, which holds no slash and is not empty, `.` or `..`, and as they are written they are the last
  -- two components of the path to which Confirm moves it.
  pub stage_place :
      (pend : PendingInstall PermissionsV1)
      → (stage lib host_form_allowed allow_local src a i).0 ≡ staged pend
      → is_abs i.data_dir ≡ true
      → IsPlainPart pend.name
        × IsPlainPart pend.version
        × (base : Bytes) × (clean i.data_dir ≡ or_root base)
        × (join (i.data_dir ∷ pend.name ∷ pend.version ∷ [])
            ≡ base ++ slash ∷ (pend.name ++ slash ∷ pend.version))
  stage_place pend e full =
      let (s, _, _, _) =
        subst (λ r. Outcome r (stage lib host_form_allowed allow_local src a i).1) e
          stage-Outcome in
      let (ok, _) =
        (validate_v1_strict-KnowsAll lib.quoted lib.to_object host_form_allowed s.manifest s.raw
            s.v1).0
          s.accepted in
      join-validated i.data_dir pend.name pend.version full
        (ap validate_name s.named ∙ (validate_name-IsLabel s.manifest.name).0.1 ok.name)
        (ap validate_semver s.versioned ∙ (validate_semver_iff s.manifest.version).1 ok.version)
