-- ===== src/Plugin/Install/Stage.antt =====
-- plugin/install/install.go, Stage, and plugin/manifest.go, LoadManifestWithRaw. The source's fetch, the file
-- system's answers, json.Unmarshal, the manifest's hash, the new token and the clock are arguments.
pub mod Staged
mod Tests
use opendray_v2_lab.Common.Dict.{lookup, insert}
use opendray_v2_lab.Common.{
  ℕ, ◌+◌, Bool, true, false, not, ◌&&◌, List, [], ◌∷◌, ◌++◌, Option, none, some, Bytes, bytes_eq,
  codes, if◌then◌else◌,
}
use opendray_v2_lab.Plugin.Contributions.{is_empty}
use opendray_v2_lab.Plugin.Install.{
  PendingInstall, put, Bundle, AuditEntry, Installer, manifest_of, rename, remove_all,
}
use opendray_v2_lab.Plugin.Manifest.{PermissionsV1, Provider, is_v1}
use opendray_v2_lab.Plugin.Manifest.Errors.{ValidationError}
use opendray_v2_lab.Plugin.Manifest.Strict.{validate_v1_strict}

-- A named provider has a display name.
abbrev pub with_display_name : Provider → Provider
with_display_name p = if is_empty p.display_name then record p { display_name = p.name } else p

abbrev pub named_manifest : Bytes → Option Provider → Option (Provider × Bytes)
named_manifest raw none = none
named_manifest raw (some p) = if is_empty p.name then none else some (with_display_name p, raw)

abbrev pub parse_manifest : (Bytes → Option Provider) → Option Bytes → Option (Provider × Bytes)
parse_manifest unmarshal none = none
parse_manifest unmarshal (some raw) = named_manifest raw (unmarshal raw)

unfoldable pub load_manifest_with_raw :
    (Bytes → Option Provider) → Option Bundle → Option (Provider × Bytes)
load_manifest_with_raw unmarshal bundle = parse_manifest unmarshal (manifest_of bundle)

-- A source: what kind it is, how it describes itself, where it has put the bundle, and whether it hands out a
-- function that removes it there.
pub record Source : Type 0 where
  pub is_local : Bool
  pub describe : Bytes
  pub fetched : Option Bytes
  pub cleans : Bool

pub data StageError : Type 0 where
  context_done local_disabled fetch_failed load_failed not_v1 : StageError
  invalid : List ValidationError → StageError
  hash_failed data_dir_failed staging_failed bundle_failed : StageError

pub data StageResult : Type 0 where
  staged : PendingInstall PermissionsV1 → StageResult
  rejected : StageError → StageResult

-- What the outside answers in one call; the name of the staging directory is none when it cannot be made.
pub record StageAnswers : Type 0 where
  pub context_alive : Bool
  pub make_data_dir : Bool
  pub staging_parent : Option Bytes
  pub move_fetched : Bool
  pub copy_fetched : Bool
  pub token : Bytes
  pub now : ℕ
  pub ttl : ℕ

-- The library's functions.
pub record Library : Type 0 where
  pub unmarshal : Bytes → Option Provider
  pub to_object : Bytes → Option (List (Bytes × Bytes))
  pub quoted : Bytes → Bytes
  pub hash : Provider → Option Bytes
  pub short_hash : Bytes → Bytes
  pub join : List Bytes → Bytes

abbrev pub granted : Option PermissionsV1 → PermissionsV1
granted (some p) = p
granted none = record {
  fs = [];
  exec = [];
  http = [];
  session = [];
  storage = false;
  secret = false;
  clipboard = [];
  telegram = false;
  git = [];
  llm = false;
  events = [];
}

abbrev pub pending_of : StageAnswers → Provider → Bytes → Bytes → PendingInstall PermissionsV1
pending_of a p hash staged_path = record {
  token = a.token;
  name = p.name;
  version = p.version;
  manifest_hash = hash;
  perms = granted p.permissions;
  staged_path = staged_path;
  expires_at = a.now + a.ttl;
}

module _ {R : Type 0} (lib : Library) (host_form_allowed allow_local : Bool) (src : Source)
    (a : StageAnswers) where
  -- The deferred call, as long as the fetched directory is there.
  abbrev pub clean_up : Bytes → Installer PermissionsV1 R → Installer PermissionsV1 R
  clean_up path i = record i {
    bundles = if src.cleans then remove_all path i.bundles else i.bundles;
  }

  abbrev pub give_up :
      StageError → Bytes → Installer PermissionsV1 R → StageResult × Installer PermissionsV1 R
  give_up err path i = (rejected err, clean_up path i)

  -- Steps 5 and 6.
  abbrev pub registered :
      PendingInstall PermissionsV1
      → Installer PermissionsV1 R
      → StageResult × Installer PermissionsV1 R
  registered pend i = (
    staged pend,
    record i {
      pending = put pend i.pending;
      audit =
          i.audit
          ++ record {
            plugin_name = pend.name;
            method = codes "stage";
            args = lib.short_hash src.describe;
          }
            ∷ [];
    },
  )

  -- copyTree, when the directory could not be moved.
  abbrev pub copied :
      Provider
      → Bytes
      → Bytes
      → Bytes
      → Bytes
      → Option Bundle
      → Installer PermissionsV1 R
      → StageResult × Installer PermissionsV1 R
  copied p hash path parent dst none i =
      give_up bundle_failed path (record i { bundles = remove_all parent i.bundles })
  copied p hash path parent dst (some bundle) i =
      if a.copy_fetched
      then (let (result, i') =
            registered (pending_of a p hash dst)
              (record i { bundles = insert dst bundle i.bundles }) in
          (result, clean_up path i'))
      else give_up bundle_failed path (record i { bundles = remove_all parent i.bundles })

  abbrev pub moved :
      Provider
      → Bytes
      → Bytes
      → Bytes
      → Bytes
      → Option (List (Bytes × Bundle))
      → Installer PermissionsV1 R
      → StageResult × Installer PermissionsV1 R
  moved p hash path parent dst none i = copied p hash path parent dst (lookup path i.bundles) i
  moved p hash path parent dst (some bundles) i =
      registered (pending_of a p hash dst) (record i { bundles = bundles })

  abbrev pub with_parent :
      Provider
      → Bytes
      → Bytes
      → Option Bytes
      → Installer PermissionsV1 R
      → StageResult × Installer PermissionsV1 R
  with_parent p hash path none i = give_up staging_failed path i
  with_parent p hash path (some parent) i =
      let dst = lib.join (parent ∷ codes "bundle" ∷ []) in
      moved p hash path parent dst (rename a.move_fetched path dst i.bundles) i

  abbrev pub with_hash :
      Provider
      → Bytes
      → Option Bytes
      → Installer PermissionsV1 R
      → StageResult × Installer PermissionsV1 R
  with_hash p path none i = give_up hash_failed path i
  with_hash p path (some hash) i =
      if not a.make_data_dir
      then give_up data_dir_failed path i
      else with_parent p hash path a.staging_parent i

  abbrev pub with_errors :
      Provider
      → Bytes
      → List ValidationError
      → Installer PermissionsV1 R
      → StageResult × Installer PermissionsV1 R
  with_errors p path (e ∷ errs) i = give_up (invalid (e ∷ errs)) path i
  with_errors p path [] i = with_hash p path (lib.hash p) i

  abbrev pub with_manifest :
      Bytes
      → Option (Provider × Bytes)
      → Installer PermissionsV1 R
      → StageResult × Installer PermissionsV1 R
  with_manifest path none i = give_up load_failed path i
  with_manifest path (some (p, raw)) i =
      if not (is_v1 p)
      then give_up not_v1 path i
      else with_errors p path (validate_v1_strict lib.quoted lib.to_object host_form_allowed p raw)
          i

  abbrev pub with_fetched :
      Option Bytes → Installer PermissionsV1 R → StageResult × Installer PermissionsV1 R
  with_fetched none i = (rejected fetch_failed, i)
  with_fetched (some path) i =
      with_manifest path (load_manifest_with_raw lib.unmarshal (lookup path i.bundles)) i

  unfoldable pub stage : Installer PermissionsV1 R → StageResult × Installer PermissionsV1 R
  unfolding put rename remove_all lookup insert load_manifest_with_raw is_v1 validate_v1_strict
  stage i =
      if not a.context_alive
      then (rejected context_done, i)
      else if src.is_local && not allow_local
      then (rejected local_disabled, i)
      else with_fetched src.fetched i
