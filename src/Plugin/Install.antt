-- ===== src/Plugin/Install.antt =====
-- plugin/install: installs that wait for the user's consent (consent.go), and Confirm, Uninstall,
-- PeekName and the janitor of install.go. The database and the file system keep what they hold in the
-- state; whether a step of theirs works is an input, as are the clock and json.Marshal. The runtime is
-- an interface, and its state is a part of the installer's. Fields that only other processes read, such as
-- updated_at, are left out.
pub mod Confirm
pub mod Uninstall
pub mod Pending
mod Outcome
pub mod Whole
pub mod Completes
pub mod Stage
mod Tests
use opendray_v2_lab.Common.Dict.{lookup, insert, delete}
use opendray_v2_lab.Common.{
  ℕ, ◌+◌, Bool, true, false, not, ◌||◌, List, [], ◌∷◌, ◌++◌, Option, none, some, Bytes, bytes_eq,
  codes, ◌==◌, has_prefix, keep, ltb, if◌then◌else◌,
}
use opendray_v2_lab.Go.Decimal.{format_nat}

pub record PendingInstall (P : Type 0) : Type 0 where
  pub token : Bytes
  pub name : Bytes
  pub version : Bytes
  pub manifest_hash : Bytes
  pub perms : P
  pub staged_path : Bytes
  pub expires_at : ℕ

-- byToken
abbrev pub PendingStore : Type 0 → Type 0
PendingStore P = List (Bytes × PendingInstall P)

unfoldable pub put : {P : Type 0} → PendingInstall P → PendingStore P → PendingStore P
put p s = insert p.token p s

abbrev pub alive : {P : Type 0} → ℕ → Option (PendingInstall P) → Option (PendingInstall P)
alive now none = none
alive now (some p) = if ltb p.expires_at now then none else some p

unfoldable pub take :
    {P : Type 0} → ℕ → Bytes → PendingStore P → Option (PendingInstall P) × PendingStore P
take now token s = (alive now (lookup token s), delete token s)

-- What is left, and the staged paths of what is not.
unfoldable pub reap : {P : Type 0} → ℕ → PendingStore P → List Bytes × PendingStore P
reap now [] = ([], [])
reap now ((token, p) ∷ s) =
    let (to_clean, rest) = reap now s in
    if ltb p.expires_at now then (p.staged_path ∷ to_clean, rest) else (to_clean, (token, p) ∷ rest)

unfoldable pub peek_name : {P : Type 0} → ℕ → Bytes → PendingStore P → Option Bytes
peek_name now token s = elim (alive now (lookup token s)) [ none ↦ none | some p ↦ some p.name ]

-- A directory of a plugin: its manifest.json, when that can be read, and all else.
pub record Bundle : Type 0 where
  pub manifest_json : Option Bytes
  pub files : Bytes

pub record PluginRow : Type 0 where
  pub version : Bytes
  pub manifest : Bytes
  pub enabled : Bool

pub record ConsentRow : Type 0 where
  pub manifest_hash : Bytes
  pub perms_json : Bytes

pub record Db : Type 0 where
  pub plugins : List (Bytes × PluginRow)
  pub consents : List (Bytes × ConsentRow)
  pub tombstones : List Bytes

pub record AuditEntry : Type 0 where
  pub plugin_name : Bytes
  pub method : Bytes
  pub args : Bytes

-- What plugin.Runtime offers: LoadManifest and Register of the bundle that stands in a directory, and Remove of a
-- name. `row` is what Register writes again into the table of plugins, with the name that it stands under: none
-- when the manifest is not loaded or not marshalled, or when the database fails. Those errors are logged only.
pub record Runtime (R : Type 0) : Type 0 where
  pub register : Option Bundle → R → R
  pub row : Option Bundle → Option (Bytes × PluginRow)
  pub remove : Bytes → R → R

-- `changes` counts the calls of OnContributionsChanged.
pub record Installer (P : Type 0) (R : Type 0) : Type 0 where
  pub data_dir : Bytes
  pub pending : PendingStore P
  pub db : Db
  pub bundles : List (Bytes × Bundle)
  pub runtime : R
  pub audit : List AuditEntry
  pub changes : ℕ

-- Whether each step outside the program works in one call of Confirm, and the time stamp it takes.
pub record Answers : Type 0 where
  pub begin : Bool
  pub clear_tombstone : Bool
  pub upsert_plugin : Bool
  pub upsert_consent : Bool
  pub make_parent : Bool
  pub stat : Bool
  pub make_trash : Bool
  pub move_to_trash : Bool
  pub move_staged : Bool
  pub commit : Bool
  pub move_back : Bool
  pub stamp : ℕ

pub data Step : Type 0 where
  read_manifest marshal_perms begin_tx clear_tombstone_row upsert_plugin_row upsert_consent_row :
      Step
  make_final_parent make_trash_dir trash_final move_final commit_tx : Step

pub data Confirmed : Type 0 where
  confirmed token_not_found : Confirmed
  failed : Step → Confirmed

abbrev pub manifest_of : Option Bundle → Option Bytes
manifest_of none = none
manifest_of (some bundle) = bundle.manifest_json

-- os.Rename of a directory: it fails where there is a directory that is not empty, and all those that `bundles`
-- lists are not.
unfoldable pub rename :
    Bool → Bytes → Bytes → List (Bytes × Bundle) → Option (List (Bytes × Bundle))
rename works src dst bundles = elim (lookup src bundles) [
  | none ↦ none
  | some bundle ↦ elim (lookup dst bundles) [
    | none ↦ if works then some (insert dst bundle (delete src bundles)) else none
    | some there ↦ none
  ]
]

-- os.RemoveAll of a directory
unfoldable pub remove_all : Bytes → List (Bytes × Bundle) → List (Bytes × Bundle)
remove_all dir [] = []
remove_all dir ((path, bundle) ∷ rest) =
    if (path == dir) || has_prefix path (dir ++ codes "/")
    then remove_all dir rest
    else (path, bundle) ∷ remove_all dir rest
