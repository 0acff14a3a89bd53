-- ===== src/Plugin/Install/Uninstall.antt =====
-- plugin/install/install.go: Uninstall, and one round of the janitor. Cleaning up after it always works.
use opendray_v2_lab.Common.Dict.{delete}
use opendray_v2_lab.Common.{
  ℕ, ◌+◌, Bool, not, List, [], ◌∷◌, ◌++◌, Option, none, some, Bytes, bytes_eq, codes, ◌==◌, keep,
  if◌then◌else◌,
}
use opendray_v2_lab.Plugin.Install.{reap, Bundle, Runtime, Installer, remove_all}

-- Whether the steps of one call of Uninstall work.
pub record UninstallAnswers : Type 0 where
  pub delete_consent : Bool
  pub delete_plugin : Bool
  pub add_tombstone : Bool
  pub remove_dir : Bool

pub data UninstallStep : Type 0 where
  delete_consent_row delete_plugin_row add_plugin_tombstone remove_plugin_dir : UninstallStep

module _ {P : Type 0} {R : Type 0} (rt : Runtime R) (join : List Bytes → Bytes) where
  abbrev without_consent : Bytes → Installer P R → Installer P R
  without_consent name i = record i { db = record i.db { consents = delete name i.db.consents } }

  -- The foreign key of plugin_consents cascades.
  abbrev without_plugin : Bytes → Installer P R → Installer P R
  without_plugin name i = record i {
    db = record i.db { plugins = delete name i.db.plugins; consents = delete name i.db.consents };
  }

  abbrev with_tombstone : Bytes → Installer P R → Installer P R
  with_tombstone name i = record i {
    db = record i.db { tombstones = name ∷ keep (λ other. not (other == name)) i.db.tombstones };
  }

  abbrev removed : Bytes → Installer P R → Installer P R
  removed name i = record i {
    bundles = remove_all (join (i.data_dir ∷ name ∷ [])) i.bundles;
    audit = i.audit ++ record { plugin_name = name; method = codes "uninstall"; args = name } ∷ [];
    changes = i.changes + 1;
  }

  unfoldable pub uninstall :
      UninstallAnswers → Bytes → Installer P R → Installer P R × Option UninstallStep
  unfolding remove_all
  uninstall a name i =
      let i1 = record i { runtime = rt.remove name i.runtime } in
      let i2 = without_consent name i1 in
      let i3 = without_plugin name i2 in
      let i4 = with_tombstone name i3 in
      if not a.delete_consent
      then (i1, some delete_consent_row)
      else if not a.delete_plugin
      then (i2, some delete_plugin_row)
      else if not a.add_tombstone
      then (i3, some add_plugin_tombstone)
      else if not a.remove_dir
      then (i4, some remove_plugin_dir)
      else (removed name i4, none)

abbrev clean_all : (Bytes → Bytes) → List Bytes → List (Bytes × Bundle) → List (Bytes × Bundle)
clean_all dir [] bundles = bundles
clean_all dir (path ∷ paths) bundles = clean_all dir paths (remove_all (dir path) bundles)

-- One tick of the janitor; `dir` is filepath.Dir.
unfoldable pub tick :
    {P : Type 0} {R : Type 0} → (Bytes → Bytes) → ℕ → Installer P R → Installer P R
unfolding reap remove_all
tick dir now i =
    let (to_clean, left) = reap now i.pending in
    record i { pending = left; bundles = clean_all dir to_clean i.bundles }
