-- ===== src/Plugin/Install/Confirm.antt =====
-- plugin/install/install.go: Confirm. A commit that reports an error has written nothing.
use opendray_v2_lab.Common.Dict.{lookup, insert}
use opendray_v2_lab.Common.{
  ℕ, ◌+◌, true, not, List, [], ◌∷◌, ◌++◌, Option, none, some, Bytes, bytes_eq, codes, ◌==◌, keep,
  if◌then◌else◌, take as take_bytes,
}
use opendray_v2_lab.Go.Decimal.{format_nat}
use opendray_v2_lab.Plugin.Install.{
  PendingInstall, put, take, Bundle, Db, PluginRow, Runtime, Installer, Answers, Step,
  read_manifest, marshal_perms, begin_tx, clear_tombstone_row, upsert_plugin_row,
  upsert_consent_row, make_final_parent, make_trash_dir, trash_final, move_final, commit_tx,
  Confirmed, confirmed, token_not_found, failed, manifest_of, rename,
}

-- The rows that the transaction writes.
abbrev pub with_rows : {P : Type 0} → PendingInstall P → Bytes → Bytes → Db → Db
with_rows pend manifest perms_json db = record {
  tombstones = keep (λ name. not (name == pend.name)) db.tombstones;
  plugins =
      insert pend.name (record { version = pend.version; manifest = manifest; enabled = true })
        db.plugins;
  consents =
      insert pend.name (record { manifest_hash = pend.manifest_hash; perms_json = perms_json })
        db.consents;
}

module _ {P : Type 0} {R : Type 0} (rt : Runtime R) (join : List Bytes → Bytes)
    (marshal : P → Option Bytes) where
  abbrev pub final_dir : Installer P R → PendingInstall P → Bytes
  final_dir i pend = join (i.data_dir ∷ pend.name ∷ pend.version ∷ [])

  abbrev pub trash_path : ℕ → Installer P R → PendingInstall P → Bytes
  trash_path stamp i pend = join (
      join (i.data_dir ∷ codes ".trash" ∷ [])
      ∷ (pend.name ++ (codes "-" ++ (pend.version ++ (codes "-" ++ format_nat stamp))))
      ∷ [])

  -- A failure: the pending install is put back.
  abbrev pub retry : PendingInstall P → Step → Installer P R → Installer P R × Confirmed
  retry pend why i = (record i { pending = put pend i.pending }, failed why)

  abbrev pub upsert_row :
      Option (Bytes × PluginRow) → List (Bytes × PluginRow) → List (Bytes × PluginRow)
  upsert_row none rows = rows
  upsert_row (some (name, row)) rows = insert name row rows

  -- What Register does to the database.
  abbrev pub registered_rows : Option Bundle → Db → Db
  registered_rows bundle db = record db { plugins = upsert_row (rt.row bundle) db.plugins }

  abbrev pub finish : PendingInstall P → Db → Installer P R → Installer P R × Confirmed
  finish pend db i = (
    record i {
      db = registered_rows (lookup (final_dir i pend) i.bundles) db;
      runtime = rt.register (lookup (final_dir i pend) i.bundles) i.runtime;
      audit =
          i.audit
          ++ record {
            plugin_name = pend.name;
            method = codes "confirm";
            args = take_bytes 16 pend.token;
          }
            ∷ [];
      changes = i.changes + 1;
    },
    confirmed,
  )

  abbrev pub moved_back :
      Answers → PendingInstall P → Installer P R → Option (List (Bytes × Bundle)) → Installer P R
  moved_back a pend i none = i
  moved_back a pend i (some bundles) = record i { bundles = bundles }

  abbrev pub commit_moved :
      Answers → PendingInstall P → Db → Installer P R → Installer P R × Confirmed
  commit_moved a pend db i =
      if a.commit
      then finish pend db i
      else retry pend commit_tx
          (moved_back a pend i (rename a.move_back (final_dir i pend) pend.staged_path i.bundles))

  abbrev pub after_move :
      Answers
      → PendingInstall P
      → Db
      → Installer P R
      → Option (List (Bytes × Bundle))
      → Installer P R × Confirmed
  after_move a pend db i none = retry pend move_final i
  after_move a pend db i (some bundles) = commit_moved a pend db (record i { bundles = bundles })

  abbrev pub move_bundle :
      Answers → PendingInstall P → Db → Installer P R → Installer P R × Confirmed
  move_bundle a pend db i =
      after_move a pend db i (rename a.move_staged pend.staged_path (final_dir i pend) i.bundles)

  abbrev pub after_trash :
      Answers
      → PendingInstall P
      → Db
      → Installer P R
      → Option (List (Bytes × Bundle))
      → Installer P R × Confirmed
  after_trash a pend db i none = retry pend trash_final i
  after_trash a pend db i (some bundles) = move_bundle a pend db (record i { bundles = bundles })

  -- What stands in the final directory goes to the trash.
  abbrev pub clear_final :
      Answers → PendingInstall P → Db → Installer P R → Option Bundle → Installer P R × Confirmed
  clear_final a pend db i none = move_bundle a pend db i
  clear_final a pend db i (some old) =
      if not a.stat
      then move_bundle a pend db i
      else if not a.make_trash
      then retry pend make_trash_dir i
      else after_trash a pend db i
          (rename a.move_to_trash (final_dir i pend) (trash_path a.stamp i pend) i.bundles)

  abbrev pub in_tx : Answers → PendingInstall P → Db → Installer P R → Installer P R × Confirmed
  in_tx a pend db i =
      if not a.begin
      then retry pend begin_tx i
      else if not a.clear_tombstone
      then retry pend clear_tombstone_row i
      else if not a.upsert_plugin
      then retry pend upsert_plugin_row i
      else if not a.upsert_consent
      then retry pend upsert_consent_row i
      else if not a.make_parent
      then retry pend make_final_parent i
      else clear_final a pend db i (lookup (final_dir i pend) i.bundles)

  abbrev pub with_perms :
      Answers → PendingInstall P → Installer P R → Bytes → Option Bytes → Installer P R × Confirmed
  with_perms a pend i manifest none = retry pend marshal_perms i
  with_perms a pend i manifest (some perms_json) =
      in_tx a pend (with_rows pend manifest perms_json i.db) i

  abbrev pub with_manifest :
      Answers → PendingInstall P → Installer P R → Option Bytes → Installer P R × Confirmed
  with_manifest a pend i none = retry pend read_manifest i
  with_manifest a pend i (some manifest) = with_perms a pend i manifest (marshal pend.perms)

  abbrev pub taken : Answers → Installer P R → Option (PendingInstall P) → Installer P R × Confirmed
  taken a i none = (i, token_not_found)
  taken a i (some pend) = with_manifest a pend i (manifest_of (lookup pend.staged_path i.bundles))

  unfoldable pub confirm : Answers → ℕ → Bytes → Installer P R → Installer P R × Confirmed
  unfolding take put rename
  confirm a now token i =
      let (found, left) = take now token i.pending in taken a (record i { pending = left }) found
