-- ===== src/Plugin/Install/Tests.antt =====
-- Runs of plugin/install, and instances of what is proved about it.
use opendray_v2_lab.Common.Dict.{lookup, insert, delete}
use opendray_v2_lab.Common.{
  ℕ, ◌+◌, ◌≡◌, ◌≢◌, ◌⊎◌, refl, ap, true, false, List, [], ◌∷◌, ◌++◌, Option, none, some, Bytes,
  bytes_eq, codes, arith, length,
}
use opendray_v2_lab.Go.Decimal.{format_nat, digits}
use opendray_v2_lab.Plugin.Install.{
  PendingInstall, put, take, reap, peek_name, Bundle, Runtime, Installer, Answers, move_final,
  commit_tx, token_not_found, failed, rename, remove_all,
}
use opendray_v2_lab.Plugin.Install.Confirm.{final_dir, trash_path, confirm}
use opendray_v2_lab.Plugin.Install.Uninstall.{uninstall, tick}
use opendray_v2_lab.Plugin.Install.Whole.{confirm-failed}

abbrev Perms : Type 0
Perms = Bytes

abbrev join : List Bytes → Bytes
join [] = []
join (part ∷ []) = part
join (part ∷ next ∷ parts) = part ++ (codes "/" ++ join (next ∷ parts))

abbrev marshal : Perms → Option Bytes
marshal p = some p

-- A runtime that counts what it is told.
abbrev counting : Runtime ℕ
counting = record {
  register = λ b n. n + 1;
  row = λ b.
      some (codes "clock", record { version = codes "1"; manifest = codes "{}"; enabled = true });
  remove = λ name n. n + 1;
}

abbrev pend : PendingInstall Perms
pend = record {
  token = codes "t";
  name = codes "clock";
  version = codes "1";
  manifest_hash = codes "h";
  perms = codes "p";
  staged_path = codes "d/staging-1/bundle";
  expires_at = 10;
}

abbrev staged : Bundle
staged = record { manifest_json = some (codes "m"); files = codes "new" }

abbrev old : Bundle
old = record { manifest_json = some (codes "m"); files = codes "old" }

abbrev installer : Installer Perms ℕ
installer = record {
  data_dir = codes "d";
  pending = (codes "t", pend) ∷ [];
  db = record { plugins = []; consents = []; tombstones = codes "clock" ∷ [] };
  bundles = (codes "d/staging-1/bundle", staged) ∷ (codes "d/clock/1", old) ∷ [];
  runtime = 0;
  audit = [];
  changes = 0;
}

abbrev all_work : Answers
all_work = record {
  begin = true;
  clear_tombstone = true;
  upsert_plugin = true;
  upsert_consent = true;
  make_parent = true;
  stat = true;
  make_trash = true;
  move_to_trash = true;
  move_staged = true;
  commit = true;
  move_back = true;
  stamp = 7;
}

abbrev move_fails : Answers
move_fails = record all_work { move_staged = false }

abbrev commit_fails : Answers
commit_fails = record all_work { commit = false }

unfoldable after : Answers → Installer Perms ℕ
unfolding confirm
after a = (confirm counting join marshal a 5 (codes "t") installer).0

-- The final directory held an installed version. The move of the new one fails: the old one stays in the
-- trash, while the database still names it.
trash_test :
    (confirm counting join marshal move_fails 5 (codes "t") installer).1 ≡ failed move_final
trash_test = unfold confirm take rename format_nat digits lookup insert delete in refl

trashed_test : lookup (codes "d/clock/1") (after move_fails).bundles ≡ none
unfolding after confirm take put rename format_nat digits lookup insert delete
trashed_test = refl

commit_test :
    confirm counting join marshal commit_fails 5 (codes "t") installer
    ≡ (after commit_fails, failed commit_tx)
unfolding after confirm take put rename format_nat digits lookup insert delete
commit_test = refl

late_test : (confirm counting join marshal all_work 11 (codes "t") installer).1 ≡ token_not_found
unfolding confirm take lookup delete
late_test = refl

peek_test : peek_name 10 (codes "t") installer.pending ≡ some (codes "clock")
unfolding peek_name lookup
peek_test = refl

-- A late token that someone tries goes from the store with no path to clean; untried, the janitor cleans it.
late_kept_test : reap 12 (take 11 (codes "t") installer.pending).1 ≡ ([], [])
unfolding reap take delete
late_kept_test = refl

reaped_test :
    (tick (λ path. codes "d/staging-1") 12 installer).bundles ≡ (codes "d/clock/1", old) ∷ []
unfolding tick reap remove_all
reaped_test = refl

uninstall_test :
    (uninstall counting join
      (record {
        delete_consent = true;
        delete_plugin = true;
        add_tombstone = true;
        remove_dir = true;
      })
      (codes "clock")
      installer).0.bundles
    ≡ (codes "d/staging-1/bundle", staged) ∷ []
unfolding uninstall remove_all
uninstall_test = refl

held : lookup (codes "t") installer.pending ≡ some pend
unfolding lookup
held = refl

apart_final : pend.staged_path ≢ final_dir counting join marshal installer pend
apart_final e = absurd (ground (arith, ap length e))

apart_trash : trash_path counting join marshal 7 installer pend ≢ pend.staged_path
unfolding format_nat digits
apart_trash e = absurd (ground (arith, ap length e))

confirm-failed_example :
    let j = after commit_fails in
    (j.db ≡ installer.db)
    × (j.runtime ≡ installer.runtime)
    × (j.audit ≡ installer.audit)
    × (j.changes ≡ installer.changes)
    × ((token : Bytes) → lookup token j.pending ≡ lookup token installer.pending)
    × ((lookup pend.staged_path j.bundles ≡ lookup pend.staged_path installer.bundles)
        ⊎ ((commit_tx ≡ commit_tx) × (commit_fails.move_back ≡ false)))
confirm-failed_example =
    confirm-failed counting join marshal commit_fails 5 installer (after commit_fails) pend
      commit_tx held apart_final apart_trash commit_test
