-- ===== src/Plugin/Install/Completes.antt =====
-- plugin/install/install.go: Confirm succeeds when nothing outside the program fails.
use opendray_v2_lab.Common.{◌≡◌, true, bytes_eq}
use opendray_v2_lab.Plugin.Install.{Installer, Answers, Confirmed, confirmed}

-- Every step of the database and of the file system works.
abbrev pub AllWork : Answers → Type 0
AllWork a =
    (a.begin ≡ true)
    × (a.clear_tombstone ≡ true)
    × (a.upsert_plugin ≡ true)
    × (a.upsert_consent ≡ true)
    × (a.make_parent ≡ true)
    × (a.stat ≡ true)
    × (a.make_trash ≡ true)
    × (a.move_to_trash ≡ true)
    × (a.move_staged ≡ true)
    × (a.commit ≡ true)

abbrev Succeeds : {P : Type 0} {R : Type 0} → Installer P R × Confirmed → Type 0
Succeeds (j, r) = r ≡ confirmed
