-- ===== src/Plugin/Revocation/Tests.antt =====
-- Runs of plugin/market/revocation, and an instance of what is proved about it.
use opendray_v2_lab.Common.Order.{pos, int_eq}
use opendray_v2_lab.Common.{
  ◌≡◌, refl, false, [], ◌∷◌, none, some, Bytes, bytes_eq, codes, ◌==◌, if◌then◌else◌,
}
use opendray_v2_lab.Go.Path.{components}
use opendray_v2_lab.Go.Strings.{is_space}
use opendray_v2_lab.Go.Trim.{trim_space, trim_left, trim_right}
use opendray_v2_lab.Plugin.Revocation.{
  Entry, InstalledPlugin, Semver, malformed, found, parse_entry_name, match_versions, match_entry,
  sweep_entry, sweep_entries, sweep, normalised_action,
}
use opendray_v2_lab.Plugin.Revocation.Sweep.{concerned, sweep_entries-concerned}

-- Versions in which only equality counts; a range `?` does not parse, nor does a version `dev`.
abbrev exact : Semver
exact = record {
  Range = Bytes;
  Version = Bytes;
  range = λ expr. if expr == codes "?" then none else some expr;
  version = λ v. if v == codes "dev" then none else some v;
  check = λ (r : Bytes) (v : Bytes). r == v;
}

abbrev revokes : Bytes → Bytes → Entry
revokes name versions = record {
  name = name;
  versions = versions;
  reason = [];
  recorded_at = [];
  action = codes "block";
}

abbrev clock : InstalledPlugin
clock = record { publisher = []; name = codes "clock"; version = codes "1" }

abbrev kanban : InstalledPlugin
kanban = record { publisher = codes "acme"; name = codes "kanban"; version = codes "dev" }

parse_test : parse_entry_name (codes " acme/kanban ") ≡ some (codes "acme", codes "kanban")
unfolding parse_entry_name trim_space trim_left trim_right is_space components
parse_test = refl

parse_slashes_test : parse_entry_name (codes "a/b/c") ≡ none
unfolding parse_entry_name trim_space trim_left trim_right is_space components
parse_slashes_test = refl

-- A range that does not parse shows only where the name fits.
match_test : match_entry exact (revokes (codes "clock") (codes "?")) clock ≡ malformed
unfolding match_entry parse_entry_name match_versions trim_space trim_left trim_right is_space
    components
match_test = refl

match_other_test : match_entry exact (revokes (codes "clock") (codes "?")) kanban ≡ found false
unfolding match_entry parse_entry_name match_versions trim_space trim_left trim_right is_space
    components
match_other_test = refl

sweep_test :
    sweep exact
      (λ b. some (record {
        version = pos 1;
        entries = revokes (codes "clock") (codes "1") ∷ revokes (codes "acme/kanban") [] ∷ [];
      }))
      (some (codes "{}"))
      (clock ∷ kanban ∷ [])
    ≡ (revokes (codes "clock") (codes "1"), clock) ∷ (revokes (codes "acme/kanban") [], kanban) ∷ []
unfolding sweep sweep_entries sweep_entry match_entry parse_entry_name match_versions trim_space
    trim_left trim_right is_space components
sweep_test = refl

action_test : normalised_action (revokes [] []) ≡ codes "warn"
unfolding normalised_action
action_test = refl

sweep_entries-concerned_example :
    sweep_entries exact
      (revokes (codes "clock") (codes "?") ∷ revokes (codes "clock") (codes "1") ∷ [])
      (kanban ∷ clock ∷ [])
    ≡ concerned exact
        (revokes (codes "clock") (codes "?") ∷ revokes (codes "clock") (codes "1") ∷ [])
        (kanban ∷ clock ∷ [])
sweep_entries-concerned_example =
    sweep_entries-concerned exact
      (revokes (codes "clock") (codes "?") ∷ revokes (codes "clock") (codes "1") ∷ [])
      (kanban ∷ clock ∷ [])
