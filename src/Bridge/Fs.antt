-- ===== src/Bridge/Fs.antt =====
-- plugin/bridge/capabilities.go, MatchFSPath and matchFSPattern: paths against the granted patterns.
pub mod Confined
use opendray_v2_lab.Go.Strings.{has_suffix}
use opendray_v2_lab.Go.Glob.{path_match}
use opendray_v2_lab.Go.Path.{is_abs, clean}
use opendray_v2_lab.Common.{
  ℕ, ◌-◌, ◌≡◌, Bool, true, false, not, List, [], ◌∷◌, ◌++◌, Bytes, codes, if◌then◌else◌, any,
  length, take, has_prefix,
}

abbrev pub descendants : Bytes
descendants = codes "/**"

unfoldable pub match_fs_pattern : Bytes → Bytes → Bool
match_fs_pattern pattern abs_path =
    if has_suffix pattern descendants
    then has_prefix abs_path (take (length pattern - 3) pattern ++ codes "/")
    else path_match pattern abs_path

unfoldable pub match_fs_path : List Bytes → Bytes → Bool
unfolding match_fs_pattern
match_fs_path [] abs_path = false
match_fs_path (g ∷ granted) [] = false
match_fs_path (g ∷ granted) (c ∷ rest) =
    let cleaned = clean (c ∷ rest) in
    if not (is_abs (c ∷ rest))
    then false
    else if not (is_abs cleaned)
    then false
    else any (λ pattern. match_fs_pattern pattern cleaned) (g ∷ granted)
