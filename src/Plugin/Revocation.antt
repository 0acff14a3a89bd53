-- ===== src/Plugin/Revocation.antt =====
-- plugin/market/revocation: the list of revoked plugins, which entry of it concerns which installed plugin
-- (match.go), and one sweep of the poller (poller.go). The semver package, the decoder of the list and the
-- catalog's answer are parameters; what a sweep does is the list of its calls of OnAction, whose errors
-- are only logged.
pub mod Sweep
mod Tests
use opendray_v2_lab.Common.Order.{ℤ, pos, int_ltb, int_eq}
use opendray_v2_lab.Common.{
  ℕ, ◌*◌, ◌^◌, Bool, true, false, ◌&&◌, ◌||◌, List, [], ◌∷◌, ◌++◌, Option, none, some, Bytes,
  bytes_eq, codes, ◌==◌, any, nat_beq, if◌then◌else◌,
}
use opendray_v2_lab.Go.Path.{components}
use opendray_v2_lab.Go.Trim.{trim_space}

pub record Entry : Type 0 where
  pub name : Bytes
  pub versions : Bytes
  pub reason : Bytes
  pub recorded_at : Bytes
  pub action : Bytes

pub record Response : Type 0 where
  pub version : ℤ
  pub entries : List Entry

pub record InstalledPlugin : Type 0 where
  pub publisher : Bytes
  pub name : Bytes
  pub version : Bytes

abbrev pub default_publisher : Bytes
default_publisher = codes "opendray-examples"

-- strings.ContainsAny with a backslash, an at sign and a space
abbrev pub unsafe_char : ℕ → Bool
unsafe_char c = nat_beq c 92 || nat_beq c 64 || nat_beq c 32

abbrev pub is_empty : Bytes → Bool
is_empty [] = true
is_empty (c ∷ s) = false

abbrev pub of_parts : List Bytes → Option (Bytes × Bytes)
of_parts [] = none
of_parts (name ∷ []) = some (default_publisher, name)
of_parts (publisher ∷ name ∷ []) =
    if is_empty publisher || is_empty name then none else some (publisher, name)
of_parts (a ∷ b ∷ c ∷ more) = none

-- The publisher and the name.
unfoldable pub parse_entry_name : Bytes → Option (Bytes × Bytes)
parse_entry_name raw =
    if is_empty (trim_space raw)
    then none
    else if any unsafe_char (trim_space raw)
    then none
    else of_parts (components (trim_space raw))

pub data Match : Type 0 where
  malformed : Match
  found : Bool → Match

-- The semver package: a range, a version, and whether the version is in the range.
pub record Semver : Type 1 where
  pub Range : Type 0
  pub Version : Type 0
  pub range : Bytes → Option Range
  pub version : Bytes → Option Version
  pub check : Range → Version → Bool

abbrev pub publisher_of : InstalledPlugin → Bytes
publisher_of p = if is_empty p.publisher then default_publisher else p.publisher

module _ (semver : Semver) where
  abbrev pub checked : semver.Range → Option semver.Version → Match
  checked r none = found false
  checked r (some v) = found (semver.check r v)

  abbrev pub in_range : Option semver.Range → Bytes → Match
  in_range none version = malformed
  in_range (some r) version = checked r (semver.version version)

  unfoldable pub match_versions : Bytes → Bytes → Match
  match_versions expr version =
      if is_empty expr || (expr == codes "*")
      then found true
      else in_range (semver.range expr) version

  abbrev pub match_named : Entry → Option (Bytes × Bytes) → InstalledPlugin → Match
  match_named e none p = malformed
  match_named e (some (publisher, name)) p =
      if (publisher == publisher_of p) && (name == p.name)
      then match_versions (trim_space e.versions) p.version
      else found false

  -- Matches
  unfoldable pub match_entry : Entry → InstalledPlugin → Match
  unfolding parse_entry_name match_versions
  match_entry e p = match_named e (parse_entry_name e.name) p

  -- The inner loop: a malformed entry is left.
  unfoldable pub sweep_entry : Entry → List InstalledPlugin → List (Entry × InstalledPlugin)
  unfolding match_entry
  sweep_entry e [] = []
  sweep_entry e (p ∷ ps) =
      let rest = sweep_entry e ps in
      elim (match_entry e p) [ malformed ↦ [] | found hit ↦ if hit then (e, p) ∷ rest else rest ]

  unfoldable pub sweep_entries : List Entry → List InstalledPlugin → List (Entry × InstalledPlugin)
  unfolding sweep_entry
  sweep_entries [] ps = []
  sweep_entries (e ∷ es) ps = sweep_entry e ps ++ sweep_entries es ps

  abbrev pub sweep_response :
      Option Response → List InstalledPlugin → List (Entry × InstalledPlugin)
  sweep_response none ps = []
  sweep_response (some r) ps = if r.version == pos 1 then sweep_entries r.entries ps else []

  -- The catalog's answer is none for an error; an empty body is an empty list.
  unfoldable pub sweep :
      (Bytes → Option Response)
      → Option Bytes
      → List InstalledPlugin
      → List (Entry × InstalledPlugin)
  unfolding sweep_entries
  sweep unmarshal none ps = []
  sweep unmarshal (some []) ps = []
  sweep unmarshal (some (c ∷ body)) ps = sweep_response (unmarshal (c ∷ body)) ps

-- NormalisedAction
unfoldable pub normalised_action : Entry → Bytes
normalised_action e =
    if (e.action == codes "uninstall")
      || (e.action == codes "disable")
      || (e.action == codes "warn")
    then e.action
    else codes "warn"
