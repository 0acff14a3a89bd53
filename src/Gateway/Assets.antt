-- ===== src/Gateway/Assets.antt =====
-- gateway/plugins_assets.go: the files of a plugin's ui directory. What chi takes out of the URL, the registered
-- versions, the file system, filepath.Rel and the mime table are arguments; the data directory is an
-- absolute path. An answer is its status with the error's code, or the file with the headers that depend on it.
mod Confined
mod Tests
use opendray_v2_lab.Common.{
  ℕ, ◌≡◌, refl, Bool, true, false, not, ◌&&◌, ◌||◌, List, [], ◌∷◌, Option, none, some, Bytes,
  bytes_eq, codes, ◌==◌, nat_beq, any, map, has_prefix, if◌then◌else◌,
}
use opendray_v2_lab.Go.Path.{components, dot_dot}
use opendray_v2_lab.Go.Path.Join.{join}
use opendray_v2_lab.Go.Path.Relative.{clean_relative, ext}
use opendray_v2_lab.Go.Strings.{contains_any, lower}
use opendray_v2_lab.Plugin.ConfigSchema.{among}
use opendray_v2_lab.Plugin.Contributions.{is_empty}

pub data Stat : Type 0 where
  present absent unreadable : Stat

pub record Files : Type 0 where
  pub stat : Bytes → Stat
  pub opens : Bytes → Bool
  pub rel : Bytes → Bytes → Option Bytes
  pub mime_of : Bytes → Bytes

pub data BadPath : Type 0 where
  nul newline backslash absolute : BadPath

pub data Answer : Type 0 where
  no_plugin bad_path no_file internal : Answer
  served : (path content_type cache_control : Bytes) → Answer

abbrev pub version_of : Option Bytes → Option Bytes
version_of none = none
version_of (some version) = if is_empty version then none else some version

unfoldable pub validate_asset_fragment : Bytes → Option BadPath
unfolding contains_any
validate_asset_fragment raw =
    if contains_any raw (0 ∷ [])
    then some nul
    else if contains_any raw (13 ∷ 10 ∷ [])
    then some newline
    else if contains_any raw (92 ∷ [])
    then some backslash
    else if has_prefix raw (codes "/")
    then some absolute
    else none

unfoldable pub contains_dot_dot : Bytes → Bool
unfolding components
contains_dot_dot s = any (λ seg. seg == dot_dot) (components s)

unfoldable pub content_type_for_ext : (Bytes → Bytes) → Bytes → Bytes
content_type_for_ext mime_of e =
    if (e == codes ".js") || (e == codes ".mjs")
    then codes "application/javascript"
    else if e == codes ".css"
    then codes "text/css; charset=utf-8"
    else if (e == codes ".html") || (e == codes ".htm")
    then codes "text/html; charset=utf-8"
    else if e == codes ".json"
    then codes "application/json"
    else if e == codes ".svg"
    then codes "image/svg+xml"
    else if is_empty (mime_of e)
    then codes "application/octet-stream"
    else mime_of e

unfoldable pub cache_control_for : Bytes → Bytes
cache_control_for e =
    if (e == codes ".html") || (e == codes ".htm")
    then codes "no-store"
    else codes "public, max-age=3600"

abbrev pub leaves : Option Bytes → Bool
leaves none = true
leaves (some rel) = has_prefix rel (codes "..")

abbrev pub open_file : Files → Bytes → Bytes → Answer
open_file fs abs e =
    if fs.opens abs
    then served abs (content_type_for_ext fs.mime_of e) (cache_control_for e)
    else internal

abbrev pub found_file : Files → Bytes → Bytes → Stat → Answer
found_file fs abs e absent = no_file
found_file fs abs e unreadable = internal
found_file fs abs e present = open_file fs abs e

abbrev pub ui_root : Bytes → Bytes → Bytes → Bytes
ui_root data_dir name version = join (data_dir ∷ name ∷ version ∷ codes "ui" ∷ [])

abbrev pub lower_ext : Bytes → Bytes
lower_ext path = map lower (ext path)

-- From the cleaned fragment on.
unfoldable pub serve_cleaned : Files → Bytes → Bytes → Answer
unfolding contains_dot_dot content_type_for_ext cache_control_for ext lower join
serve_cleaned fs root cleaned =
    let abs = join (root ∷ cleaned ∷ []) in
    if contains_dot_dot cleaned || (has_prefix cleaned (codes "/") || has_prefix cleaned (92 ∷ []))
    then bad_path
    else if leaves (fs.rel root abs)
    then bad_path
    else found_file fs abs (lower_ext cleaned) (fs.stat abs)

abbrev pub defaulted : Bytes → Bytes
defaulted raw = if is_empty raw then codes "index.html" else raw

abbrev pub unless_bad : Option BadPath → Answer → Answer
unless_bad none answer = answer
unless_bad (some bad) answer = bad_path

abbrev pub serve_version : Files → Bytes → Bytes → Bytes → Option Bytes → Answer
serve_version fs data_dir name raw none = no_plugin
serve_version fs data_dir name raw (some version) =
    unless_bad (validate_asset_fragment (defaulted raw))
      (serve_cleaned fs (ui_root data_dir name version) (clean_relative (defaulted raw)))

unfoldable pub assets_handler : Files → (Bytes → Option Bytes) → Bytes → Bytes → Bytes → Answer
unfolding validate_asset_fragment serve_cleaned clean_relative join
assets_handler fs registered data_dir name raw =
    serve_version fs data_dir name raw (version_of (registered name))
