-- ===== src/Gateway/Assets/Confined.antt =====
-- gateway/plugins_assets.go: which files are served.
use opendray_v2_lab.Common.{
  ◌≡◌, ◌≢◌, refl, ap, ◌∙◌, true, false, ◌||◌, List, [], ◌∷◌, Option, none, some, Bytes, bytes_eq,
  bytes_beq_iff, codes, ◌==◌, Bool-cases, inl, inr, any, All, has_prefix, arith,
}
use opendray_v2_lab.Go.Path.{is_abs, components, dot_dot}
use opendray_v2_lab.Go.Path.Join.{join, is_abs-join}
use opendray_v2_lab.Go.Path.Below.{IsWithin, join_parts_below}
use opendray_v2_lab.Go.Path.Relative.{clean_relative, clean_relative_full}
use opendray_v2_lab.Gateway.Assets.{
  Stat, present, absent, unreadable, Files, BadPath, served, version_of, validate_asset_fragment,
  contains_dot_dot, content_type_for_ext, cache_control_for, leaves, found_file, ui_root, lower_ext,
  serve_cleaned, defaulted, unless_bad, serve_version, assets_handler,
}

-- A served file is below the root, can be opened, and has the headers of its extension.
pub record Serves (fs : Files) (root cleaned path content_type cache_control : Bytes) : Type 0 where
  pub within : IsWithin root path
  pub inside : leaves (fs.rel root path) ≡ false
  pub opened : fs.opens path ≡ true
  pub typed : content_type ≡ content_type_for_ext fs.mime_of (lower_ext cleaned)
  pub cached : cache_control ≡ cache_control_for (lower_ext cleaned)

no_dot_dot :
    (parts : List Bytes) → any (λ seg. seg == dot_dot) parts ≡ false → All (λ p. p ≢ dot_dot) parts
no_dot_dot [] h = tt
no_dot_dot (part ∷ parts) h = elim (Bool-cases (part == dot_dot)) [
  | inl hit ↦ absurd (cc (rw hit at h))
  | inr miss ↦ ((λ e. cc ((bytes_beq_iff part dot_dot).1 e, miss)), no_dot_dot parts (rw miss at h))
]

open_file_served :
    (fs : Files) (abs e path content_type cache_control : Bytes) (s : Stat)
    → found_file fs abs e s ≡ served path content_type cache_control
    → (path ≡ abs)
      × (fs.opens abs ≡ true)
      × (content_type ≡ content_type_for_ext fs.mime_of e)
      × (cache_control ≡ cache_control_for e)
open_file_served fs abs e path content_type cache_control absent h = absurd (cc h)
open_file_served fs abs e path content_type cache_control unreadable h = absurd (cc h)
open_file_served fs abs e path content_type cache_control present h =
    elim (Bool-cases (fs.opens abs)) [
      | inl opens ↦ let same = rw opens at h in (cc same, opens, cc same, cc same)
      | inr fails ↦ absurd (cc (rw fails at h))
    ]

serve_cleaned-Serves :
    (fs : Files) (root cleaned path content_type cache_control : Bytes)
    → is_abs root ≡ true
    → cleaned ≢ []
    → serve_cleaned fs root cleaned ≡ served path content_type cache_control
    → Serves fs root cleaned path content_type cache_control
unfolding serve_cleaned contains_dot_dot
serve_cleaned-Serves fs root cleaned path content_type cache_control full some_path h =
    let abs = join (root ∷ cleaned ∷ []) in
    let traversal =
      contains_dot_dot cleaned
      || (has_prefix cleaned (codes "/") || has_prefix cleaned (92 ∷ [])) in
    elim (Bool-cases traversal) [
      | inl bad ↦ absurd (cc (rw bad at h))
      | inr fine ↦ elim (Bool-cases (leaves (fs.rel root abs))) [
        | inl out ↦ absurd (cc (rw (fine, out) at h))
        | inr stays ↦
            let found = rw (fine, stays) at h in
            let (e, opened, typed, cached) =
              open_file_served fs abs (lower_ext cleaned) path content_type cache_control
                (fs.stat abs) found in
            let flat : contains_dot_dot cleaned ≡ false = ground (arith, fine) in
            let there =
              join_parts_below root cleaned full some_path (no_dot_dot (components cleaned) flat) in
            record {
              within = record {
                base = there.base;
                parts = there.parts;
                at_dir = there.at_dir;
                plain = there.plain;
                below = e ∙ there.below;
              };
              inside = ap (λ p. leaves (fs.rel root p)) e ∙ stays;
              opened = ap fs.opens e ∙ opened;
              typed = typed;
              cached = cached;
            }
      ]
    ]

served_version :
    (fs : Files) (data_dir name raw path content_type cache_control : Bytes) (o : Option Bytes)
    → is_abs data_dir ≡ true
    → serve_version fs data_dir name raw o ≡ served path content_type cache_control
    → (version : Bytes) × (o ≡ some version)
      × (validate_asset_fragment (defaulted raw) ≡ none)
      × Serves fs
          (ui_root data_dir name version)
          (clean_relative (defaulted raw))
          path
          content_type
          cache_control
served_version fs data_dir name raw path content_type cache_control none absolute h = absurd (cc h)
served_version fs data_dir name raw path content_type cache_control (some version) absolute h =
    checked (validate_asset_fragment (defaulted raw)) refl h
  where
    checked :
        (o : Option BadPath)
        → validate_asset_fragment (defaulted raw) ≡ o
        → unless_bad o
            (serve_cleaned fs (ui_root data_dir name version) (clean_relative (defaulted raw)))
          ≡ served path content_type cache_control
        → (v : Bytes) × (some version ≡ some v)
          × (validate_asset_fragment (defaulted raw) ≡ none)
          × Serves fs
              (ui_root data_dir name v)
              (clean_relative (defaulted raw))
              path
              content_type
              cache_control
    checked (some bad) e k = absurd (cc k)
    checked none e k = (
      version,
      refl,
      e,
      serve_cleaned-Serves fs (ui_root data_dir name version) (clean_relative (defaulted raw)) path
          content_type cache_control
          (is_abs-join data_dir (name ∷ version ∷ codes "ui" ∷ []) absolute)
          (clean_relative_full (defaulted raw)) k,
    )

-- Where the data directory is absolute, whatever is asked for, a file is served only of a plugin that has a registered version, and it lies in the
-- ui directory of that version or below: its path is that directory, cleaned, and further components none of which
-- holds a slash or is empty, `.` or `..`. Its
-- content type and its caching are those of its extension.
pub assets_handler-Serves :
    (fs : Files) (registered : Bytes → Option Bytes)
    (data_dir name raw path content_type cache_control : Bytes)
    → is_abs data_dir ≡ true
    → assets_handler fs registered data_dir name raw ≡ served path content_type cache_control
    → (version : Bytes) × (version_of (registered name) ≡ some version)
      × (validate_asset_fragment (defaulted raw) ≡ none)
      × Serves fs
          (ui_root data_dir name version)
          (clean_relative (defaulted raw))
          path
          content_type
          cache_control
unfolding assets_handler
assets_handler-Serves fs registered data_dir name raw path content_type cache_control absolute h =
    served_version fs data_dir name raw path content_type cache_control
      (version_of (registered name)) absolute h
