-- ===== src/Plugin/Manifest/Component.antt =====
-- plugin/manifest_validate.go: the name and the version of an accepted manifest, as components of the path
-- under which plugin/install/install.go keeps the plugin.
use opendray_v2_lab.Common.{
  every, ℕ, ◌≡◌, refl, ap, ◌∙◌, true, [], ◌∷◌, ◌++◌, none, Bytes, arith, nat_beq,
}
use opendray_v2_lab.Go.Decimal.{is_digit}
use opendray_v2_lab.Go.Path.{slash, is_abs, is_not_slash, IsPlainPart, clean, or_root}
use opendray_v2_lab.Go.Path.Join.{join, join-plain}
use opendray_v2_lab.Go.Regexp.{at_least_one}
use opendray_v2_lab.Go.Regexp.Language.{Lang}
use opendray_v2_lab.Go.Regexp.Classes.{Within, every-Lang, every_wider}
use opendray_v2_lab.Plugin.Manifest.Grammar.{
  is_alnum, is_name_byte, is_tag_byte, re_version, validate_name, validate_semver,
}
use opendray_v2_lab.Plugin.Manifest.Labels.{starts, matched_iff, validate_name-IsLabel}

not_slash_of_tag : (c : ℕ) → is_tag_byte c ≡ true → is_not_slash c ≡ true
not_slash_of_tag c h = ground (arith, h)

-- A text that begins with a letter or a digit and holds no slash is a plain component.
starts-IsPlainPart :
    (s : Bytes) → starts is_alnum s ≡ true → every is_not_slash s ≡ true → IsPlainPart s
starts-IsPlainPart [] h flat = absurd (cc h)
starts-IsPlainPart (c ∷ s) h flat =
    (flat, (λ e. cc e), (λ e. absurd (ground (arith, h, e))), (λ e. absurd (ground (arith, h, e))))

tag_of_digit : (c : ℕ) → is_digit c ≡ true → is_tag_byte c ≡ true
tag_of_digit c h = ground (arith, h)

tag_of_dot : (c : ℕ) → nat_beq b'.' c ≡ true → is_tag_byte c ≡ true
tag_of_dot c h = ground (arith, h)

tag_of_dash : (c : ℕ) → nat_beq b'-' c ≡ true → is_tag_byte c ≡ true
tag_of_dash c h = ground (arith, h)

version-Within : Within is_tag_byte re_version
version-Within =
    let digits : Within is_tag_byte (at_least_one is_digit) = (tag_of_digit, tag_of_digit) in
    (
      digits,
      (tag_of_dot, (digits, (tag_of_dot, (digits, ((tag_of_dash, ((λ c h. h), (λ c h. h))), tt))))),
    )

alnum_of_digit : (c : ℕ) → is_digit c ≡ true → is_alnum c ≡ true
alnum_of_digit c h = ground (arith, h)

version_starts : (s : Bytes) → Lang re_version s → starts is_alnum s ≡ true
version_starts s (u, v, e, (x, y, f, (c, g, hit), rest), more) =
    let shape : s ≡ c ∷ (y ++ v) = e ∙ rw (f, g) refl in
    ap (starts is_alnum) shape ∙ alnum_of_digit c hit

pub version_not_empty : Lang re_version [] → ⊥
version_not_empty h = cc (version_starts [] h)

pub validate_name-IsPlainPart : (s : Bytes) → validate_name s ≡ none → IsPlainPart s
validate_name-IsPlainPart s h =
    let label = (validate_name-IsLabel s).0.0 h in
    starts-IsPlainPart s label.first
      (every_wider is_not_slash is_name_byte (λ c e. ground (arith, e)) s label.bytes)

pub validate_semver-IsPlainPart : (s : Bytes) → validate_semver s ≡ none → IsPlainPart s
unfolding validate_semver
validate_semver-IsPlainPart s h =
    let lang = (matched_iff re_version s version_not_empty).0 h in
    starts-IsPlainPart s (version_starts s lang) (
      every_wider is_not_slash is_tag_byte not_slash_of_tag s
        (every-Lang is_tag_byte re_version s version-Within lang))

-- A name and a version that pass, joined to an absolute directory, are its last two components as they are
-- written.
pub join-validated :
    (data_dir name version : Bytes)
    → is_abs data_dir ≡ true
    → validate_name name ≡ none
    → validate_semver version ≡ none
    → IsPlainPart name
      × IsPlainPart version
      × (base : Bytes) × (clean data_dir ≡ or_root base)
      × (join (data_dir ∷ name ∷ version ∷ []) ≡ base ++ slash ∷ (name ++ slash ∷ version))
join-validated data_dir name version full n v =
    let plain_n = validate_name-IsPlainPart name n in
    let plain_v = validate_semver-IsPlainPart version v in
    let (base, at_dir, whole) = join-plain data_dir name version full plain_n plain_v in
    (plain_n, plain_v, base, at_dir, whole)
