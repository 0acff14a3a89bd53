-- ===== src/Plugin/Manifest/Accepted.antt =====
-- plugin/manifest_validate.go: which contributions pass validateContributes.
use opendray_v2_lab.Common.{
  every, ◌≡◌, ◌≢◌, ◌↔◌, inl, inr, refl, sym, ◌∙◌, subst, true, false, [], ◌∷◌, none, Bytes,
  bytes_eq, codes, Bool-cases, any, arith, has_prefix, &&-eq-true,
}
use opendray_v2_lab.Go.Regexp.Language.{Lang}
use opendray_v2_lab.Go.Strings.{contains}
use opendray_v2_lab.Go.Strings.Contains.{Has, contains_iff}
use opendray_v2_lab.Plugin.Manifest.Empty.{is_empty_not}
use opendray_v2_lab.Plugin.Manifest.Grammar.{
  is_id_byte, re_command_id, is_control, validate_command_id, validate_relative_bundle_path,
}
use opendray_v2_lab.Plugin.Manifest.Labels.{matched_iff}

-- Lower-case letters, digits, `-`, `.` and `_`, one at least.
abbrev pub IsCommandId : Bytes → Type 0
IsCommandId id = (id ≢ []) × (every is_id_byte id ≡ true)

id_sound : (s : Bytes) → Lang re_command_id s → IsCommandId s
id_sound s (u, v, e, (c, f, hit), rest) =
    let shape : s ≡ c ∷ v = e ∙ rw f refl in
    subst IsCommandId (sym shape)
      ((λ x. cc x), (&&-eq-true (is_id_byte c) (every is_id_byte v)).1 (hit, rest))

id_complete : (s : Bytes) → IsCommandId s → Lang re_command_id s
id_complete [] h = absurd (h.0 refl)
id_complete (c ∷ s) h =
    let (here, later) = (&&-eq-true (is_id_byte c) (every is_id_byte s)).0 h.1 in
    (c ∷ [], s, refl, (c, refl, here), later)

pub validate_command_id-IsCommandId :
    (id : Bytes) → (validate_command_id id ≡ none) ↔ IsCommandId id
unfolding validate_command_id
validate_command_id-IsCommandId id =
    let m = matched_iff re_command_id id (λ h. (id_sound [] h).0 refl) in
    (λ h. id_sound id (m.0 h), λ h. m.1 (id_complete id h))

-- A relative path that stays in its directory: no leading slash, no `..` anywhere, no control characters.
abbrev pub IsBundlePath : Bytes → Type 0
IsBundlePath p =
    (p ≢ [])
    × (has_prefix p (codes "/") ≡ false)
    × (Has p (codes "..") → ⊥)
    × (any is_control p ≡ false)

pub validate_relative_bundle_path-IsBundlePath :
    (p : Bytes) → (validate_relative_bundle_path p ≡ none) ↔ IsBundlePath p
unfolding validate_relative_bundle_path
validate_relative_bundle_path-IsBundlePath p = (
  λ h. (
    (is_empty_not p).0 (ground (arith, h)),
    ground (arith, h),
    (λ has. let hit = (contains_iff p (codes "..")).1 has in absurd (ground (arith, h, hit))),
    ground (arith, h),
  ),
  λ (x : IsBundlePath p).
      let (full, relative, flat, plain) = x in
      let nonempty = (is_empty_not p).1 full in
      elim (Bool-cases (contains p (codes ".."))) [
        | inl hit ↦ absurd (flat ((contains_iff p (codes "..")).0 hit))
        | inr miss ↦ ground (arith, nonempty, relative, miss, plain)
      ],
)
