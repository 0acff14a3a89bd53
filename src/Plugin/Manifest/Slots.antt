-- ===== src/Plugin/Manifest/Slots.antt =====
-- plugin/manifest_validate.go: which contributions of each kind pass, and when validateContributes reports nothing.
use opendray_v2_lab.Common.{
  ℕ, ◌≡◌, ◌≢◌, ◌↔◌, inl, inr, refl, sym, ap, ◌∙◌, List, [], ◌∷◌, ◌++◌, Option, none, some, Bytes,
  bytes_eq, bytes_beq_iff, codes, ◌==◌, Bool-cases, ltb, ◌≤◌, arith,
}
use opendray_v2_lab.Go.Utf8.{rune_count}
use opendray_v2_lab.Plugin.Contributions.{CommandRun, Command, StatusBarItem, Keybinding}
use opendray_v2_lab.Plugin.Manifest.Contributed.{
  both_set, run_kinds, one_of, run_errors, command_errors, alignments, status_bar_errors,
  keybinding_errors, id_errors, title_errors, entry_errors,
}
use opendray_v2_lab.Plugin.Manifest.Empty.{
  both, report_empty, report_error_empty, IsOneOf, one_of_empty, both_set_empty,
}
use opendray_v2_lab.Plugin.Manifest.Errors.{ValidationError, report_error, indexed, too_long}
use opendray_v2_lab.Plugin.Manifest.Grammar.{validate_command_id, validate_relative_bundle_path}
use opendray_v2_lab.Plugin.Manifest.Accepted.{
  IsCommandId, validate_command_id-IsCommandId, IsBundlePath,
  validate_relative_bundle_path-IsBundlePath,
}

pub id_errors_empty : (base id : Bytes) → (id_errors base id ≡ []) ↔ IsCommandId id
id_errors_empty base [] = (λ h. absurd (cc h), λ h. absurd (h.0 refl))
id_errors_empty base (c ∷ id) =
    let e = report_error_empty (base ++ codes ".id") (validate_command_id (c ∷ id)) in
    let v = validate_command_id-IsCommandId (c ∷ id) in (λ h. v.0 (e.0 h), λ h. e.1 (v.1 h))

pub IsCommandId-errors :
    (path id : Bytes) → (report_error path (validate_command_id id) ≡ []) ↔ IsCommandId id
IsCommandId-errors path id =
    let e = report_error_empty path (validate_command_id id) in
    let v = validate_command_id-IsCommandId id in (λ h. v.0 (e.0 h), λ h. e.1 (v.1 h))

abbrev pub IsTitle : ℕ → Bytes → Type 0
IsTitle most title = (title ≢ []) × (rune_count title ≤ most)

pub title_errors_empty :
    (most : ℕ) (base title : Bytes) → (title_errors most base title ≡ []) ↔ IsTitle most title
title_errors_empty most base [] = (λ h. absurd (cc h), λ h. absurd (h.0 refl))
title_errors_empty most base (c ∷ title) =
    let r = report_empty (ltb most (rune_count (c ∷ title))) (base ++ codes ".title") too_long in
    (λ h. ((λ e. cc e), ground (arith, r.0 h)), λ h. r.1 (ground (arith, h.1)))

-- What a web view shows is a file of the bundle.
abbrev pub IsEntry : Bytes → Bytes → Type 0
IsEntry render entry = render ≡ codes "webview" → IsBundlePath entry

webview_entry :
    (base entry : Bytes) → (entry_errors base (codes "webview") entry ≡ []) ↔ IsBundlePath entry
webview_entry base [] = (λ h. absurd (cc h), λ h. absurd (h.0 refl))
webview_entry base (c ∷ entry) =
    let e =
      report_error_empty (base ++ codes ".entry") (validate_relative_bundle_path (c ∷ entry)) in
    let v = validate_relative_bundle_path-IsBundlePath (c ∷ entry) in
    (λ h. v.0 (e.0 h), λ h. e.1 (v.1 h))

pub entry_errors_empty :
    (base render entry : Bytes) → (entry_errors base render entry ≡ []) ↔ IsEntry render entry
entry_errors_empty base render entry = elim (Bool-cases (render == codes "webview")) [
  | inl hit ↦
      let e = (bytes_beq_iff render (codes "webview")).0 hit in
      let w = webview_entry base entry in
      (
        λ h x. w.0 (sym (ap (λ r. entry_errors base r entry) e) ∙ h),
        λ h. ap (λ r. entry_errors base r entry) e ∙ w.1 (h e),
      )
  | inr miss ↦
      (λ h e. absurd (cc (miss, (bytes_beq_iff render (codes "webview")).1 e)), λ h. rw miss refl)
]

abbrev pub IsRun : Option CommandRun → Type 0
IsRun none = Unit
IsRun (some run) = IsOneOf run_kinds run.kind

run_errors_empty : (base : Bytes) (run : Option CommandRun) → (run_errors base run ≡ []) ↔ IsRun run
run_errors_empty base none = (λ h. tt, λ h. refl)
run_errors_empty base (some run) = one_of_empty run_kinds (base ++ codes ".run.kind") run.kind

abbrev pub IsCommand : Command → Type 0
IsCommand c = ((c.id ≢ []) × (c.title ≢ []) × IsCommandId c.id) × IsRun c.run

pub command_errors_empty : (i : ℕ) (c : Command) → (command_errors i c ≡ []) ↔ IsCommand c
unfolding command_errors
command_errors_empty i c =
    let base = indexed (codes "contributes.commands") i in
    let further = report_error (base ++ codes ".id") (validate_command_id c.id) in
    both (both_set base c.id (codes "id") c.title (codes "title") further) (run_errors base c.run)
      (both_set_empty base c.id (codes "id") c.title (codes "title") further
        (IsCommandId-errors (base ++ codes ".id") c.id))
      (run_errors_empty base c.run)

nothing : (◌≡◌ {A = List ValidationError} [] []) ↔ Unit {0}
nothing = (λ h. tt, λ h. refl)

abbrev pub IsStatusBarItem : StatusBarItem → Type 0
IsStatusBarItem s = ((s.id ≢ []) × (s.text ≢ []) × Unit {0}) × IsOneOf alignments s.alignment

pub status_bar_errors_empty :
    (i : ℕ) (s : StatusBarItem) → (status_bar_errors i s ≡ []) ↔ IsStatusBarItem s
unfolding status_bar_errors
status_bar_errors_empty i s =
    let base = indexed (codes "contributes.statusBar") i in
    both (both_set base s.id (codes "id") s.text (codes "text") [])
      (one_of alignments (base ++ codes ".alignment") s.alignment)
      (both_set_empty base s.id (codes "id") s.text (codes "text") [] nothing)
      (one_of_empty alignments (base ++ codes ".alignment") s.alignment)

abbrev pub IsKeybinding : Keybinding → Type 0
IsKeybinding k = (k.command ≢ []) × (k.key ≢ []) × Unit {0}

pub keybinding_errors_empty :
    (i : ℕ) (k : Keybinding) → (keybinding_errors i k ≡ []) ↔ IsKeybinding k
unfolding keybinding_errors
keybinding_errors_empty i k =
    both_set_empty (indexed (codes "contributes.keybindings") i) k.command (codes "command") k.key
      (codes "key") [] nothing
