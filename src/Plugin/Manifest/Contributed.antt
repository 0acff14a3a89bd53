-- ===== src/Plugin/Manifest/Contributed.antt =====
-- plugin/manifest_validate.go: validateContributes, one function for each contribution point.
use opendray_v2_lab.Common.{
  ℕ, not, ◌&&◌, ◌||◌, List, [], ◌∷◌, ◌++◌, Option, none, some, Bytes, bytes_eq, codes, ◌==◌, ltb,
  length, if◌then◌else◌,
}
use opendray_v2_lab.Go.Utf8.{rune_count}
use opendray_v2_lab.Plugin.ConfigSchema.{among}
use opendray_v2_lab.Plugin.Contributions.{
  CommandRun, Command, StatusBarItem, Keybinding, ActivityBarItem, View, Panel, EditorAction,
  SessionAction, Contributes, is_empty,
}
use opendray_v2_lab.Plugin.Manifest.Errors.{
  must_not_be_empty, must_be_one_of, required, too_many, too_long, unknown_view, missing,
  ValidationError, report, report_error, each, indexed,
}
use opendray_v2_lab.Plugin.Manifest.Grammar.{validate_command_id, validate_relative_bundle_path}

-- The names of the two fields that are empty, first and second.
abbrev pub missing_of : Bytes → Bytes → Bytes → Bytes → List Bytes
missing_of a name_a b name_b =
    (if is_empty a then name_a ∷ [] else []) ++ (if is_empty b then name_b ∷ [] else [])

-- Two fields that must be set, and what is checked once they are.
abbrev pub both_set :
    Bytes → Bytes → Bytes → Bytes → Bytes → List ValidationError → List ValidationError
both_set base a name_a b name_b further =
    if is_empty a || is_empty b
    then record { path = base; rule = missing (missing_of a name_a b name_b) } ∷ []
    else further

abbrev pub run_kinds : List Bytes
run_kinds =
    codes "host"
    ∷ codes "notify"
    ∷ codes "openView"
    ∷ codes "runTask"
    ∷ codes "exec"
    ∷ codes "openUrl"
    ∷ []

-- A field that may be empty, and else is one of some words.
abbrev pub one_of : List Bytes → Bytes → Bytes → List ValidationError
one_of words path s = if is_empty s then [] else report (not (among s words)) path must_be_one_of

abbrev pub run_errors : Bytes → Option CommandRun → List ValidationError
run_errors base none = []
run_errors base (some run) = one_of run_kinds (base ++ codes ".run.kind") run.kind

unfoldable pub command_errors : ℕ → Command → List ValidationError
command_errors i cmd =
    let base = indexed (codes "contributes.commands") i in
    both_set base cmd.id (codes "id") cmd.title (codes "title")
      (report_error (base ++ codes ".id") (validate_command_id cmd.id))
    ++ run_errors base cmd.run

abbrev pub alignments : List Bytes
alignments = codes "left" ∷ codes "right" ∷ []

unfoldable pub status_bar_errors : ℕ → StatusBarItem → List ValidationError
status_bar_errors i sb =
    let base = indexed (codes "contributes.statusBar") i in
    both_set base sb.id (codes "id") sb.text (codes "text") []
    ++ one_of alignments (base ++ codes ".alignment") sb.alignment

unfoldable pub keybinding_errors : ℕ → Keybinding → List ValidationError
keybinding_errors i kb =
    both_set (indexed (codes "contributes.keybindings") i) kb.command (codes "command") kb.key
      (codes "key") []

-- An id that must be set and match the pattern of command ids.
abbrev pub id_errors : Bytes → Bytes → List ValidationError
id_errors base id =
    if is_empty id
    then record { path = base ++ codes ".id"; rule = must_not_be_empty } ∷ []
    else report_error (base ++ codes ".id") (validate_command_id id)

-- A title of 1 to `most` runes.
abbrev pub title_errors : ℕ → Bytes → Bytes → List ValidationError
title_errors most base title =
    if is_empty title
    then record { path = base ++ codes ".title"; rule = must_not_be_empty } ∷ []
    else report (ltb most (rune_count title)) (base ++ codes ".title") too_long

-- viewIDs: the ids of the declared views that have one
abbrev pub view_ids : List View → List Bytes
view_ids [] = []
view_ids (v ∷ views) = if is_empty v.id then view_ids views else v.id ∷ view_ids views

unfoldable pub activity_bar_errors : List Bytes → ℕ → ActivityBarItem → List ValidationError
activity_bar_errors ids i ab =
    let base = indexed (codes "contributes.activityBar") i in
    id_errors base ab.id
    ++ (report (is_empty ab.icon) (base ++ codes ".icon") must_not_be_empty
        ++ (title_errors 48 base ab.title
            ++ report (not (is_empty ab.view_id) && not (among ab.view_id ids))
                (base ++ codes ".viewId") unknown_view))

abbrev pub containers : List Bytes
containers = codes "activityBar" ∷ codes "panel" ∷ codes "sidebar" ∷ []

abbrev pub renders : List Bytes
renders = codes "webview" ∷ codes "declarative" ∷ []

-- The entry of a view or a panel that is drawn by a web view.
abbrev pub entry_errors : Bytes → Bytes → Bytes → List ValidationError
entry_errors base render entry =
    if render == codes "webview"
    then (if is_empty entry
        then record { path = base ++ codes ".entry"; rule = required } ∷ []
        else report_error (base ++ codes ".entry") (validate_relative_bundle_path entry))
    else []

unfoldable pub view_errors : ℕ → View → List ValidationError
view_errors i v =
    let base = indexed (codes "contributes.views") i in
    id_errors base v.id
    ++ (title_errors 64 base v.title
        ++ (one_of containers (base ++ codes ".container") v.container
            ++ (one_of renders (base ++ codes ".render") v.render
                ++ entry_errors base v.render v.entry)))

abbrev pub positions : List Bytes
positions = codes "bottom" ∷ codes "right" ∷ []

unfoldable pub panel_errors : ℕ → Panel → List ValidationError
panel_errors i p =
    let base = indexed (codes "contributes.panels") i in
    id_errors base p.id
    ++ (title_errors 64 base p.title
        ++ (one_of positions (base ++ codes ".position") p.position
            ++ (one_of renders (base ++ codes ".render") p.render
                ++ entry_errors base p.render p.entry)))

unfoldable pub editor_action_errors : ℕ → EditorAction → List ValidationError
editor_action_errors i a =
    let base = indexed (codes "contributes.editorActions") i in
    both_set base a.id (codes "id") a.title (codes "title")
      (report_error (base ++ codes ".id") (validate_command_id a.id))

unfoldable pub session_action_errors : ℕ → SessionAction → List ValidationError
session_action_errors i a =
    let base = indexed (codes "contributes.sessionActions") i in
    both_set base a.id (codes "id") a.title (codes "title") (
      report_error (base ++ codes ".id") (validate_command_id a.id)
      ++ (if is_empty a.command
          then []
          else report_error (base ++ codes ".command") (validate_command_id a.command)))

-- At most so many items.
abbrev pub at_most {ℓ} : {A : Type ℓ} → ℕ → Bytes → List A → List ValidationError
at_most most path items = report (ltb most (length items)) path too_many

unfoldable pub validate_contributes : Contributes → List ValidationError
unfolding command_errors status_bar_errors keybinding_errors activity_bar_errors view_errors
    panel_errors editor_action_errors session_action_errors indexed
validate_contributes c =
    each command_errors 0 c.commands
    ++ (each status_bar_errors 0 c.status_bar
        ++ (each keybinding_errors 0 c.keybindings
            ++ (at_most 4 (codes "contributes.activityBar") c.activity_bar
                ++ (each (activity_bar_errors (view_ids c.views)) 0 c.activity_bar
                    ++ (at_most 8 (codes "contributes.views") c.views
                        ++ (each view_errors 0 c.views
                            ++ (at_most 4 (codes "contributes.panels") c.panels
                                ++ (each panel_errors 0 c.panels
                                    ++ (each editor_action_errors 0 c.editor_actions
                                        ++ (at_most 4 (codes "contributes.sessionActions")
                                              c.session_actions
                                            ++ each session_action_errors 0
                                                c.session_actions))))))))))
