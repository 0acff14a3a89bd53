-- ===== src/Plugin/Manifest/Places.antt =====
-- plugin/manifest_validate.go: which contributions of each kind pass, and when validateContributes reports nothing.
use opendray_v2_lab.Common.{
  ℕ, ◌≡◌, ◌≢◌, ◌↔◌, ◌⊎◌, inl, inr, refl, true, false, not, ◌&&◌, List, [], ◌∷◌, ◌++◌, Bytes,
  bytes_eq, codes, All, length, ◌≤◌, arith, if◌then◌else◌,
}
use opendray_v2_lab.Plugin.ConfigSchema.{among}
use opendray_v2_lab.Plugin.Contributions.{
  ActivityBarItem, View, Panel, EditorAction, SessionAction, Contributes, is_empty,
}
use opendray_v2_lab.Plugin.Manifest.Contributed.{
  one_of, command_errors, status_bar_errors, keybinding_errors, id_errors, title_errors, view_ids,
  activity_bar_errors, containers, renders, entry_errors, view_errors, positions, panel_errors,
  editor_action_errors, session_action_errors, at_most, validate_contributes,
}
use opendray_v2_lab.Plugin.Manifest.Empty.{
  is_empty_not, both, report_empty, each_empty, IsOneOf, one_of_empty, both_set_empty,
  at_most_empty,
}
use opendray_v2_lab.Plugin.Manifest.Errors.{
  report, report_error, each, indexed, unknown_view, must_not_be_empty,
}
use opendray_v2_lab.Plugin.Manifest.Grammar.{validate_command_id}
use opendray_v2_lab.Plugin.Manifest.Accepted.{IsCommandId}
use opendray_v2_lab.Plugin.Manifest.Slots.{
  id_errors_empty, IsCommandId-errors, IsTitle, title_errors_empty, IsEntry, entry_errors_empty,
  IsCommand, IsStatusBarItem, IsKeybinding, command_errors_empty, status_bar_errors_empty,
  keybinding_errors_empty,
}

-- An item of the activity bar that opens a view opens a declared one.
pub record IsActivityBarItem (ids : List Bytes) (ab : ActivityBarItem) : Type 0 where
  pub id : IsCommandId ab.id
  pub icon : ab.icon ≢ []
  pub title : IsTitle 48 ab.title
  pub view : (ab.view_id ≡ []) ⊎ (among ab.view_id ids ≡ true)

known_view :
    (ids : List Bytes) (id : Bytes)
    → (not (is_empty id) && not (among id ids) ≡ false) ↔ ((id ≡ []) ⊎ (among id ids ≡ true))
known_view ids [] = (λ h. inl refl, λ h. refl)
known_view ids (c ∷ id) = (
  λ h. inr (ground (arith, h)),
  λ h. elim h [ inl e ↦ absurd (cc e) | inr e ↦ ground (arith, e) ],
)

activity_bar_errors_empty :
    (ids : List Bytes) (i : ℕ) (ab : ActivityBarItem)
    → (activity_bar_errors ids i ab ≡ []) ↔ IsActivityBarItem ids ab
unfolding activity_bar_errors
activity_bar_errors_empty ids i ab =
    let base = indexed (codes "contributes.activityBar") i in
    let icon = report (is_empty ab.icon) (base ++ codes ".icon") must_not_be_empty in
    let stray = not (is_empty ab.view_id) && not (among ab.view_id ids) in
    let view = report stray (base ++ codes ".viewId") unknown_view in
    let parts =
      both (id_errors base ab.id) (icon ++ (title_errors 48 base ab.title ++ view))
        (id_errors_empty base ab.id)
        (both icon (title_errors 48 base ab.title ++ view)
          (let r = report_empty (is_empty ab.icon) (base ++ codes ".icon") must_not_be_empty in
            let n = is_empty_not ab.icon in (λ h. n.0 (r.0 h), λ h. r.1 (n.1 h)))
          (both (title_errors 48 base ab.title) view (title_errors_empty 48 base ab.title) (
            let r = report_empty stray (base ++ codes ".viewId") unknown_view in
            let k = known_view ids ab.view_id in (λ h. k.0 (r.0 h), λ h. r.1 (k.1 h))))) in
    (
      λ h. let (a, (b, (c, d))) = parts.0 h in record { id = a; icon = b; title = c; view = d },
      λ h. parts.1 (h.id, (h.icon, (h.title, h.view))),
    )

-- A place with an id, a title, a position and something to show.
pub record IsPlace (places : List Bytes) (own title position render entry : Bytes) : Type 0 where
  pub id : IsCommandId own
  pub titled : IsTitle 64 title
  pub placed : IsOneOf places position
  pub shown : IsOneOf renders render
  pub file : IsEntry render entry

IsPlace-errors_empty :
    (base : Bytes) (places : List Bytes) (path id title position render entry : Bytes)
    → (id_errors base id
          ++ (title_errors 64 base title
              ++ (one_of places path position
                  ++ (one_of renders (base ++ codes ".render") render
                      ++ entry_errors base render entry)))
        ≡ [])
      ↔ IsPlace places id title position render entry
IsPlace-errors_empty base places path id title position render entry =
    let shown = one_of renders (base ++ codes ".render") render in
    let file = entry_errors base render entry in
    let where_to = one_of places path position in
    let parts =
      both (id_errors base id) (title_errors 64 base title ++ (where_to ++ (shown ++ file)))
        (id_errors_empty base id)
        (both (title_errors 64 base title) (where_to ++ (shown ++ file))
          (title_errors_empty 64 base title)
          (both where_to (shown ++ file) (one_of_empty places path position) (
            both shown file (one_of_empty renders (base ++ codes ".render") render)
              (entry_errors_empty base render entry)))) in
    (
      λ h.
          let (a, (b, (c, (d, e)))) = parts.0 h in
          record { id = a; titled = b; placed = c; shown = d; file = e },
      λ h. parts.1 (h.id, (h.titled, (h.placed, (h.shown, h.file)))),
    )

abbrev pub IsView : View → Type 0
IsView v = IsPlace containers v.id v.title v.container v.render v.entry

view_errors_empty : (i : ℕ) (v : View) → (view_errors i v ≡ []) ↔ IsView v
unfolding view_errors
view_errors_empty i v =
    let base = indexed (codes "contributes.views") i in
    IsPlace-errors_empty base containers (base ++ codes ".container") v.id v.title v.container
      v.render v.entry

abbrev pub IsPanel : Panel → Type 0
IsPanel p = IsPlace positions p.id p.title p.position p.render p.entry

panel_errors_empty : (i : ℕ) (p : Panel) → (panel_errors i p ≡ []) ↔ IsPanel p
unfolding panel_errors
panel_errors_empty i p =
    let base = indexed (codes "contributes.panels") i in
    IsPlace-errors_empty base positions (base ++ codes ".position") p.id p.title p.position p.render
      p.entry

abbrev pub IsEditorAction : EditorAction → Type 0
IsEditorAction a = (a.id ≢ []) × (a.title ≢ []) × IsCommandId a.id

editor_action_errors_empty :
    (i : ℕ) (a : EditorAction) → (editor_action_errors i a ≡ []) ↔ IsEditorAction a
unfolding editor_action_errors
editor_action_errors_empty i a =
    let base = indexed (codes "contributes.editorActions") i in
    both_set_empty base a.id (codes "id") a.title (codes "title")
      (report_error (base ++ codes ".id") (validate_command_id a.id))
      (IsCommandId-errors (base ++ codes ".id") a.id)

abbrev pub IsOptionalId : Bytes → Type 0
IsOptionalId id = (id ≡ []) ⊎ IsCommandId id

IsOptionalId-errors :
    (path id : Bytes)
    → ((if is_empty id then [] else report_error path (validate_command_id id)) ≡ [])
      ↔ IsOptionalId id
IsOptionalId-errors path [] = (λ h. inl refl, λ h. refl)
IsOptionalId-errors path (c ∷ id) =
    let e = IsCommandId-errors path (c ∷ id) in
    (λ h. inr (e.0 h), λ h. elim h [ inl x ↦ absurd (cc x) | inr x ↦ e.1 x ])

abbrev pub IsSessionAction : SessionAction → Type 0
IsSessionAction a = (a.id ≢ []) × (a.title ≢ []) × (IsCommandId a.id × IsOptionalId a.command)

session_action_errors_empty :
    (i : ℕ) (a : SessionAction) → (session_action_errors i a ≡ []) ↔ IsSessionAction a
unfolding session_action_errors
session_action_errors_empty i a =
    let base = indexed (codes "contributes.sessionActions") i in
    let own = report_error (base ++ codes ".id") (validate_command_id a.id) in
    let path = base ++ codes ".command" in
    let command =
      (if is_empty a.command then [] else report_error path (validate_command_id a.command)) in
    both_set_empty base a.id (codes "id") a.title (codes "title") (own ++ command) (
      both own command (IsCommandId-errors (base ++ codes ".id") a.id)
        (IsOptionalId-errors path a.command))

-- The set of contributions as a whole.
pub record IsContributes (c : Contributes) : Type 0 where
  pub commands : All IsCommand c.commands
  pub status_bar : All IsStatusBarItem c.status_bar
  pub keybindings : All IsKeybinding c.keybindings
  pub few_items : length c.activity_bar ≤ 4
  pub activity_bar : All (IsActivityBarItem (view_ids c.views)) c.activity_bar
  pub few_views : length c.views ≤ 8
  pub views : All IsView c.views
  pub few_panels : length c.panels ≤ 4
  pub panels : All IsPanel c.panels
  pub editor_actions : All IsEditorAction c.editor_actions
  pub few_actions : length c.session_actions ≤ 4
  pub session_actions : All IsSessionAction c.session_actions

-- A set of contributions passes exactly when each of its parts does.
pub validate_contributes-IsContributes :
    (c : Contributes) → (validate_contributes c ≡ []) ↔ IsContributes c
unfolding validate_contributes
validate_contributes-IsContributes c =
    let ids = view_ids c.views in
    let a = each command_errors 0 c.commands in
    let b = each status_bar_errors 0 c.status_bar in
    let d = each keybinding_errors 0 c.keybindings in
    let e = at_most 4 (codes "contributes.activityBar") c.activity_bar in
    let f = each (activity_bar_errors ids) 0 c.activity_bar in
    let g = at_most 8 (codes "contributes.views") c.views in
    let h = each view_errors 0 c.views in
    let i = at_most 4 (codes "contributes.panels") c.panels in
    let j = each panel_errors 0 c.panels in
    let k = each editor_action_errors 0 c.editor_actions in
    let l = at_most 4 (codes "contributes.sessionActions") c.session_actions in
    let m = each session_action_errors 0 c.session_actions in
    let parts =
      both a (b ++ (d ++ (e ++ (f ++ (g ++ (h ++ (i ++ (j ++ (k ++ (l ++ m))))))))))
        (each_empty IsCommand command_errors command_errors_empty 0 c.commands)
        (both b (d ++ (e ++ (f ++ (g ++ (h ++ (i ++ (j ++ (k ++ (l ++ m)))))))))
          (each_empty IsStatusBarItem status_bar_errors status_bar_errors_empty 0 c.status_bar)
          (both d (e ++ (f ++ (g ++ (h ++ (i ++ (j ++ (k ++ (l ++ m))))))))
            (each_empty IsKeybinding keybinding_errors keybinding_errors_empty 0 c.keybindings)
            (both e (f ++ (g ++ (h ++ (i ++ (j ++ (k ++ (l ++ m)))))))
              (at_most_empty 4 (codes "contributes.activityBar") c.activity_bar)
              (both f (g ++ (h ++ (i ++ (j ++ (k ++ (l ++ m))))))
                (each_empty (IsActivityBarItem ids) (activity_bar_errors ids)
                  (activity_bar_errors_empty ids) 0 c.activity_bar)
                (both g (h ++ (i ++ (j ++ (k ++ (l ++ m)))))
                  (at_most_empty 8 (codes "contributes.views") c.views)
                  (both h (i ++ (j ++ (k ++ (l ++ m))))
                    (each_empty IsView view_errors view_errors_empty 0 c.views)
                    (both i (j ++ (k ++ (l ++ m)))
                      (at_most_empty 4 (codes "contributes.panels") c.panels)
                      (both j (k ++ (l ++ m))
                        (each_empty IsPanel panel_errors panel_errors_empty 0 c.panels)
                        (both k (l ++ m)
                          (each_empty IsEditorAction editor_action_errors editor_action_errors_empty
                            0 c.editor_actions)
                          (both l m
                            (at_most_empty 4 (codes "contributes.sessionActions") c.session_actions)
                            (each_empty IsSessionAction session_action_errors
                              session_action_errors_empty 0 c.session_actions))))))))))) in
    (
      λ x.
          let (a, (b, (d, (e, (f, (g, (h, (i, (j, (k, (l, m))))))))))) = parts.0 x in
          record {
            commands = a;
            status_bar = b;
            keybindings = d;
            few_items = e;
            activity_bar = f;
            few_views = g;
            views = h;
            few_panels = i;
            panels = j;
            editor_actions = k;
            few_actions = l;
            session_actions = m;
          },
      λ x. parts.1 (
        x.commands,
        (
          x.status_bar,
          (
            x.keybindings,
            (
              x.few_items,
              (
                x.activity_bar,
                (
                  x.few_views,
                  (
                    x.views,
                    (
                      x.few_panels,
                      (x.panels, (x.editor_actions, (x.few_actions, x.session_actions))),
                    ),
                  ),
                ),
              ),
            ),
          ),
        ),
      ),
    )
