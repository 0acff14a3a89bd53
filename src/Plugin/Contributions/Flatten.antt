-- ===== src/Plugin/Contributions/Flatten.antt =====
-- plugin/contributions/registry.go, `Flatten`: the sorted view of the registry.
use opendray_v2_lab.Common.Dict.{lookup, insert}
use opendray_v2_lab.Common.Order.{bytes_ltb, int_ltb, int_eq}
use opendray_v2_lab.Common.{
  ℕ, Bool, true, false, not, ◌&&◌, List, [], ◌∷◌, ◌++◌, map, Option, none, some, Bytes, bytes_eq,
  codes, ltb, nat_eq, ◌==◌, if◌then◌else◌,
}
use opendray_v2_lab.Go.Sort.{Sorter}
use opendray_v2_lab.Plugin.Contributions.{
  Registry, Contributes, Command, StatusBarItem, Keybinding, MenuEntry, ActivityBarItem, View,
  Panel, EditorAction, SessionAction, is_empty,
}

-- The `Owned…` structs: an item with the name of its plugin.
pub record Owned (A : Type 0) : Type 0 where
  pub plugin_name : Bytes
  pub item : A

pub record FlatContributions : Type 0 where
  pub commands : List (Owned Command)
  pub status_bar : List (Owned StatusBarItem)
  pub keybindings : List (Owned Keybinding)
  pub menus : List (Bytes × List (Owned MenuEntry))
  pub activity_bar : List (Owned ActivityBarItem)
  pub views : List (Owned View)
  pub panels : List (Owned Panel)
  pub editor_actions : List (Owned EditorAction)
  pub session_actions : List (Owned SessionAction)

-- The closures that sort.Slice is called with.
abbrev pub entry_less : Bytes × Contributes → Bytes × Contributes → Bool
entry_less i j = bytes_ltb i.0 j.0

-- Commands, keybindings, activity bar, views, panels and session actions: by plugin, then by `key`.
abbrev pub owned_less : {A : Type 0} → (A → Bytes) → Owned A → Owned A → Bool
owned_less key i j =
    if not (i.plugin_name == j.plugin_name)
    then bytes_ltb i.plugin_name j.plugin_name
    else bytes_ltb (key i.item) (key j.item)

abbrev pub align_order : Bytes → ℕ
align_order a = if a == codes "left" then 0 else 1

abbrev pub status_bar_less : Owned StatusBarItem → Owned StatusBarItem → Bool
status_bar_less i j =
    if not (align_order i.item.alignment == align_order j.item.alignment)
    then ltb (align_order i.item.alignment) (align_order j.item.alignment)
    else (if not (i.item.priority == j.item.priority)
        then int_ltb j.item.priority i.item.priority
        else bytes_ltb i.plugin_name j.plugin_name)

-- The tests on the groups, which the editor actions and the menus share; the empty group is last.
abbrev pub group_less : Bytes → Bytes → Bool → Bool
group_less gi gj rest =
    if is_empty gi && not (is_empty gj)
    then false
    else (if not (is_empty gi) && is_empty gj
        then true
        else (if not (gi == gj) then bytes_ltb gi gj else rest))

abbrev pub editor_action_less : Owned EditorAction → Owned EditorAction → Bool
editor_action_less i j = group_less i.item.group j.item.group (owned_less (λ a. a.id) i j)

abbrev pub menu_less : Owned MenuEntry → Owned MenuEntry → Bool
menu_less i j = group_less i.item.group j.item.group (bytes_ltb i.plugin_name j.plugin_name)

abbrev pub own : {A : Type 0} → Bytes → A → Owned A
own name item = record { plugin_name = name; item = item }

-- The loop that appends one slot of every entry.
unfoldable pub collect :
    {A : Type 0} → (Contributes → List A) → List (Bytes × Contributes) → List (Owned A)
collect slot [] = []
collect slot ((name, c) ∷ entries) = map (own name) (slot c) ++ collect slot entries

abbrev pub or_empty {ℓ} : {A : Type ℓ} → Option (List A) → List A
or_empty none = []
or_empty (some xs) = xs

-- `for _, me := range menuEntries`
unfoldable pub add_menu :
    Bytes
    → Bytes
    → List MenuEntry
    → List (Bytes × List (Owned MenuEntry))
    → List (Bytes × List (Owned MenuEntry))
add_menu name path [] menus = menus
add_menu name path (me ∷ entries) menus =
    add_menu name path entries
      (insert path (or_empty (lookup path menus) ++ (own name me ∷ [])) menus)

-- `for menuPath, menuEntries := range e.c.Menus`
unfoldable pub add_menus :
    Bytes
    → List (Bytes × List MenuEntry)
    → List (Bytes × List (Owned MenuEntry))
    → List (Bytes × List (Owned MenuEntry))
add_menus name [] menus = menus
add_menus name ((path, entries) ∷ more) menus =
    add_menus name more (add_menu name path entries menus)

unfoldable pub collect_menus :
    List (Bytes × Contributes)
    → List (Bytes × List (Owned MenuEntry))
    → List (Bytes × List (Owned MenuEntry))
collect_menus [] menus = menus
collect_menus ((name, c) ∷ entries) menus = collect_menus entries (add_menus name c.menus menus)

unfoldable pub sort_menus :
    Sorter → List (Bytes × List (Owned MenuEntry)) → List (Bytes × List (Owned MenuEntry))
sort_menus s [] = []
sort_menus s ((path, entries) ∷ menus) = (path, s.sort menu_less entries) ∷ sort_menus s menus

-- What `Flatten` does with its sorted entries.
unfoldable pub flatten_entries : Sorter → List (Bytes × Contributes) → FlatContributions
flatten_entries s entries = record {
  commands = s.sort (owned_less (λ a. a.id)) (collect (λ c. c.commands) entries);
  status_bar = s.sort status_bar_less (collect (λ c. c.status_bar) entries);
  keybindings = s.sort (owned_less (λ a. a.key)) (collect (λ c. c.keybindings) entries);
  menus = sort_menus s (collect_menus entries []);
  activity_bar = s.sort (owned_less (λ a. a.id)) (collect (λ c. c.activity_bar) entries);
  views = s.sort (owned_less (λ a. a.id)) (collect (λ c. c.views) entries);
  panels = s.sort (owned_less (λ a. a.id)) (collect (λ c. c.panels) entries);
  editor_actions = s.sort editor_action_less (collect (λ c. c.editor_actions) entries);
  session_actions = s.sort (owned_less (λ a. a.id)) (collect (λ c. c.session_actions) entries);
}

unfoldable pub flatten : Sorter → Registry → FlatContributions
flatten s r = flatten_entries s (s.sort entry_less r.by_plugin)
