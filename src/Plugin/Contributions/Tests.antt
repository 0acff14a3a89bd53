-- ===== src/Plugin/Contributions/Tests.antt =====
-- A registry with two plugins, an insertion sort in the place of sort.Slice, and the theorems there.
use mathlib.Core.List.{[], ◌∷◌, Perm, reverse, reverse_perm}
use mathlib.Core.List.Perm
use opendray_v2_lab.Common.Dict.{lookup, insert, delete, Distinct, AllValues}
use opendray_v2_lab.Common.Order.{pos}
use opendray_v2_lab.Common.{◌≡◌, refl, false, none, Bytes, bytes_eq, codes, map}
use opendray_v2_lab.Go.Sort.Insertion.{insertion}
use opendray_v2_lab.Plugin.Contributions.{
  Registry, Contributes, Command, StatusBarItem, MenuEntry, new_registry, set_contributions, remove,
  has,
}
use opendray_v2_lab.Plugin.Contributions.Flatten.{
  Owned, or_empty, collect, add_menu, add_menus, collect_menus, sort_menus, flatten_entries,
  flatten,
}
use opendray_v2_lab.Plugin.Contributions.Stable.{Range, turn, OncePerPath, SameView, flatten-turn}
use opendray_v2_lab.Plugin.Contributions.Complete.{menu_entries, flatten-collect}

abbrev empty : Contributes
empty = record {
  commands = [];
  status_bar = [];
  keybindings = [];
  menus = [];
  activity_bar = [];
  views = [];
  panels = [];
  editor_actions = [];
  session_actions = [];
}

abbrev command : Bytes → Command
command id = record { id = id; title = id; icon = []; category = []; when = []; run = none }

abbrev item : Bytes → Bytes → StatusBarItem
item id alignment = record {
  id = id;
  text = id;
  tooltip = [];
  command = [];
  alignment = alignment;
  priority = pos 1;
}

abbrev entry : Bytes → Bytes → MenuEntry
entry command group = record { command = command; submenu = []; when = []; group = group }

abbrev kanban : Contributes
kanban = record empty {
  commands = command (codes "b") ∷ command (codes "a") ∷ [];
  status_bar = item (codes "s") (codes "right") ∷ [];
  menus = (codes "file", entry (codes "k") [] ∷ []) ∷ [];
}

abbrev clock : Contributes
clock = record empty {
  commands = command (codes "z") ∷ [];
  status_bar = item (codes "t") (codes "left") ∷ [];
  menus =
      (codes "file", entry (codes "c") (codes "g") ∷ [])
      ∷ (codes "view", entry (codes "v") [] ∷ [])
      ∷ [];
}

abbrev two_plugins : Registry
two_plugins = record { by_plugin = (codes "kanban", kanban) ∷ (codes "clock", clock) ∷ [] }

registered :
    set_contributions (set_contributions new_registry (codes "kanban") kanban) (codes "clock") clock
    ≡ two_plugins
unfolding set_contributions insert new_registry
registered = refl

removed : has (remove two_plugins (codes "clock")) (codes "clock") ≡ false
unfolding remove has lookup delete
removed = refl

commands :
    map (λ (c : Owned Command). c.item.id) (flatten insertion two_plugins).commands
    ≡ codes "z" ∷ codes "a" ∷ codes "b" ∷ []
unfolding flatten flatten_entries collect
commands = refl

bar :
    map (λ (c : Owned StatusBarItem). c.item.id) (flatten insertion two_plugins).status_bar
    ≡ codes "t" ∷ codes "s" ∷ []
unfolding flatten flatten_entries collect
bar = refl

-- The entry without a group comes after the one with a group.
menu :
    map
      (λ (c : Owned MenuEntry). c.item.command)
      (or_empty (lookup (codes "file") (flatten insertion two_plugins).menus))
    ≡ codes "c" ∷ codes "k" ∷ []
unfolding flatten flatten_entries collect_menus add_menus add_menu sort_menus lookup insert
menu = refl

two_plugins-Distinct : Distinct two_plugins.by_plugin
unfolding lookup
two_plugins-Distinct = (refl, (refl, tt))

-- The menus of every plugin, the last path first.
abbrev backwards : Range
backwards e = reverse e.1.menus

abbrev turned : Registry
turned = record {
  by_plugin = turn backwards (codes "clock", clock) ∷ turn backwards (codes "kanban", kanban) ∷ [];
}

once_per_path : AllValues OncePerPath two_plugins.by_plugin
unfolding lookup
once_per_path = ((refl, tt), ((refl, (refl, tt)), tt))

flatten-turn_example : SameView (flatten insertion two_plugins) (flatten insertion turned)
flatten-turn_example =
    flatten-turn insertion two_plugins turned backwards two_plugins-Distinct once_per_path
      (λ e. Perm.symm (reverse_perm e.1.menus))
      (Perm.swap (turn backwards (codes "clock", clock)) (turn backwards (codes "kanban", kanban))
        [])

flatten-collect_example :
    Perm (flatten insertion two_plugins).commands (collect (λ c. c.commands) two_plugins.by_plugin)
    × Perm
        (flatten insertion two_plugins).status_bar
        (collect (λ c. c.status_bar) two_plugins.by_plugin)
    × Perm
        (flatten insertion two_plugins).keybindings
        (collect (λ c. c.keybindings) two_plugins.by_plugin)
    × Perm
        (or_empty (lookup (codes "file") (flatten insertion two_plugins).menus))
        (collect (λ c. menu_entries (codes "file") c.menus) two_plugins.by_plugin)
    × Perm
        (flatten insertion two_plugins).activity_bar
        (collect (λ c. c.activity_bar) two_plugins.by_plugin)
    × Perm (flatten insertion two_plugins).views (collect (λ c. c.views) two_plugins.by_plugin)
    × Perm (flatten insertion two_plugins).panels (collect (λ c. c.panels) two_plugins.by_plugin)
    × Perm
        (flatten insertion two_plugins).editor_actions
        (collect (λ c. c.editor_actions) two_plugins.by_plugin)
    × Perm
        (flatten insertion two_plugins).session_actions
        (collect (λ c. c.session_actions) two_plugins.by_plugin)
flatten-collect_example = flatten-collect insertion two_plugins (codes "file")
