-- ===== src/Plugin/Contributions.antt =====
-- plugin/contributions/registry.go, with the types of plugin/manifest.go that it stores: the
-- workbench contributions of every installed plugin. A Go map is an association list and the lock is
-- held over each function; sort.Slice is the interface `Sorter`.
pub mod Flatten
mod Entries
mod Comparators
mod Complete
pub mod Stable
mod Tests
mod Order
use opendray_v2_lab.Common.Dict.{lookup, insert, delete}
use opendray_v2_lab.Common.Order.{ℤ}
use opendray_v2_lab.Common.{
  Bool, true, false, ◌&&◌, List, [], ◌∷◌, Option, none, some, Bytes, bytes_eq, if◌then◌else◌,
}

pub record CommandRun : Type 0 where
  pub kind : Bytes
  pub method : Bytes
  pub args : List Bytes
  pub view_id : Bytes
  pub url : Bytes
  pub message : Bytes
  pub task_id : Bytes

pub record Command : Type 0 where
  pub id : Bytes
  pub title : Bytes
  pub icon : Bytes
  pub category : Bytes
  pub when : Bytes
  pub run : Option CommandRun

pub record StatusBarItem : Type 0 where
  pub id : Bytes
  pub text : Bytes
  pub tooltip : Bytes
  pub command : Bytes
  pub alignment : Bytes
  pub priority : ℤ

pub record Keybinding : Type 0 where
  pub command : Bytes
  pub key : Bytes
  pub mac : Bytes
  pub when : Bytes

pub record MenuEntry : Type 0 where
  pub command : Bytes
  pub submenu : Bytes
  pub when : Bytes
  pub group : Bytes

pub record ActivityBarItem : Type 0 where
  pub id : Bytes
  pub icon : Bytes
  pub title : Bytes
  pub view_id : Bytes

pub record View : Type 0 where
  pub id : Bytes
  pub title : Bytes
  pub container : Bytes
  pub icon : Bytes
  pub when : Bytes
  pub render : Bytes
  pub entry : Bytes

pub record Panel : Type 0 where
  pub id : Bytes
  pub title : Bytes
  pub icon : Bytes
  pub position : Bytes
  pub render : Bytes
  pub entry : Bytes

pub record EditorAction : Type 0 where
  pub id : Bytes
  pub title : Bytes
  pub icon : Bytes
  pub when : Bytes
  pub group : Bytes

pub record SessionAction : Type 0 where
  pub id : Bytes
  pub title : Bytes
  pub icon : Bytes
  pub command : Bytes
  pub when : Bytes

pub record Contributes : Type 0 where
  pub commands : List Command
  pub status_bar : List StatusBarItem
  pub keybindings : List Keybinding
  pub menus : List (Bytes × List MenuEntry)
  pub activity_bar : List ActivityBarItem
  pub views : List View
  pub panels : List Panel
  pub editor_actions : List EditorAction
  pub session_actions : List SessionAction

pub record Registry : Type 0 where
  pub by_plugin : List (Bytes × Contributes)

pub new_registry : Registry
new_registry = record { by_plugin = [] }

abbrev pub is_empty {ℓ} : {A : Type ℓ} → List A → Bool
is_empty [] = true
is_empty (x ∷ xs) = false

abbrev pub is_zero : Contributes → Bool
is_zero c =
    is_empty c.commands
    && (is_empty c.status_bar
        && (is_empty c.keybindings
            && (is_empty c.menus
                && (is_empty c.activity_bar
                    && (is_empty c.views
                        && (is_empty c.panels
                            && (is_empty c.editor_actions && is_empty c.session_actions)))))))

unfoldable pub set_contributions : Registry → Bytes → Contributes → Registry
set_contributions r plugin_name c =
    if is_zero c
    then record { by_plugin = delete plugin_name r.by_plugin }
    else record { by_plugin = insert plugin_name c r.by_plugin }

unfoldable pub remove : Registry → Bytes → Registry
remove r plugin_name = record { by_plugin = delete plugin_name r.by_plugin }

abbrev pub is_some {ℓ} : {A : Type ℓ} → Option A → Bool
is_some none = false
is_some (some a) = true

unfoldable pub has : Registry → Bytes → Bool
has r plugin_name = is_some (lookup plugin_name r.by_plugin)
