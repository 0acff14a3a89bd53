-- ===== src/Plugin/Compat.antt =====
-- plugin/compat/synthesize.go: the v1 overlay of a legacy manifest. A value of the model is not shared, so that
-- the copies which the code makes first are the value itself.
mod Overlay
mod Panel
mod Tests
use opendray_v2_lab.Common.{
  Bool, true, false, not, ◌&&◌, ◌||◌, List, [], ◌∷◌, ◌++◌, Option, none, some, Bytes, bytes_eq,
  codes, ◌==◌, any, if◌then◌else◌,
}
use opendray_v2_lab.Plugin.Contributions.{ActivityBarItem, View, Contributes, is_empty}
use opendray_v2_lab.Plugin.Manifest.{EnginesV1, Provider, is_v1, effective_form}

abbrev pub no_contributes : Contributes
no_contributes = record {
  commands = [];
  status_bar = [];
  keybindings = [];
  menus = [];
  activity_bar = [];
  views = [];
  panels = [];
  editor_actions = [];
  session_actions = [];
}

abbrev pub contributes_or : Option Contributes → Contributes
contributes_or none = no_contributes
contributes_or (some c) = c

abbrev pub title_of : Provider → Bytes
title_of p = if is_empty p.display_name then p.name else p.display_name

abbrev pub panel_view : Provider → View
panel_view p = record {
  id = p.name;
  title = title_of p;
  container = codes "activityBar";
  icon = [];
  when = [];
  render = codes "declarative";
  entry = [];
}

abbrev pub panel_item : Provider → ActivityBarItem
panel_item p = record { id = p.name; icon = p.icon; title = title_of p; view_id = p.name }

unfoldable pub add_view : Provider → List View → List View
add_view p views = if any (λ v. v.id == p.name) views then views else views ++ panel_view p ∷ []

unfoldable pub add_item : Provider → List ActivityBarItem → List ActivityBarItem
add_item p items = if any (λ a. a.id == p.name) items then items else items ++ panel_item p ∷ []

-- A panel gets a view and an item of the activity bar, unless it has them.
unfoldable pub with_panel : Provider → Contributes → Contributes
unfolding add_view add_item
with_panel p c =
    if p.provider_type == codes "panel"
    then record c { views = add_view p c.views; activity_bar = add_item p c.activity_bar }
    else c

abbrev pub any_host : EnginesV1
any_host = record { opendray = codes ">=0"; node = []; deno = [] }

unfoldable pub overlay : Provider → Provider
unfolding with_panel effective_form
overlay p = record p {
  publisher = codes "opendray-builtin";
  engines = some any_host;
  form = effective_form p;
  activation = codes "onStartup" ∷ [];
  contributes = some (with_panel p (contributes_or p.contributes));
  permissions = none;
}

unfoldable pub synthesize : Provider → Provider
unfolding is_v1 overlay
synthesize p = if is_v1 p then p else overlay p
