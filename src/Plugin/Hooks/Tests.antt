-- ===== src/Plugin/Hooks/Tests.antt =====
-- A bus with one plugin, and its theorems there.
use opendray_v2_lab.Common.Dict.{lookup, insert, delete}
use opendray_v2_lab.Common.{◌≡◌, refl, true, [], ◌∷◌, string_eq}
use opendray_v2_lab.Plugin.Hooks.{
  HookBus, new_hook_bus, subscribe_local, unsubscribe_local, dispatch_session_event,
  list_subscriptions, deliver, posts, calls, hook_set, in_set, call, status, callback_error,
  dispatch, output_event,
}

abbrev bus : HookBus
bus = record {
  subscribers =
      ("kanban", record { callback_url = "http://k"; hooks = ("onOutput", true) ∷ [] }) ∷ [];
  locals = [];
  next_local_id = 0;
}

listened :
    dispatch_session_event (subscribe_local new_hook_bus ("onStart" ∷ [])).0 "onStart" "s1" 7
    ≡ call 1 (record { kind = "onStart"; session_id = "s1"; content = ""; timestamp = 7 }) ∷ []
unfolding dispatch_session_event subscribe_local new_hook_bus hook_set dispatch posts calls lookup
    insert in_set
listened = refl

left : (unsubscribe_local (subscribe_local new_hook_bus ("onStart" ∷ [])).0 1).locals ≡ []
unfolding unsubscribe_local subscribe_local new_hook_bus hook_set insert delete
left = refl

listed : list_subscriptions bus ≡ ("kanban", "onOutput" ∷ []) ∷ []
unfolding list_subscriptions
listed = refl

refused :
    deliver (λ url event. status 500) "http://k" (output_event "s1" "hello" 7) ≡ callback_error 500
unfolding deliver
refused = refl
