-- ===== src/Plugin/Hooks/Reach.antt =====
-- Which plugins and listeners an event reaches.
use mathlib.Core.Path.{ap₂}
use opendray_v2_lab.Common.Dict.{
  lookup, insert, lookup-insert, lookup-delete, Distinct, Distinct-insert, Distinct-delete,
}
use opendray_v2_lab.Common.{
  ℕ, ◌≡◌, refl, ap, ◌∙◌, sym, Bool, true, false, ◌||◌, List, [], ◌∷◌, ◌++◌, arith, Option, none,
  some, String, ◌==◌, nat_eq, string_eq, if◌then◌else◌, any, any-append, Bool-cases, inl, inr,
}
use opendray_v2_lab.Plugin.Hooks.{
  HookBus, HookEvent, Subscriber, LocalListener, in_set, hook_set, register, unregister, Delivery,
  post, call, posts, calls, dispatch, has_listener, output_event, dispatch_output,
}

lookup-hook_set :
    (set : List (String × Bool)) (hooks : List String) (hook : String)
    → in_set (hook_set set hooks) hook ≡ (any (λ h. h == hook) hooks || in_set set hook)
unfolding hook_set
lookup-hook_set set [] hook = refl
lookup-hook_set set (h ∷ hooks) hook =
    lookup-hook_set (insert h true set) hooks hook
    ∙ unfold in_set in ground (arith, lookup-insert h hook true set)

-- No listener for an event means that nothing is started.
posts_none :
    (event : HookEvent) (subs : List (String × Subscriber))
    → any (λ (s : String × Subscriber). in_set s.1.hooks event.kind) subs ≡ false
    → posts event subs ≡ []
unfolding posts
posts_none event [] h = refl
posts_none event ((name, sub) ∷ subs) h = ground (arith, posts_none event subs)

calls_none :
    (event : HookEvent) (locals : List (ℕ × LocalListener))
    → any (λ (l : ℕ × LocalListener). in_set l.1.hooks event.kind) locals ≡ false
    → calls event locals ≡ []
unfolding calls
calls_none event [] h = refl
calls_none event ((id, lis) ∷ locals) h = ground (arith, calls_none event locals)

-- `DispatchOutput` starts the same goroutines as `Dispatch` of the output event: its search for a
-- listener only saves work.
pub dispatch_output_lem :
    (bus : HookBus) (session_id content : String) (now : ℕ)
    → dispatch_output bus session_id content now
      ≡ dispatch bus (output_event session_id content now)
unfolding dispatch_output dispatch
dispatch_output_lem bus session_id content now = elim (Bool-cases (has_listener bus)) [
  | inl yes_one ↦ rw yes_one
  | inr no_one ↦ rw no_one (
      sym (
        ap₂ ◌++◌
          (posts_none (output_event session_id content now) bus.subscribers
            (unfold has_listener in ground arith))
          (calls_none (output_event session_id content now) bus.locals
            (unfold has_listener in ground arith))))
]

-- A callback of the plugin.
abbrev pub to_plugin : String → Delivery → Bool
to_plugin name (post n url event) = n == name
to_plugin name (call id event) = false

abbrev hooked : Option Subscriber → String → Bool
hooked none kind = false
hooked (some sub) kind = in_set sub.hooks kind

posts_unknown :
    (event : HookEvent) (name : String) (subs : List (String × Subscriber))
    → lookup name subs ≡ none
    → any (to_plugin name) (posts event subs) ≡ false
unfolding posts lookup
posts_unknown event name [] h = refl
posts_unknown event name ((n, sub) ∷ subs) h = ground (arith, posts_unknown event name subs)

any-posts :
    (event : HookEvent) (name : String) (subs : List (String × Subscriber))
    → Distinct subs
    → any (to_plugin name) (posts event subs) ≡ hooked (lookup name subs) event.kind
unfolding posts lookup
any-posts event name [] d = refl
any-posts event name ((n, sub) ∷ subs) d = elim (Bool-cases (n == name)) [
  | inl same ↦
      let rest : any (to_plugin name) (posts event subs) ≡ false =
        posts_unknown event name subs
          (ap (λ k. lookup k subs) (sym ((string_eq.equals_iff n name).0 same)) ∙ d.0) in
      ground (arith, same, rest)
  | inr other ↦ ground (arith, other, any-posts event name subs d.1)
]

any-calls :
    (event : HookEvent) (name : String) (locals : List (ℕ × LocalListener))
    → any (to_plugin name) (calls event locals) ≡ false
unfolding calls
any-calls event name [] = refl
any-calls event name ((id, lis) ∷ locals) = ground (arith, any-calls event name locals)

any-dispatch :
    (bus : HookBus) (event : HookEvent) (name : String)
    → Distinct bus.subscribers
    → any (to_plugin name) (dispatch bus event) ≡ hooked (lookup name bus.subscribers) event.kind
unfolding dispatch
any-dispatch bus event name d =
    any-append (to_plugin name) (posts event bus.subscribers) (calls event bus.locals)
    ∙ ground (arith, any-posts event name bus.subscribers d, any-calls event name bus.locals)

-- After `Register` an event is posted to that plugin exactly if its kind is among the hooks of this
-- call, those of an earlier registration being gone; for every other plugin nothing changes.
pub dispatch-register :
    (bus : HookBus) (plugin_name url : String) (hooks : List String) (event : HookEvent)
    (name : String)
    → Distinct bus.subscribers
    → any (to_plugin name) (dispatch (register bus plugin_name url hooks) event) ≡ (
        if plugin_name == name
        then any (λ h. h == event.kind) hooks
        else any (to_plugin name) (dispatch bus event))
unfolding register
dispatch-register bus plugin_name url hooks event name d =
    any-dispatch (register bus plugin_name url hooks) event name
      (Distinct-insert plugin_name _ bus.subscribers d)
    ∙ ap (λ o. hooked o event.kind)
        (lookup-insert plugin_name name (record { callback_url = url; hooks = hook_set [] hooks })
          bus.subscribers)
    ∙ ground (arith, any-dispatch bus event name d, lookup-hook_set [] hooks event.kind, unset)
  where
    unset : in_set [] event.kind ≡ false
    unset = unfold in_set lookup in refl

-- After `Unregister` nothing is posted to that plugin, and for every other plugin nothing changes.
pub dispatch-unregister :
    (bus : HookBus) (plugin_name : String) (event : HookEvent) (name : String)
    → Distinct bus.subscribers
    → any (to_plugin name) (dispatch (unregister bus plugin_name) event)
      ≡ (if plugin_name == name then false else any (to_plugin name) (dispatch bus event))
unfolding unregister
dispatch-unregister bus plugin_name event name d =
    any-dispatch (unregister bus plugin_name) event name
      (Distinct-delete plugin_name bus.subscribers d)
    ∙ ap (λ o. hooked o event.kind) (lookup-delete plugin_name name bus.subscribers)
    ∙ ground (arith, any-dispatch bus event name d)
