-- ===== src/Plugin/Hooks.antt =====
-- plugin/hooks.go: the bus that hands terminal events to the plugins that asked for them. A goroutine
-- that the bus starts is an element of the list that `dispatch` returns; a lock is held over each
-- function. net/http's client and the local callbacks are parameters.
pub mod Reach
mod Tests
use opendray_v2_lab.Common.Dict.{lookup, insert, delete}
use opendray_v2_lab.Common.{
  ℕ, ◌+◌, ◌%◌, ◌^◌, Bool, true, false, ◌||◌, List, [], ◌∷◌, ◌++◌, map, Option, none, some, String,
  ◌==◌, nat_eq, string_eq, if◌then◌else◌, any, leb,
}

pub record HookEvent : Type 0 where
  pub kind : String
  pub session_id : String
  pub content : String
  pub timestamp : ℕ

pub record Subscriber : Type 0 where
  pub callback_url : String
  pub hooks : List (String × Bool)

-- The callback of a local listener is known by the listener's id.
pub record LocalListener : Type 0 where
  pub hooks : List (String × Bool)

pub record HookBus : Type 0 where
  pub subscribers : List (String × Subscriber)
  pub locals : List (ℕ × LocalListener)
  pub next_local_id : ℕ

pub new_hook_bus : HookBus
new_hook_bus = record { subscribers = []; locals = []; next_local_id = 0 }

abbrev pub is_set : Option Bool → Bool
is_set none = false
is_set (some b) = b

-- `set[h]`
unfoldable pub in_set : List (String × Bool) → String → Bool
in_set set hook = is_set (lookup hook set)

-- The loop `set[h] = true`.
unfoldable pub hook_set : List (String × Bool) → List String → List (String × Bool)
hook_set set [] = set
hook_set set (h ∷ hooks) = hook_set (insert h true set) hooks

-- The number identifies the listener for the function that unsubscribes it.
pub subscribe_local : HookBus → List String → HookBus × ℕ
subscribe_local bus hooks =
    let id = (bus.next_local_id + 1) % 2 ^ 64 in
    (
      record bus {
        next_local_id = id;
        locals = insert id (record { hooks = hook_set [] hooks }) bus.locals;
      },
      id,
    )

-- The function that `SubscribeLocal` returns.
pub unsubscribe_local : HookBus → ℕ → HookBus
unsubscribe_local bus id = record bus { locals = delete id bus.locals }

pub register : HookBus → String → String → List String → HookBus
register bus plugin_name callback_url hooks = record bus {
  subscribers =
      insert plugin_name (record { callback_url = callback_url; hooks = hook_set [] hooks })
        bus.subscribers;
}

pub unregister : HookBus → String → HookBus
unregister bus plugin_name = record bus { subscribers = delete plugin_name bus.subscribers }

-- A goroutine of the bus: a callback over HTTP, or a local one.
pub data Delivery : Type 0 where
  post : String → String → HookEvent → Delivery
  call : ℕ → HookEvent → Delivery

posts : HookEvent → List (String × Subscriber) → List Delivery
posts event [] = []
posts event ((name, sub) ∷ subs) =
    if in_set sub.hooks event.kind
    then post name sub.callback_url event ∷ posts event subs
    else posts event subs

calls : HookEvent → List (ℕ × LocalListener) → List Delivery
calls event [] = []
calls event ((id, lis) ∷ locals) =
    if in_set lis.hooks event.kind then call id event ∷ calls event locals else calls event locals

pub dispatch : HookBus → HookEvent → List Delivery
unfolding posts calls
dispatch bus event = posts event bus.subscribers ++ calls event bus.locals

-- What client.Post gives: an error, or a status.
pub data Posted : Type 0 where
  post_error : Posted
  status : ℕ → Posted

-- What `deliver` logs, if anything.
pub data Warning : Type 0 where
  quiet delivery_failed : Warning
  callback_error : ℕ → Warning

pub deliver : (String → HookEvent → Posted) → String → HookEvent → Warning
deliver client_post url event = elim (client_post url event) [
  | post_error ↦ delivery_failed
  | status code ↦ if leb 400 code then callback_error code else quiet
]

-- The names and hooks of the registered plugins.
pub list_subscriptions : HookBus → List (String × List String)
list_subscriptions bus =
    map (λ (s : String × Subscriber). (s.0, map (λ (h : String × Bool). h.0) s.1.hooks))
      bus.subscribers

pub dispatch_session_event : HookBus → String → String → ℕ → List Delivery
dispatch_session_event bus hook_type session_id now =
    dispatch bus
      (record { kind = hook_type; session_id = session_id; content = ""; timestamp = now })

abbrev pub on_output : String
on_output = "onOutput"

-- The two loops that look for a listener.
has_listener : HookBus → Bool
has_listener bus =
    any (λ (s : String × Subscriber). in_set s.1.hooks on_output) bus.subscribers
    || any (λ (l : ℕ × LocalListener). in_set l.1.hooks on_output) bus.locals

abbrev pub output_event : String → String → ℕ → HookEvent
output_event session_id content now = record {
  kind = on_output;
  session_id = session_id;
  content = content;
  timestamp = now;
}

pub dispatch_output : HookBus → String → String → ℕ → List Delivery
unfolding has_listener
dispatch_output bus session_id content now =
    if has_listener bus then dispatch bus (output_event session_id content now) else []
