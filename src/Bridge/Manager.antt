-- ===== src/Bridge/Manager.antt =====
-- plugin/bridge/manager.go: the live connections of the plugins, their subscriptions, and the
-- revocation of a capability. Connections and `done` channels are numbers, which stand for the
-- pointers; a method runs as one step. `closed_dones` are the channels that have been closed, `revokes`
-- the goroutines that were started, each with its connection and its subscription ids, and `sent` the
-- messages that reached the sockets, oldest first. `closed` is also the state of `closeOnce`.
pub mod Revoke
pub mod Close
mod Tests
use opendray_v2_lab.Common.Dict.{lookup, insert, delete}
use opendray_v2_lab.Common.{
  ℕ, suc, ◌+◌, Bool, true, false, not, List, [], ◌∷◌, ◌++◌, map, Option, none, some, String, ◌==◌,
  nat_eq, string_eq, if◌then◌else◌, keep, length,
}

pub record SubEntry : Type 0 where
  pub cap : String
  pub done : ℕ

pub record Conn : Type 0 where
  pub plugin : String
  pub subs : List (String × SubEntry)
  pub closed : Bool

-- The stream-end envelope with its EPERM error; the other fields are the same in each.
pub record Envelope : Type 0 where
  pub id : String
  pub code : String
  pub message : String
  pub stream : String

pub record Manager : Type 0 where
  pub by_plugin : List (String × List ℕ)
  pub conns : List (ℕ × Conn)
  pub next_conn : ℕ
  pub next_done : ℕ
  pub closed_dones : List ℕ
  pub revokes : List (ℕ × List String)
  pub sent : List (ℕ × Envelope)

pub new_manager : Manager
new_manager = record {
  by_plugin = [];
  conns = [];
  next_conn = 0;
  next_done = 0;
  closed_dones = [];
  revokes = [];
  sent = [];
}

abbrev pub list_or_nil : Option (List ℕ) → List ℕ
list_or_nil none = []
list_or_nil (some cs) = cs

-- `m.byPlugin[plugin]`
pub conns_of : Manager → String → List ℕ
conns_of m plugin = list_or_nil (lookup plugin m.by_plugin)

pub register : Manager → String → Manager × ℕ
register m plugin =
    let id = m.next_conn in
    (
      record m {
        by_plugin = insert plugin (conns_of m plugin ++ id ∷ []) m.by_plugin;
        conns = insert id (record { plugin = plugin; subs = []; closed = false }) m.conns;
        next_conn = suc id;
      },
      id,
    )

-- A plugin with no connection left has no entry.
abbrev pub put_conns : String → List ℕ → List (String × List ℕ) → List (String × List ℕ)
put_conns plugin [] m = delete plugin m
put_conns plugin (c ∷ cs) m = insert plugin (c ∷ cs) m

-- `Unregister`, for the connection `c` of the plugin.
pub unregister : Manager → ℕ → String → Manager
unregister m c plugin = record m {
  by_plugin = put_conns plugin (keep (λ other. not (other == c)) (conns_of m plugin)) m.by_plugin;
}

pub active_conns : Manager → String → ℕ
active_conns m plugin = length (conns_of m plugin)

-- `Conn.Subscribe`; `none` is the error for an id in use. The number is the `done` channel.
pub subscribe : Manager → ℕ → String → String → Option (Manager × ℕ)
subscribe m c sub_id cap = elim (lookup c m.conns) [
  | none ↦ none
  | some conn ↦ elim (lookup sub_id conn.subs) [
    | some entry ↦ none
    | none ↦
        let entry : SubEntry = record { cap = cap; done = m.next_done } in
        some (
          record m {
            conns = insert c (record conn { subs = insert sub_id entry conn.subs }) m.conns;
            next_done = suc m.next_done;
          },
          m.next_done,
        )
  ]
]

-- `Conn.Unsubscribe`
pub unsubscribe : Manager → ℕ → String → Manager
unsubscribe m c sub_id = elim (lookup c m.conns) [
  | none ↦ m
  | some conn ↦ elim (lookup sub_id conn.subs) [
    | none ↦ m
    | some entry ↦ record m {
      conns = insert c (record conn { subs = delete sub_id conn.subs }) m.conns;
      closed_dones = m.closed_dones ++ entry.done ∷ [];
    }
  ]
]

abbrev pub dones : List (String × SubEntry) → List ℕ
dones = map (λ (s : String × SubEntry). s.1.done)

abbrev pub ids : List (String × SubEntry) → List String
ids = map (λ (s : String × SubEntry). s.0)

abbrev pub has_cap : String → String × SubEntry → Bool
has_cap cap s = s.1.cap == cap

-- `removeByCap` on a connection: what stays.
abbrev pub strip : String → Conn → Conn
strip cap conn = record conn { subs = keep (λ s. not (has_cap cap s)) conn.subs }

-- A goroutine is started if a subscription was removed.
abbrev pub start_revoke : ℕ → List String → List (ℕ × List String) → List (ℕ × List String)
start_revoke c [] revokes = revokes
start_revoke c (i ∷ is) revokes = revokes ++ (c, i ∷ is) ∷ []

-- One round of the loop of `InvalidateConsent`.
revoke_conn : String → Manager → ℕ → Manager
revoke_conn cap m c = elim (lookup c m.conns) [
  | none ↦ m
  | some conn ↦
      let matched = keep (has_cap cap) conn.subs in
      record m {
        conns = insert c (strip cap conn) m.conns;
        closed_dones = m.closed_dones ++ dones matched;
        revokes = start_revoke c (ids matched) m.revokes;
      }
]

revoke_all : String → Manager → List ℕ → Manager
unfolding revoke_conn
revoke_all cap m [] = m
revoke_all cap m (c ∷ cs) = revoke_all cap (revoke_conn cap m c) cs

pub invalidate_consent : Manager → String → String → Manager
invalidate_consent m plugin cap = revoke_all cap m (conns_of m plugin)

-- `WriteEnvelope`: an error, `none`, on a closed connection or where the socket fails.
pub write_envelope : (ℕ → Bool) → Manager → ℕ → Envelope → Option Manager
write_envelope socket_ok m c env = elim (lookup c m.conns) [
  | none ↦ none
  | some conn ↦
      if conn.closed
      then none
      else if socket_ok c
      then some (record m { sent = m.sent ++ (c, env) ∷ [] })
      else none
]

abbrev pub revoked : String → Envelope
revoked sub_id = record {
  id = sub_id;
  code = "EPERM";
  message = "capability revoked";
  stream = "end";
}

-- The goroutine: a failed write is logged, and the next one tried.
pub write_revoke_envelopes : (ℕ → Bool) → Manager → ℕ → List String → Manager
write_revoke_envelopes socket_ok m c [] = m
write_revoke_envelopes socket_ok m c (i ∷ is) =
    let next : Manager = elim (write_envelope socket_ok m c (revoked i)) [
      | none ↦ m
      | some m' ↦ m'
    ] in
    write_revoke_envelopes socket_ok next c is

-- `Conn.Close`: nothing the second time.
pub close : Manager → ℕ → Manager
close m c = elim (lookup c m.conns) [
  | none ↦ m
  | some conn ↦
      if conn.closed
      then m
      else unregister
          (record m {
            conns = insert c (record conn { subs = []; closed = true }) m.conns;
            closed_dones = m.closed_dones ++ dones conn.subs;
          })
          c conn.plugin
]
