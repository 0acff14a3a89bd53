-- ===== src/Bridge/Manager/Close.antt =====
-- Closing a connection.
use opendray_v2_lab.Common.Dict.{lookup, insert, lookup-insert, lookup-delete}
use opendray_v2_lab.Common.{
  ℕ, suc, ◌≡◌, refl, ap, ◌∙◌, Bool, true, false, not, List, [], ◌∷◌, ◌++◌, arith, none, some,
  String, nat_eq, nat_beq, nat_beq_iff, string_eq, if◌then◌else◌, keep,
}
use opendray_v2_lab.Bridge.Manager.{
  Manager, Conn, SubEntry, Envelope, conns_of, list_or_nil, put_conns, dones, unregister, close,
  subscribe, write_envelope, invalidate_consent,
}
use opendray_v2_lab.Bridge.Manager.Revoke.{among, lookup-invalidate_consent}

among-keep : (c : ℕ) (cs : List ℕ) → among c (keep (λ other. not (nat_beq other c)) cs) ≡ false
among-keep c [] = refl
among-keep c (x ∷ cs) = ground (arith, among-keep c cs)

lookup-put_conns :
    (plugin : String) (cs : List ℕ) (m : List (String × List ℕ))
    → list_or_nil (lookup plugin (put_conns plugin cs m)) ≡ cs
lookup-put_conns plugin [] m =
    ground (arith, lookup-delete plugin plugin m, string_eq.equals_iff plugin plugin)
lookup-put_conns plugin (c ∷ cs) m =
    ground (arith, lookup-insert plugin plugin (c ∷ cs) m, string_eq.equals_iff plugin plugin)

-- The plugin's connections lose exactly `c`.
conns_of-unregister :
    (m : Manager) (c : ℕ) (plugin : String)
    → conns_of (unregister m c plugin) plugin
      ≡ keep (λ other. not (nat_beq other c)) (conns_of m plugin)
unfolding conns_of unregister
conns_of-unregister m c plugin = lookup-put_conns plugin _ m.by_plugin

abbrev pub shut : Conn → Conn
shut conn = record conn { subs = []; closed = true }

-- The manager as `Close` leaves it before it takes the connection off the list.
abbrev emptied : Manager → ℕ → Conn → Manager
emptied m c conn = record m {
  conns = insert c (shut conn) m.conns;
  closed_dones = m.closed_dones ++ dones conn.subs;
}

-- A connection that is in the store, and open.
module _ (m : Manager) (c : ℕ) (conn : Conn) (e : lookup c m.conns ≡ some conn)
    (o : conn.closed ≡ false) where
  close_eq : close m c ≡ unregister (emptied m c conn) c conn.plugin
  unfolding close
  close_eq = rw (e, close, o)

  lookup-close :
      (j : ℕ)
      → lookup j (close m c).conns ≡ (if nat_beq c j then some (shut conn) else lookup j m.conns)
  lookup-close j =
      ap (λ (n : Manager). lookup j n.conns) close_eq
      ∙ unfold unregister in lookup-insert c j (shut conn) m.conns

  lookup-close_self : lookup c (close m c).conns ≡ some (shut conn)
  lookup-close_self = lookup-close c ∙ ground (arith, nat_beq_iff c c)

  -- The first `Close` of a connection closes the `done` channels of its subscriptions, drops them and
  -- marks the connection closed; it leaves every other connection alone, takes this one off its
  -- plugin's list, and from then on every write to it fails.
  pub close_lem :
      (socket_ok : ℕ → Bool) (j : ℕ) (env : Envelope)
      → (lookup j (close m c).conns ≡ (if nat_beq c j then some (shut conn) else lookup j m.conns))
        × ((close m c).closed_dones ≡ m.closed_dones ++ dones conn.subs)
        × (among c (conns_of (close m c) conn.plugin) ≡ false)
        × (write_envelope socket_ok (close m c) c env ≡ none)
  close_lem socket_ok j env = (
    lookup-close j,
    ap (λ (n : Manager). n.closed_dones) close_eq ∙ unfold unregister in refl,
    ap (λ n. among c (conns_of n conn.plugin)) close_eq
        ∙ ap (among c) (conns_of-unregister (emptied m c conn) c conn.plugin)
        ∙ among-keep c (conns_of (emptied m c conn) conn.plugin),
    unfold write_envelope in rw (lookup-close_self, write_envelope),
  )

  -- A second `Close` does nothing.
  pub close-close : close (close m c) c ≡ close m c
  close-close = unfold close in rw (lookup-close_self, close)

  -- `Subscribe` does not look at `closed`: on a closed connection it still registers a subscription,
  -- which a revocation of its capability does not find, since the connection is off the list.
  pub subscribe-close :
      (sub_id cap : String)
      → (m' : Manager) × (done : ℕ) × (subscribe (close m c) c sub_id cap ≡ some (m', done))
        × (lookup c m'.conns
            ≡ some (record (shut conn) { subs = (sub_id, record { cap = cap; done = done }) ∷ [] }))
        × (lookup c (invalidate_consent m' conn.plugin cap).conns ≡ lookup c m'.conns)
  subscribe-close sub_id cap = (
    late,
    (close m c).next_done,
    unfold subscribe lookup insert in rw (lookup-close_self, subscribe),
    found,
    lookup-invalidate_consent late conn.plugin cap c ∙ ground (arith, gone),
  )
    where
      entry : SubEntry
      entry = record { cap = cap; done = (close m c).next_done }

      late : Manager
      late = record (close m c) {
        conns = insert c (record (shut conn) { subs = (sub_id, entry) ∷ [] }) (close m c).conns;
        next_done = suc (close m c).next_done;
      }

      found : lookup c late.conns ≡ some (record (shut conn) { subs = (sub_id, entry) ∷ [] })
      found =
          lookup-insert c c (record (shut conn) { subs = (sub_id, entry) ∷ [] }) (close m c).conns
          ∙ ground (arith, nat_beq_iff c c)

      gone : among c (conns_of late conn.plugin) ≡ false
      gone =
          unfold conns_of in
          ap (λ (n : Manager). among c (list_or_nil (lookup conn.plugin n.by_plugin))) close_eq
          ∙ ap (among c) (conns_of-unregister (emptied m c conn) c conn.plugin)
          ∙ among-keep c (conns_of (emptied m c conn) conn.plugin)
