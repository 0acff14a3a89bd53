-- ===== src/Bridge/Manager/Tests.antt =====
-- A manager with two connections of one plugin, and its theorems there.
use opendray_v2_lab.Common.Dict.{lookup, insert, delete}
use opendray_v2_lab.Common.{◌≡◌, refl, true, false, [], ◌∷◌, some, nat_eq, Memᴰ}
use opendray_v2_lab.Bridge.Manager.{
  Manager, Conn, conns_of, new_manager, register, active_conns, unsubscribe, write_revoke_envelopes,
  write_envelope, invalidate_consent, revoked,
}
use opendray_v2_lab.Bridge.Manager.Revoke.{invalidate_consent_closes}

abbrev first : Conn
first = record {
  plugin = "kanban";
  subs = ("a", record { cap = "events"; done = 0 }) ∷ ("b", record { cap = "fs"; done = 1 }) ∷ [];
  closed = false;
}

abbrev second : Conn
second = record { plugin = "kanban"; subs = []; closed = false }

abbrev two_conns : Manager
two_conns = record {
  by_plugin = ("kanban", 0 ∷ 1 ∷ []) ∷ [];
  conns = (0, first) ∷ (1, second) ∷ [];
  next_conn = 2;
  next_done = 2;
  closed_dones = [];
  revokes = [];
  sent = [];
}

registered : register new_manager "kanban" ≡ (
  record {
    by_plugin = ("kanban", 0 ∷ []) ∷ [];
    conns = (0, record { plugin = "kanban"; subs = []; closed = false }) ∷ [];
    next_conn = 1;
    next_done = 0;
    closed_dones = [];
    revokes = [];
    sent = [];
  },
  0,
)
unfolding register new_manager conns_of lookup insert
registered = refl

active : active_conns two_conns "kanban" ≡ 2
unfolding active_conns conns_of lookup
active = refl

unsubscribed : (unsubscribe two_conns 0 "b").closed_dones ≡ 1 ∷ []
unfolding unsubscribe lookup insert delete
unsubscribed = refl

written :
    (write_revoke_envelopes (λ c. true) two_conns 1 ("a" ∷ "b" ∷ [])).sent
    ≡ (1, revoked "a") ∷ (1, revoked "b") ∷ []
unfolding write_revoke_envelopes write_envelope lookup
written = refl

failed : (write_revoke_envelopes (λ c. false) two_conns 1 ("a" ∷ "b" ∷ [])).sent ≡ []
unfolding write_revoke_envelopes write_envelope lookup
failed = refl

found : lookup 0 two_conns.conns ≡ some first
unfolding lookup
found = refl

invalidate_consent_closes_example :
    Memᴰ 0 (invalidate_consent two_conns "kanban" "events").closed_dones
unfolding conns_of lookup
invalidate_consent_closes_example =
    invalidate_consent_closes "events" 0 first ("a", record { cap = "events"; done = 0 })
      (Memᴰ.head refl) refl two_conns "kanban" found refl
