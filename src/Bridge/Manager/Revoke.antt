-- ===== src/Bridge/Manager/Revoke.antt =====
-- What a revocation does to the connections and their subscriptions.
use mathlib.Core.Option
use opendray_v2_lab.Common.Dict.{lookup, lookup-insert}
use opendray_v2_lab.Common.{
  ℕ, ◌≡◌, refl, ap, ◌∙◌, sym, Bool, true, not, List, [], ◌∷◌, arith, Option, none, some, String,
  ◌==◌, nat_eq, nat_beq, nat_beq_iff, string_eq, if◌then◌else◌, keep, any, Memᴰ, mem-append_left,
  mem-append_right, mem-map, mem-keep, subst, Bool-cases, Option-cases, inl, inr,
}
use opendray_v2_lab.Bridge.Manager.{
  Manager, Conn, SubEntry, conns_of, strip, has_cap, revoke_conn, revoke_all, invalidate_consent,
}

keep_idem {ℓ} : {A : Type ℓ} (p : A → Bool) (xs : List A) → keep p (keep p xs) ≡ keep p xs
keep_idem p [] = refl
keep_idem p (x ∷ xs) = elim (Bool-cases (p x)) [
  | inl e ↦ rw (e, e) (ap (◌∷◌ x) (keep_idem p xs))
  | inr e ↦ rw e (keep_idem p xs)
]

strip_idem :
    (cap : String) (o : Option Conn)
    → Option.map (strip cap) (Option.map (strip cap) o) ≡ Option.map (strip cap) o
strip_idem cap none = refl
strip_idem cap (some conn) =
    ap (λ (s : List (String × SubEntry)). some (record conn { subs = s }))
      (keep_idem (λ s. not (has_cap cap s)) conn.subs)

-- Whether the connection is among those.
abbrev pub among : ℕ → List ℕ → Bool
among c cs = any (λ other. other == c) cs

lookup-revoke_conn :
    (cap : String) (m : Manager) (x c : ℕ)
    → lookup c (revoke_conn cap m x).conns
      ≡ (if x == c then Option.map (strip cap) (lookup c m.conns) else lookup c m.conns)
unfolding revoke_conn
lookup-revoke_conn cap m x c = elim (Option-cases (lookup x m.conns)) [
  | inl e ↦ ground (arith, e, nat_beq_iff x c)
  | inr (conn, e) ↦
      rw (e, revoke_conn)
        (ground (arith, e, nat_beq_iff x c, lookup-insert x c (strip cap conn) m.conns))
]

lookup-revoke_all :
    (cap : String) (m : Manager) (cs : List ℕ) (c : ℕ)
    → lookup c (revoke_all cap m cs).conns
      ≡ (if among c cs then Option.map (strip cap) (lookup c m.conns) else lookup c m.conns)
unfolding revoke_all
lookup-revoke_all cap m [] c = refl
lookup-revoke_all cap m (x ∷ cs) c = ground (
  arith,
  lookup-revoke_all cap (revoke_conn cap m x) cs c,
  lookup-revoke_conn cap m x c,
  strip_idem cap (lookup c m.conns),
)

-- After `InvalidateConsent` every connection that was registered for the plugin has lost exactly its
-- subscriptions with that capability, and every other connection is as it was.
pub lookup-invalidate_consent :
    (m : Manager) (plugin cap : String) (c : ℕ)
    → lookup c (invalidate_consent m plugin cap).conns ≡ (
        if among c (conns_of m plugin)
        then Option.map (strip cap) (lookup c m.conns)
        else lookup c m.conns)
unfolding invalidate_consent
lookup-invalidate_consent m plugin cap c = lookup-revoke_all cap m (conns_of m plugin) c

closed-revoke_conn :
    (cap : String) (m : Manager) (x : ℕ) {d : ℕ}
    → Memᴰ d m.closed_dones
    → Memᴰ d (revoke_conn cap m x).closed_dones
closed-revoke_conn cap m x closed = elim (Option-cases (lookup x m.conns)) [
  | inl e ↦ unfold revoke_conn in rw (e, revoke_conn) closed
  | inr (conn, e) ↦ unfold revoke_conn in rw (e, revoke_conn) (mem-append_left _ closed)
]

closed-revoke_all :
    (cap : String) (m : Manager) (cs : List ℕ) {d : ℕ}
    → Memᴰ d m.closed_dones
    → Memᴰ d (revoke_all cap m cs).closed_dones
unfolding revoke_all
closed-revoke_all cap m [] closed = closed
closed-revoke_all cap m (x ∷ cs) closed =
    closed-revoke_all cap (revoke_conn cap m x) cs (closed-revoke_conn cap m x closed)

module _ (cap : String) (c : ℕ) (conn : Conn) (s : String × SubEntry) (has : Memᴰ s conn.subs)
    (hit : has_cap cap s ≡ true) where
  revoke_conn_closes :
      (m : Manager)
      → lookup c m.conns ≡ some conn
      → Memᴰ s.1.done (revoke_conn cap m c).closed_dones
  unfolding revoke_conn
  revoke_conn_closes m e =
      rw (e, revoke_conn)
        (mem-append_right m.closed_dones
          (mem-map (λ (t : String × SubEntry). t.1.done) (mem-keep (has_cap cap) has hit)))

  revoke_all_closes :
      (m : Manager) (cs : List ℕ)
      → lookup c m.conns ≡ some conn
      → among c cs ≡ true
      → Memᴰ s.1.done (revoke_all cap m cs).closed_dones
  unfolding revoke_all
  revoke_all_closes m [] e a = cc
  revoke_all_closes m (x ∷ cs) e a = elim (Bool-cases (nat_beq x c)) [
    | inl same ↦ closed-revoke_all cap (revoke_conn cap m x) cs (
        subst (λ y. Memᴰ s.1.done (revoke_conn cap m y).closed_dones)
          (sym ((nat_beq_iff x c).0 same)) (revoke_conn_closes m e))
    | inr other ↦
        revoke_all_closes (revoke_conn cap m x) cs (lookup-revoke_conn cap m x c ∙ rw other e)
          (rw other at a)
  ]

  -- When `InvalidateConsent` returns, the `done` channel of every subscription with that capability,
  -- on every connection that was registered for the plugin, is closed.
  pub invalidate_consent_closes :
      (m : Manager) (plugin : String)
      → lookup c m.conns ≡ some conn
      → among c (conns_of m plugin) ≡ true
      → Memᴰ s.1.done (invalidate_consent m plugin cap).closed_dones
  unfolding invalidate_consent
  invalidate_consent_closes m plugin e a = revoke_all_closes m (conns_of m plugin) e a
