-- ===== src/Plugin/Contributions/Entries.antt =====
-- plugin/contributions/registry.go: what `Set`, `Remove` and `Has` do to the map of the registry.
use opendray_v2_lab.Common.Dict.{
  lookup, lookup-insert, lookup-delete, AllValues, AllValues-insert, AllValues-delete, Distinct,
  Distinct-insert, Distinct-delete,
}
use opendray_v2_lab.Common.{
  ◌≡◌, ap, ◌∙◌, inl, inr, false, not, none, some, Bytes, bytes_eq, ◌==◌, if◌then◌else◌, Bool-cases,
  arith,
}
use opendray_v2_lab.Plugin.Contributions.{
  Registry, Contributes, is_zero, set_contributions, remove, has, is_some,
}

-- No plugin stands twice, and none has an empty set of contributions.
abbrev pub IsWellFormed : Registry → Type 0
IsWellFormed r = Distinct r.by_plugin × AllValues (λ c. is_zero c ≡ false) r.by_plugin

-- After `Set`, the plugin's entry is its new set, or missing when that set is empty, `Has` tells
-- which, and all other plugins have the entries they had.
pub set_contributions_lem :
    (r : Registry) (p q : Bytes) (c : Contributes)
    → (lookup q (set_contributions r p c).by_plugin
        ≡ (if p == q then (if is_zero c then none else some c) else lookup q r.by_plugin))
      × (has (set_contributions r p c) q ≡ (if p == q then not (is_zero c) else has r q))
unfolding set_contributions remove has
set_contributions_lem r p q c = elim (Bool-cases (is_zero c)) [
  | inl zero ↦
      rw zero
        (lookup-delete p q r.by_plugin, ap is_some (lookup-delete p q r.by_plugin) ∙ ground arith)
  | inr full ↦
      rw full (
        lookup-insert p q c r.by_plugin,
        ap is_some (lookup-insert p q c r.by_plugin) ∙ ground arith,
      )
]

-- `Set` and `Remove` keep a registry well formed: no plugin stands twice and no stored set is empty.
pub set_contributions-IsWellFormed :
    (r : Registry) (p : Bytes) (c : Contributes)
    → IsWellFormed r
    → IsWellFormed (set_contributions r p c) × IsWellFormed (remove r p)
unfolding set_contributions remove
set_contributions-IsWellFormed r p c w =
    let dropped : IsWellFormed (remove r p) = (
      Distinct-delete p r.by_plugin w.0,
      AllValues-delete (λ c. is_zero c ≡ false) p r.by_plugin w.1,
    ) in
    (
      elim (Bool-cases (is_zero c)) [
        | inl zero ↦ rw zero dropped
        | inr full ↦ rw full (
          Distinct-insert p c r.by_plugin w.0,
          AllValues-insert (λ c. is_zero c ≡ false) p c r.by_plugin full w.1,
        )
      ],
      dropped,
    )
