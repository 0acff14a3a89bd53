-- ===== src/Plugin/Contributions/Order.antt =====
-- plugin/contributions/registry.go, `Flatten`: the order of the result, and that it does not depend on
-- the order in which the runtime ranges over the map.
use mathlib.Core.List.{List, [], ◌∷◌, Perm, Memᴰ}
use mathlib.Core.List.Perm
use mathlib.Core.Logic.{∥∥₁_elim}
use mathlib.Core.Option.{some-injective}
use opendray_v2_lab.Common.Dict.{lookup, Distinct}
use opendray_v2_lab.Common.Order.{bytes_ltb, bytes_ltb-IsStrictTotal}
use opendray_v2_lab.Common.{
  ◌≡◌, refl, sym, ap, ◌∙◌, inl, inr, false, some, Bytes, bytes_eq, bytes_beq, bytes_beq_iff,
  Bool-cases,
}
use opendray_v2_lab.Go.Sort.{Sorter, IsSorted, Separated, sorted_unique}
use opendray_v2_lab.Plugin.Contributions.{Registry, Contributes, MenuEntry}
use opendray_v2_lab.Plugin.Contributions.Flatten.{
  FlatContributions, Owned, entry_less, owned_less, status_bar_less, editor_action_less, menu_less,
  flatten_entries, flatten,
}
use opendray_v2_lab.Plugin.Contributions.Comparators.{entry_less-IsStrictWeak}

-- Every menu of the map is sorted.
abbrev pub MenusSorted : List (Bytes × List (Owned MenuEntry)) → Type 0
MenusSorted [] = Unit
MenusSorted ((path, entries) ∷ menus) = IsSorted menu_less entries × MenusSorted menus

-- The order that the comments of `FlatContributions` and `Flatten` promise.
abbrev pub IsOrdered : FlatContributions → Type 0
IsOrdered flat =
    IsSorted (owned_less (λ a. a.id)) flat.commands
    × IsSorted status_bar_less flat.status_bar
    × IsSorted (owned_less (λ a. a.key)) flat.keybindings
    × MenusSorted flat.menus
    × IsSorted (owned_less (λ a. a.id)) flat.activity_bar
    × IsSorted (owned_less (λ a. a.id)) flat.views
    × IsSorted (owned_less (λ a. a.id)) flat.panels
    × IsSorted editor_action_less flat.editor_actions
    × IsSorted (owned_less (λ a. a.id)) flat.session_actions

lookup-mem :
    (m : List (Bytes × Contributes)) (x : Bytes × Contributes)
    → Distinct m
    → Memᴰ x m
    → lookup x.0 m ≡ some x.1
unfolding lookup
lookup-mem [] x d mx = elim mx [ ]
lookup-mem ((k, c) ∷ m) x d (Memᴰ.head e) = rw (e, (bytes_beq_iff k k).1 refl) refl
lookup-mem ((k, c) ∷ m) x d (Memᴰ.tail mx) =
    let found = lookup-mem m x d.1 mx in
    elim (Bool-cases (bytes_beq k x.0)) [
      | inl same ↦ let e = (bytes_beq_iff k x.0).0 same in let gone = d.0 in cc
      | inr other ↦ rw other found
    ]

same_entry :
    (m : List (Bytes × Contributes))
    → Distinct m
    → (x y : Bytes × Contributes) → lookup x.0 m ≡ some x.1
    → lookup y.0 m ≡ some y.1
    → bytes_ltb y.0 x.0 ≡ false
    → bytes_ltb x.0 y.0 ≡ false
    → x ≡ y
same_entry m d x y fx fy yx xy = elim (Bool-cases (bytes_beq x.0 y.0)) [
  | inl same ↦
      let e = (bytes_beq_iff x.0 y.0).0 same in
      let v : some x.1 ≡ some y.1 = sym fx ∙ (ap (λ k. lookup k m) e ∙ fy) in
      λ i. (e i, some-injective x.1 y.1 v i)
  | inr other ↦ elim (bytes_ltb-IsStrictTotal.total x.0 y.0 other) [ inl h ↦ cc | inr h ↦ cc ]
]

pub entries-Separated :
    (m : List (Bytes × Contributes)) → Distinct m → Separated entry_less entry_less-IsStrictWeak m
entries-Separated m d x y mx my yx xy =
    let prop : IsProp (x ≡ y) = hlevel in
    ∥∥₁_elim mx prop λ (dx : Memᴰ x m).
      ∥∥₁_elim my prop
        λ (dy : Memᴰ y m). same_entry m d x y (lookup-mem m x d dx) (lookup-mem m y d dy) yx xy

-- Two registries that hold the same sets for the same plugins, in whichever order the runtime ranges
-- over their maps, flatten to the same view: polls do not reshuffle it.
pub flatten-perm :
    (s : Sorter) (r t : Registry)
    → Distinct r.by_plugin
    → Perm r.by_plugin t.by_plugin
    → flatten s r ≡ flatten s t
unfolding flatten
flatten-perm s r t d p =
    let back = s.sort_perm entry_less r.by_plugin in
    ap (flatten_entries s) (
      sorted_unique entry_less entry_less-IsStrictWeak _ _
        (λ x y mx my.
          entries-Separated r.by_plugin d x y ((Perm.mem_iff back).0 mx) ((Perm.mem_iff back).0 my))
        (s.sort_sorted entry_less entry_less-IsStrictWeak r.by_plugin)
        (s.sort_sorted entry_less entry_less-IsStrictWeak t.by_plugin)
        (Perm.trans back (Perm.trans p (Perm.symm (s.sort_perm entry_less t.by_plugin)))))
