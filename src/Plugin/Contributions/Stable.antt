-- ===== src/Plugin/Contributions/Stable.antt =====
-- plugin/contributions/registry.go, `Flatten`: the view does not depend on the order in which the runtime ranges
-- over the maps, the one of the plugins and the one of the menus of each plugin.
use mathlib.Core.List.{List, [], ◌∷◌, ◌++◌, Perm, Permᴰ}
use mathlib.Core.List.Perm
use mathlib.Core.List.Pairwise
use mathlib.Core.Logic.{∥∥₁_elim}
use opendray_v2_lab.Common.Dict.{lookup, Distinct, AllValues, reordered}
use opendray_v2_lab.Common.{
  append-nil, ◌≡◌, refl, sym, ap, ◌∙◌, subst, inl, inr, none, map, Bytes, bytes_eq, bytes_beq,
  bytes_beq_iff, Bool-cases,
}
use opendray_v2_lab.Go.Sort.{Sorter, sorted_unique}
use opendray_v2_lab.Plugin.Contributions.{Registry, Contributes, MenuEntry}
use opendray_v2_lab.Plugin.Contributions.Flatten.{
  FlatContributions, Owned, own, entry_less, or_empty, collect, collect_menus, sort_menus,
  menu_less, flatten_entries, flatten,
}
use opendray_v2_lab.Plugin.Contributions.Comparators.{entry_less-IsStrictWeak}
use opendray_v2_lab.Plugin.Contributions.Complete.{menu_entries, collect_menus_lem}
use opendray_v2_lab.Plugin.Contributions.Order.{entries-Separated, flatten-perm}

-- An order in which the menus of a plugin are ranged over.
abbrev pub Range : Type 0
Range = Bytes × Contributes → List (Bytes × List MenuEntry)

abbrev pub turn : Range → Bytes × Contributes → Bytes × Contributes
turn range e = (e.0, record (e.1) { menus = range e })

-- The same items in every slot, and in the menu of every path.
abbrev pub SameView : FlatContributions → FlatContributions → Type 0
SameView f g =
    (f.commands ≡ g.commands)
    × (f.status_bar ≡ g.status_bar)
    × (f.keybindings ≡ g.keybindings)
    × ((path : Bytes) → or_empty (lookup path f.menus) ≡ or_empty (lookup path g.menus))
    × (f.activity_bar ≡ g.activity_bar)
    × (f.views ≡ g.views)
    × (f.panels ≡ g.panels)
    × (f.editor_actions ≡ g.editor_actions)
    × (f.session_actions ≡ g.session_actions)

-- Where each path stands once, its entries are those of that one place.
menu_entries-lookup :
    (path : Bytes) (m : List (Bytes × List MenuEntry))
    → Distinct m
    → menu_entries path m ≡ or_empty (lookup path m)
unfolding lookup
menu_entries-lookup path [] d = refl
menu_entries-lookup path ((p, entries) ∷ m) d = elim (Bool-cases (bytes_beq p path)) [
  | inl same ↦
      let gone : lookup path m ≡ none =
        subst (λ k. lookup k m ≡ none) ((bytes_beq_iff p path).0 same) d.0 in
      rw same (
        ap (λ r. entries ++ r) (menu_entries-lookup path m d.1 ∙ ap or_empty gone)
        ∙ append-nil entries)
  | inr other ↦ rw other (menu_entries-lookup path m d.1)
]

menu_entries-Perm :
    (path : Bytes) (m n : List (Bytes × List MenuEntry))
    → Distinct m
    → Perm m n
    → menu_entries path m ≡ menu_entries path n
menu_entries-Perm path m n d p =
    let prop : IsProp (menu_entries path m ≡ menu_entries path n) = hlevel in
    ∥∥₁_elim p prop λ (q : Permᴰ m n).
      let (d', found) = reordered q d in
      menu_entries-lookup path m d
      ∙ (ap or_empty (found path) ∙ sym (menu_entries-lookup path n d'))

module _ (range : Range) where
  lookup-turn :
      (k : Bytes) (m : List (Bytes × Contributes))
      → lookup k m ≡ none
      → lookup k (map (turn range) m) ≡ none
  unfolding lookup
  lookup-turn k [] h = refl
  lookup-turn k ((j, c) ∷ m) h = elim (Bool-cases (bytes_beq j k)) [
    | inl same ↦ absurd (cc (rw same at h))
    | inr other ↦ rw other (lookup-turn k m (rw other at h))
  ]

  Distinct-turn : (m : List (Bytes × Contributes)) → Distinct m → Distinct (map (turn range) m)
  Distinct-turn [] d = tt
  Distinct-turn ((k, c) ∷ m) d = (lookup-turn k m d.0, Distinct-turn m d.1)

  collect-turn :
      {A : Type 0} (slot : Contributes → List A) (P : Contributes → Type 0)
      → ((e : Bytes × Contributes) → P e.1 → slot (turn range e).1 ≡ slot e.1)
      → (m : List (Bytes × Contributes)) → AllValues P m
      → collect slot (map (turn range) m) ≡ collect slot m
  unfolding collect
  collect-turn slot P same [] a = refl
  collect-turn slot P same ((k, c) ∷ m) a =
      ap (λ xs. map (own k) xs ++ collect slot (map (turn range) m)) (same (k, c) a.0)
      ∙ ap (λ t. map (own k) (slot c) ++ t) (collect-turn slot P same m a.1)

  -- A slot that the menus have no part in.
  other_slot :
      {A : Type 0} (slot : Contributes → List A)
      → ((e : Bytes × Contributes) → slot (turn range e).1 ≡ slot e.1)
      → (m : List (Bytes × Contributes)) → collect slot (map (turn range) m) ≡ collect slot m
  unfolding collect
  other_slot slot same [] = refl
  other_slot slot same (e ∷ m) =
      ap (λ xs. map (own e.0) xs ++ collect slot (map (turn range) m)) (same e)
      ∙ ap (λ t. map (own e.0) (slot e.1) ++ t) (other_slot slot same m)

lookup-sort_menus :
    (s : Sorter) (path : Bytes) (menus : List (Bytes × List (Owned MenuEntry)))
    → or_empty (lookup path (sort_menus s menus)) ≡ s.sort menu_less (or_empty (lookup path menus))
unfolding sort_menus lookup
lookup-sort_menus s path [] = sym (Perm.eq-nil (s.sort_perm menu_less []))
lookup-sort_menus s path ((p, entries) ∷ menus) = elim (Bool-cases (bytes_beq p path)) [
  | inl same ↦ rw same refl
  | inr other ↦ rw other (lookup-sort_menus s path menus)
]

menu_of :
    (s : Sorter) (path : Bytes) (m : List (Bytes × Contributes))
    → or_empty (lookup path (sort_menus s (collect_menus m [])))
      ≡ s.sort menu_less (collect (λ c. menu_entries path c.menus) m)
unfolding lookup
menu_of s path m =
    lookup-sort_menus s path (collect_menus m [])
    ∙ ap (s.sort menu_less) (collect_menus_lem path m [])

AllValues-perm :
    (P : Contributes → Type 0) {m n : List (Bytes × Contributes)}
    → Permᴰ m n
    → AllValues P m
    → AllValues P n
AllValues-perm P Permᴰ.nil a = tt
AllValues-perm P (Permᴰ.cons {a = x} {l₂ = k} e p) a =
    subst (λ y. AllValues P (y ∷ k)) e (a.0, AllValues-perm P p a.1)
AllValues-perm P (Permᴰ.swap {a = x} {b = y} {b' = z} {l = l} e f) a =
    subst (λ u. AllValues P (u ∷ z ∷ l)) f
      (subst (λ u. AllValues P (y ∷ u ∷ l)) e (a.1.0, (a.0, a.1.1)))
AllValues-perm P (Permᴰ.trans p q) a = AllValues-perm P q (AllValues-perm P p a)

-- Each path stands once in the menus of a set.
abbrev pub OncePerPath : Contributes → Type 0
OncePerPath c = Distinct c.menus

module _ (s : Sorter) (range : Range) (turns : (e : Bytes × Contributes) → Perm e.1.menus (range e))
    (m : List (Bytes × Contributes)) (d : Distinct m) where
  -- The keys alone decide how the entries are sorted.
  sort-turn : s.sort entry_less (map (turn range) m) ≡ map (turn range) (s.sort entry_less m)
  sort-turn =
      let back = s.sort_perm entry_less (map (turn range) m) in
      sorted_unique entry_less entry_less-IsStrictWeak _ _
        (λ x y mx my.
          entries-Separated (map (turn range) m) (Distinct-turn range m d) x y
            ((Perm.mem_iff back).0 mx) ((Perm.mem_iff back).0 my))
        (s.sort_sorted entry_less entry_less-IsStrictWeak (map (turn range) m))
        (Pairwise.map' (turn range) (λ x y. hlevel)
          (s.sort_sorted entry_less entry_less-IsStrictWeak m))
        (Perm.trans back (Perm.map (turn range) (Perm.symm (s.sort_perm entry_less m))))

  menu-turn :
      (path : Bytes)
      → AllValues OncePerPath m
      → collect (λ c. menu_entries path c.menus) (map (turn range) (s.sort entry_less m))
        ≡ collect (λ c. menu_entries path c.menus) (s.sort entry_less m)
  menu-turn path once =
      let sorted = s.sort entry_less m in
      let prop : IsProp (
          collect (λ c. menu_entries path c.menus) (map (turn range) sorted)
          ≡ collect (λ c. menu_entries path c.menus) sorted) =
        hlevel in
      ∥∥₁_elim (Perm.symm (s.sort_perm entry_less m)) prop λ (q : Permᴰ m sorted).
        collect-turn range (λ c. menu_entries path c.menus) OncePerPath
          (λ e o. sym (menu_entries-Perm path e.1.menus (range e) o (turns e))) sorted
          (AllValues-perm OncePerPath q once)

  turned-SameView :
      AllValues OncePerPath m
      → SameView
          (flatten s (record { by_plugin = m }))
          (flatten s (record { by_plugin = map (turn range) m }))
  unfolding flatten flatten_entries
  turned-SameView once =
      let sorted = s.sort entry_less m in
      let turned = map (turn range) sorted in
      let e : s.sort entry_less (map (turn range) m) ≡ turned = sort-turn in
      subst (λ n. SameView (flatten_entries s sorted) (flatten_entries s n)) (sym e)
        (
          ap (s.sort _) (sym (other_slot range (λ c. c.commands) (λ e. refl) sorted)),
          ap (s.sort _) (sym (other_slot range (λ c. c.status_bar) (λ e. refl) sorted)),
          ap (s.sort _) (sym (other_slot range (λ c. c.keybindings) (λ e. refl) sorted)),
          (λ path.
              menu_of s path sorted
              ∙ (ap (s.sort menu_less) (sym (menu-turn path once)) ∙ sym (menu_of s path turned))),
          ap (s.sort _) (sym (other_slot range (λ c. c.activity_bar) (λ e. refl) sorted)),
          ap (s.sort _) (sym (other_slot range (λ c. c.views) (λ e. refl) sorted)),
          ap (s.sort _) (sym (other_slot range (λ c. c.panels) (λ e. refl) sorted)),
          ap (s.sort _) (sym (other_slot range (λ c. c.editor_actions) (λ e. refl) sorted)),
          ap (s.sort _) (sym (other_slot range (λ c. c.session_actions) (λ e. refl) sorted)),
        )

-- Polls do not reshuffle the view: let the runtime range over the plugins in whichever order, and over the menus of
-- each plugin in whichever order, where each plugin and each path of a plugin's menus stands once, as in a Go map;
-- every slot of the view and the menu of every path are the same.
pub flatten-turn :
    (s : Sorter) (r t : Registry) (range : Range)
    → Distinct r.by_plugin
    → AllValues OncePerPath r.by_plugin
    → ((e : Bytes × Contributes) → Perm e.1.menus (range e))
    → Perm (map (turn range) r.by_plugin) t.by_plugin
    → SameView (flatten s r) (flatten s t)
flatten-turn s r t range d once turns p =
    subst (SameView (flatten s r))
      (flatten-perm s (record { by_plugin = map (turn range) r.by_plugin }) t
        (Distinct-turn range r.by_plugin d) p)
      (turned-SameView s range turns r.by_plugin d once)
