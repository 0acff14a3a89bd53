-- ===== src/Plugin/Contributions/Complete.antt =====
-- plugin/contributions/registry.go, `Flatten`: nothing is lost, nothing is made up.
use mathlib.Core.List.{List, [], ◌∷◌, ◌++◌, Perm, Permᴰ, append_assoc, map-append, perm_append_comm}
use mathlib.Core.List.Perm
use mathlib.Core.List.{Perm-prop}
use mathlib.Core.Logic.{∥∥₁_elim}
use opendray_v2_lab.Common.Dict.{lookup, insert, lookup-insert}
use opendray_v2_lab.Common.{
  ◌≡◌, refl, sym, ap, subst, ◌∙◌, inl, inr, Bool, map, Bytes, bytes_eq, bytes_beq, bytes_beq_iff,
  ◌==◌, if◌then◌else◌, Bool-cases, append-nil,
}
use opendray_v2_lab.Go.Sort.{Sorter}
use opendray_v2_lab.Plugin.Contributions.{Registry, Contributes, MenuEntry}
use opendray_v2_lab.Plugin.Contributions.Flatten.{
  Owned, own, entry_less, or_empty, collect, add_menu, add_menus, collect_menus, sort_menus,
  flatten_entries, flatten, menu_less,
}

swap_front {ℓ} : {A : Type ℓ} (xs ys zs : List A) → Perm (xs ++ (ys ++ zs)) (ys ++ (xs ++ zs))
swap_front xs ys zs =
    subst (λ l. Perm l (ys ++ (xs ++ zs))) (append_assoc xs ys zs)
      (subst (λ l. Perm ((xs ++ ys) ++ zs) l) (append_assoc ys xs zs)
        (Perm.append_right zs (perm_append_comm xs ys)))

collect-perm :
    {A : Type 0} (slot : Contributes → List A) {m n : List (Bytes × Contributes)}
    → Permᴰ m n
    → Perm (collect slot m) (collect slot n)
unfolding collect
collect-perm slot Permᴰ.nil = Perm.rfl
collect-perm slot (Permᴰ.cons {a = a} {l₁ = l} {l₂ = k} e p) =
    subst (λ b. Perm (collect slot (a ∷ l)) (collect slot (b ∷ k))) e
      (Perm.append_left (map (own a.0) (slot a.1)) (collect-perm slot p))
collect-perm slot (Permᴰ.swap {a = a} {b = b} {b' = c} {l = l} e d) =
    subst (λ x. Perm (collect slot (a ∷ b ∷ l)) (collect slot (x ∷ c ∷ l))) d
      (subst (λ x. Perm (collect slot (a ∷ b ∷ l)) (collect slot (b ∷ x ∷ l))) e
        (swap_front (map (own a.0) (slot a.1)) (map (own b.0) (slot b.1)) (collect slot l)))
collect-perm slot (Permᴰ.trans p q) = Perm.trans (collect-perm slot p) (collect-perm slot q)

slot-perm :
    {A : Type 0} (s : Sorter) (less : Owned A → Owned A → Bool) (slot : Contributes → List A)
    (m : List (Bytes × Contributes))
    → Perm (s.sort less (collect slot (s.sort entry_less m))) (collect slot m)
slot-perm s less slot m = Perm.trans (s.sort_perm less (collect slot (s.sort entry_less m))) (
    ∥∥₁_elim (s.sort_perm entry_less m) Perm-prop
      λ (p : Permᴰ (s.sort entry_less m) m). collect-perm slot p)

-- The entries for one path in the menus of one plugin.
abbrev pub menu_entries : Bytes → List (Bytes × List MenuEntry) → List MenuEntry
menu_entries path [] = []
menu_entries path ((p, entries) ∷ menus) =
    if p == path then entries ++ menu_entries path menus else menu_entries path menus

add_menu_lem :
    (name p path : Bytes) (entries : List MenuEntry) (menus : List (Bytes × List (Owned MenuEntry)))
    → or_empty (lookup path (add_menu name p entries menus))
      ≡ or_empty (lookup path menus) ++ (if p == path then map (own name) entries else [])
unfolding add_menu
add_menu_lem name p path [] menus = elim (Bool-cases (bytes_beq p path)) [
  | inl same ↦ rw same (sym (append-nil _))
  | inr other ↦ rw other (sym (append-nil _))
]
add_menu_lem name p path (me ∷ entries) menus =
    let item = own name me in
    let more : List (Bytes × List (Owned MenuEntry)) =
      insert p (or_empty (lookup p menus) ++ (item ∷ [])) menus in
    let rest = add_menu_lem name p path entries more in
    let now = lookup-insert p path (or_empty (lookup p menus) ++ (item ∷ [])) menus in
    elim (Bool-cases (bytes_beq p path)) [
      | inl same ↦
          let e : lookup p menus ≡ lookup path menus =
            ap (λ k. lookup k menus) ((bytes_beq_iff p path).0 same) in
          rw (rest, now, same, e)
            (append_assoc (or_empty (lookup path menus)) (item ∷ []) (map (own name) entries))
      | inr other ↦ rw (rest, now, other) refl
    ]

add_menus_lem :
    (name path : Bytes) (own_menus : List (Bytes × List MenuEntry))
    (menus : List (Bytes × List (Owned MenuEntry)))
    → or_empty (lookup path (add_menus name own_menus menus))
      ≡ or_empty (lookup path menus) ++ map (own name) (menu_entries path own_menus)
unfolding add_menus
add_menus_lem name path [] menus = sym (append-nil _)
add_menus_lem name path ((p, entries) ∷ more) menus =
    rw
      (
        add_menus_lem name path more (add_menu name p entries menus),
        add_menu_lem name p path entries menus,
      )
      (elim (Bool-cases (bytes_beq p path)) [
        | inl same ↦
            rw (same, map-append)
              (append_assoc (or_empty (lookup path menus)) (map (own name) entries)
                (map (own name) (menu_entries path more)))
        | inr other ↦ rw (other, append-nil) refl
      ])

pub collect_menus_lem :
    (path : Bytes) (entries : List (Bytes × Contributes))
    (menus : List (Bytes × List (Owned MenuEntry)))
    → or_empty (lookup path (collect_menus entries menus))
      ≡ or_empty (lookup path menus) ++ collect (λ c. menu_entries path c.menus) entries
unfolding collect_menus collect
collect_menus_lem path [] menus = sym (append-nil _)
collect_menus_lem path ((name, c) ∷ entries) menus =
    collect_menus_lem path entries (add_menus name c.menus menus)
    ∙ (ap (λ l. l ++ collect (λ c. menu_entries path c.menus) entries)
          (add_menus_lem name path c.menus menus)
        ∙ append_assoc (or_empty (lookup path menus)) (map (own name) (menu_entries path c.menus))
            (collect (λ c. menu_entries path c.menus) entries))

sort_menus-perm :
    (s : Sorter) (path : Bytes) (menus : List (Bytes × List (Owned MenuEntry)))
    → Perm (or_empty (lookup path (sort_menus s menus))) (or_empty (lookup path menus))
unfolding sort_menus lookup
sort_menus-perm s path [] = Perm.rfl
sort_menus-perm s path ((p, entries) ∷ menus) = elim (Bool-cases (bytes_beq p path)) [
  | inl same ↦ rw same (s.sort_perm menu_less entries)
  | inr other ↦ rw other (sort_menus-perm s path menus)
]

menus-perm :
    (s : Sorter) (path : Bytes) (m : List (Bytes × Contributes))
    → Perm
        (or_empty (lookup path (sort_menus s (collect_menus (s.sort entry_less m) []))))
        (collect (λ c. menu_entries path c.menus) m)
unfolding lookup
menus-perm s path m = Perm.trans (sort_menus-perm s path (collect_menus (s.sort entry_less m) [])) (
    subst (λ l. Perm l (collect (λ c. menu_entries path c.menus) m))
      (sym (collect_menus_lem path (s.sort entry_less m) []))
      (∥∥₁_elim (s.sort_perm entry_less m) Perm-prop
        λ (p : Permᴰ (s.sort entry_less m) m). collect-perm (λ c. menu_entries path c.menus) p))

-- Each slot of the flattened view holds exactly the items that the registered plugins contribute to
-- it, each as often as it is contributed and under its plugin's name, and so does the menu of each
-- path; sort.Slice may be any sort.
pub flatten-collect :
    (s : Sorter) (r : Registry) (path : Bytes)
    → Perm (flatten s r).commands (collect (λ c. c.commands) r.by_plugin)
      × Perm (flatten s r).status_bar (collect (λ c. c.status_bar) r.by_plugin)
      × Perm (flatten s r).keybindings (collect (λ c. c.keybindings) r.by_plugin)
      × Perm
          (or_empty (lookup path (flatten s r).menus))
          (collect (λ c. menu_entries path c.menus) r.by_plugin)
      × Perm (flatten s r).activity_bar (collect (λ c. c.activity_bar) r.by_plugin)
      × Perm (flatten s r).views (collect (λ c. c.views) r.by_plugin)
      × Perm (flatten s r).panels (collect (λ c. c.panels) r.by_plugin)
      × Perm (flatten s r).editor_actions (collect (λ c. c.editor_actions) r.by_plugin)
      × Perm (flatten s r).session_actions (collect (λ c. c.session_actions) r.by_plugin)
unfolding flatten flatten_entries
flatten-collect s r path = (
  slot-perm s _ (λ c. c.commands) r.by_plugin,
  slot-perm s _ (λ c. c.status_bar) r.by_plugin,
  slot-perm s _ (λ c. c.keybindings) r.by_plugin,
  menus-perm s path r.by_plugin,
  slot-perm s _ (λ c. c.activity_bar) r.by_plugin,
  slot-perm s _ (λ c. c.views) r.by_plugin,
  slot-perm s _ (λ c. c.panels) r.by_plugin,
  slot-perm s _ (λ c. c.editor_actions) r.by_plugin,
  slot-perm s _ (λ c. c.session_actions) r.by_plugin,
)
