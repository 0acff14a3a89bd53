-- ===== src/Plugin/Contributions/Comparators.antt =====
-- plugin/contributions/registry.go: the closures of `Flatten` are the orders that sort.Slice asks for.
use opendray_v2_lab.Common.Order.{
  IsStrictWeak, IsStrictTotal, IsStrictWeak-ext, bytes_ltb, bytes_ltb-IsStrictTotal,
  ltb-IsStrictTotal, int_ltb, int_gtb-IsStrictTotal, by_key, then_by, then_by-IsStrictWeak,
}
use opendray_v2_lab.Common.{
  ◌≡◌, ◌⊎◌, refl, sym, [], ◌∷◌, Bool, true, false, not, Bytes, bytes_eq, nat_eq, ltb, ◌==◌,
  if◌then◌else◌, inl, inr,
}
use opendray_v2_lab.Plugin.Contributions.{StatusBarItem}
use opendray_v2_lab.Plugin.Contributions.Flatten.{
  Owned, entry_less, owned_less, status_bar_less, align_order, group_less, editor_action_less,
  menu_less,
}
use opendray_v2_lab.Common.Order.{int_eq}

flip {ℓ} : {A : Type ℓ} (b : Bool) (x y : A) → (if not b then x else y) ≡ (if b then y else x)
flip true x y = refl
flip false x y = refl

flip_twice {ℓ} :
    {A : Type ℓ} (b c : Bool) (x y z : A)
    → (if b then (if c then z else y) else x) ≡ (if not b then x else (if not c then y else z))
flip_twice true c x y z = sym (flip c y z)
flip_twice false c x y z = refl

pub entry_less-IsStrictWeak : IsStrictWeak entry_less
entry_less-IsStrictWeak = by_key (λ i. i.0) bytes_ltb bytes_ltb-IsStrictTotal.weak

by_name :
    {A : Type 0}
    → IsStrictWeak (λ (i : Owned A) (j : Owned A). bytes_ltb i.plugin_name j.plugin_name)
by_name = by_key (λ i. i.plugin_name) bytes_ltb bytes_ltb-IsStrictTotal.weak

pub owned_less-IsStrictWeak : {A : Type 0} (key : A → Bytes) → IsStrictWeak (owned_less key)
owned_less-IsStrictWeak key =
    IsStrictWeak-ext
      (λ i j. sym (
        flip (i.plugin_name == j.plugin_name) (bytes_ltb i.plugin_name j.plugin_name)
          (bytes_ltb (key i.item) (key j.item))))
      (then_by-IsStrictWeak (λ i. i.plugin_name) bytes_ltb _ bytes_ltb-IsStrictTotal
        (by_key (λ i. key i.item) bytes_ltb bytes_ltb-IsStrictTotal.weak))

by_priority : IsStrictWeak (
    then_by
      (λ (i : Owned StatusBarItem). i.item.priority)
      (λ a b. int_ltb b a)
      (λ i j. bytes_ltb i.plugin_name j.plugin_name))
by_priority =
    then_by-IsStrictWeak (λ i. i.item.priority) (λ a b. int_ltb b a) _ int_gtb-IsStrictTotal by_name

pub status_bar_less-IsStrictWeak : IsStrictWeak status_bar_less
status_bar_less-IsStrictWeak =
    IsStrictWeak-ext
      (λ i j.
        flip_twice (align_order i.item.alignment == align_order j.item.alignment)
          (i.item.priority == j.item.priority) _ _ _)
      (then_by-IsStrictWeak (λ i. align_order i.item.alignment) ltb _ ltb-IsStrictTotal by_priority)

abbrev group_ltb : Bytes → Bytes → Bool
group_ltb [] h = false
group_ltb (a ∷ g) [] = true
group_ltb (a ∷ g) (b ∷ h) = bytes_ltb (a ∷ g) (b ∷ h)

group_ltb-IsStrictTotal : IsStrictTotal group_ltb
group_ltb-IsStrictTotal = record { weak = record { asym = asym; cotrans = cotrans }; total = total }
  where
    asym : (g h : Bytes) → group_ltb g h ≡ true → group_ltb h g ≡ false
    asym [] h e = cc
    asym (a ∷ g) [] e = refl
    asym (a ∷ g) (b ∷ h) e = bytes_ltb-IsStrictTotal.weak.asym (a ∷ g) (b ∷ h) e

    cotrans :
        (g h k : Bytes) → group_ltb g k ≡ true → (group_ltb g h ≡ true) ⊎ (group_ltb h k ≡ true)
    cotrans [] h k e = cc
    cotrans (a ∷ g) [] k e = inl refl
    cotrans (a ∷ g) (b ∷ h) [] e = inr refl
    cotrans (a ∷ g) (b ∷ h) (c ∷ k) e =
        bytes_ltb-IsStrictTotal.weak.cotrans (a ∷ g) (b ∷ h) (c ∷ k) e

    total : (g h : Bytes) → g == h ≡ false → (group_ltb g h ≡ true) ⊎ (group_ltb h g ≡ true)
    total [] [] e = cc
    total [] (b ∷ h) e = inr refl
    total (a ∷ g) [] e = inl refl
    total (a ∷ g) (b ∷ h) e = bytes_ltb-IsStrictTotal.total (a ∷ g) (b ∷ h) e

group_less_lem :
    (g h : Bytes) (rest : Bool) → (if g == h then rest else group_ltb g h) ≡ group_less g h rest
group_less_lem [] [] rest = refl
group_less_lem [] (b ∷ h) rest = refl
group_less_lem (a ∷ g) [] rest = refl
group_less_lem (a ∷ g) (b ∷ h) rest = sym (flip ((a ∷ g) == (b ∷ h)) _ _)

pub editor_action_less-IsStrictWeak : IsStrictWeak editor_action_less
editor_action_less-IsStrictWeak =
    IsStrictWeak-ext (λ i j. group_less_lem i.item.group j.item.group (owned_less (λ a. a.id) i j))
      (then_by-IsStrictWeak (λ i. i.item.group) group_ltb (owned_less (λ a. a.id))
        group_ltb-IsStrictTotal (owned_less-IsStrictWeak (λ a. a.id)))

pub menu_less-IsStrictWeak : IsStrictWeak menu_less
menu_less-IsStrictWeak =
    IsStrictWeak-ext
      (λ i j. group_less_lem i.item.group j.item.group (bytes_ltb i.plugin_name j.plugin_name))
      (then_by-IsStrictWeak (λ i. i.item.group) group_ltb _ group_ltb-IsStrictTotal by_name)
