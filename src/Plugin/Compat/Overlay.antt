-- ===== src/Plugin/Compat/Overlay.antt =====
-- plugin/compat/synthesize.go: what the overlay of a legacy manifest is.
use opendray_v2_lab.Common.{
  ◌≡◌, inl, inr, refl, sym, ap, ◌∙◌, true, false, ◌||◌, List, [], ◌∷◌, Bytes, bytes_eq,
  bytes_beq_iff, codes, ◌==◌, any, any-append, Bool-cases, pick,
}
use opendray_v2_lab.Plugin.Contributions.{ActivityBarItem, View, Contributes, is_empty}
use opendray_v2_lab.Plugin.Manifest.{
  Provider, is_v1, form_of_type, effective_form, form_host, form_declarative,
}
use opendray_v2_lab.Plugin.Compat.{
  panel_view, panel_item, add_view, add_item, with_panel, overlay, synthesize,
}

pub is_v1-overlay : (p : Provider) → is_v1 (overlay p) ≡ true
unfolding is_v1 overlay
is_v1-overlay p = refl

form_not_empty : (t : Bytes) → is_empty (form_of_type t) ≡ false
form_not_empty t =
    pick (λ form. is_empty form ≡ false)
      ((t == codes "cli") || ((t == codes "local") || (t == codes "shell"))) form_host
      form_declarative (λ e. refl) (λ e. refl)

effective_form_set : (p : Provider) → is_empty (effective_form p) ≡ false
unfolding effective_form
effective_form_set p = elim (Bool-cases (is_empty p.form)) [
  | inl unset ↦ rw unset (form_not_empty p.provider_type)
  | inr given ↦ rw given given
]

pub effective_form-overlay : (p : Provider) → effective_form (overlay p) ≡ effective_form p
effective_form-overlay p = unfold effective_form overlay in rw (effective_form_set p) refl

-- Every manifest becomes a v1 manifest of the same form and the same name, and one that is v1 stays as it is;
-- to do it again changes nothing.
pub synthesize_lem :
    (p : Provider)
    → (is_v1 (synthesize p) ≡ true)
      × (effective_form (synthesize p) ≡ effective_form p)
      × ((synthesize p).name ≡ p.name)
      × (is_v1 p ≡ true → synthesize p ≡ p)
      × (synthesize (synthesize p) ≡ synthesize p)
unfolding synthesize
synthesize_lem p = elim (Bool-cases (is_v1 p)) [
  | inl v1 ↦ rw v1 (v1, refl, refl, (λ h. refl), rw v1 refl)
  | inr legacy ↦
      rw legacy (is_v1-overlay p, effective_form-overlay p, refl, (λ h. absurd (cc h)), refl)
]

own_view : (p : Provider) (views : List View) → any (λ v. v.id == p.name) (add_view p views) ≡ true
unfolding add_view
own_view p views = elim (Bool-cases (any (λ v. v.id == p.name) views)) [
  | inl there ↦ rw there there
  | inr new ↦ rw new (
      any-append (λ v. v.id == p.name) views (panel_view p ∷ [])
      ∙ rw (new, (bytes_beq_iff p.name p.name).1 refl) refl)
]

own_item :
    (p : Provider) (items : List ActivityBarItem)
    → any (λ a. a.id == p.name) (add_item p items) ≡ true
unfolding add_item
own_item p items = elim (Bool-cases (any (λ a. a.id == p.name) items)) [
  | inl there ↦ rw there there
  | inr new ↦ rw new (
      any-append (λ a. a.id == p.name) items (panel_item p ∷ [])
      ∙ rw (new, (bytes_beq_iff p.name p.name).1 refl) refl)
]

add_view_twice :
    (p : Provider) (views : List View) → add_view p (add_view p views) ≡ add_view p views
add_view_twice p views = let own = own_view p views in step (add_view p views) own
  where
    step : (vs : List View) → any (λ v. v.id == p.name) vs ≡ true → add_view p vs ≡ vs
    step vs e = unfold add_view in rw e refl

add_item_twice :
    (p : Provider) (items : List ActivityBarItem) → add_item p (add_item p items) ≡ add_item p items
add_item_twice p items = let own = own_item p items in step (add_item p items) own
  where
    step : (xs : List ActivityBarItem) → any (λ a. a.id == p.name) xs ≡ true → add_item p xs ≡ xs
    step xs e = unfold add_item in rw e refl

abbrev pub filled : Provider → Contributes → List View → List ActivityBarItem → Contributes
filled p c views items = record c { views = views; activity_bar = items }

pub with_panel-filled :
    (p : Provider) (c : Contributes)
    → p.provider_type ≡ codes "panel"
    → with_panel p c ≡ filled p c (add_view p c.views) (add_item p c.activity_bar)
with_panel-filled p c panel =
    let is_panel = (bytes_beq_iff p.provider_type (codes "panel")).1 panel in
    unfold with_panel in rw is_panel refl

-- The contributions of a legacy panel have a view and an item of the activity bar under the panel's name, and
-- to add them again changes nothing.
pub with_panel_twice :
    (p : Provider) (c : Contributes)
    → p.provider_type ≡ codes "panel"
    → (any (λ v. v.id == p.name) (with_panel p c).views ≡ true)
      × (any (λ a. a.id == p.name) (with_panel p c).activity_bar ≡ true)
      × (with_panel p (with_panel p c) ≡ with_panel p c)
with_panel_twice p c panel =
    let once = with_panel-filled p c panel in
    let views = add_view p c.views in
    let items = add_item p c.activity_bar in
    (
      ap (λ d. any (λ v. v.id == p.name) d.views) once ∙ own_view p c.views,
      ap (λ d. any (λ a. a.id == p.name) d.activity_bar) once ∙ own_item p c.activity_bar,
      ap (with_panel p) once
          ∙ (with_panel-filled p (filled p c views items) panel
              ∙ (ap (λ v. filled p c v (add_item p items)) (add_view_twice p c.views)
                  ∙ (ap (λ a. filled p c views a) (add_item_twice p c.activity_bar) ∙ sym once))),
    )
