-- ===== src/Go/Strings/Contains.antt =====
-- strings.Contains finds exactly the texts that stand somewhere in the text.
use opendray_v2_lab.Common.{
  ◌≡◌, ◌↔◌, inl, inr, ap, ◌∙◌, true, [], ◌∷◌, ◌++◌, Bytes, has_prefix, has_prefix_append,
  has_prefix_sound, ||-eq-true, arith,
}
use opendray_v2_lab.Go.Strings.{contains}

-- `sub` stands somewhere in `s`.
abbrev pub Has : Bytes → Bytes → Type 0
Has s sub = (before : Bytes) × (after : Bytes) × (s ≡ before ++ (sub ++ after))

contains_sound : (s sub : Bytes) → contains s sub ≡ true → Has s sub
unfolding contains
contains_sound [] sub h = let (r, e) = has_prefix_sound [] sub h in ([], r, e)
contains_sound (c ∷ s) sub h = elim (||-eq-true (has_prefix (c ∷ s) sub) (contains s sub) h) [
  | inl here ↦ let (r, e) = has_prefix_sound (c ∷ s) sub here in ([], r, e)
  | inr later ↦ let (a, b, e) = contains_sound s sub later in (c ∷ a, b, ap (◌∷◌ c) e)
]

contains_here : (s sub : Bytes) → has_prefix s sub ≡ true → contains s sub ≡ true
unfolding contains
contains_here [] sub h = h
contains_here (c ∷ s) sub h = ground (arith, h)

contains_complete : (before sub after : Bytes) → contains (before ++ (sub ++ after)) sub ≡ true
unfolding contains
contains_complete [] sub after = contains_here (sub ++ after) sub (has_prefix_append sub after)
contains_complete (c ∷ before) sub after = ground (arith, contains_complete before sub after)

pub contains_iff : (s sub : Bytes) → (contains s sub ≡ true) ↔ Has s sub
contains_iff s sub = (
  contains_sound s sub,
  λ h. let (a, b, e) = h in ap (λ t. contains t sub) e ∙ contains_complete a sub b,
)
