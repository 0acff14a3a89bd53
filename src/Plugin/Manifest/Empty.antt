-- ===== src/Plugin/Manifest/Empty.antt =====
-- plugin/manifest_validate.go: when the parts from which a list of errors is put together report nothing.
use opendray_v2_lab.Common.{
  ℕ, ◌+◌, ◌≡◌, ◌≢◌, ◌↔◌, ◌⊎◌, inl, inr, refl, Bool, true, false, not, List, [], ◌∷◌, ◌++◌, Option,
  none, some, Bytes, bytes_eq, All, length, ltb, ◌≤◌, arith,
}
use opendray_v2_lab.Plugin.ConfigSchema.{among}
use opendray_v2_lab.Plugin.ConfigSchema.Valid.{append_empty}
use opendray_v2_lab.Plugin.Contributions.{is_empty}
use opendray_v2_lab.Plugin.Manifest.Contributed.{both_set, one_of, at_most}
use opendray_v2_lab.Plugin.Manifest.Errors.{Rule, ValidationError, report, report_error, each}

pub is_empty_iff {ℓ} : {A : Type ℓ} (xs : List A) → (is_empty xs ≡ true) ↔ (xs ≡ [])
is_empty_iff [] = (λ h. refl, λ h. refl)
is_empty_iff (x ∷ xs) = (λ h. absurd (cc h), λ h. absurd (cc h))

pub is_empty_not {ℓ} : {A : Type ℓ} (xs : List A) → (is_empty xs ≡ false) ↔ (xs ≢ [])
is_empty_not [] = (λ h. absurd (cc h), λ h. absurd (h refl))
is_empty_not (x ∷ xs) = (λ h e. cc e, λ h. refl)

pub both {ℓ κ} :
    {P : Type ℓ} {Q : Type κ} (xs ys : List ValidationError)
    → (xs ≡ []) ↔ P
    → (ys ≡ []) ↔ Q
    → (xs ++ ys ≡ []) ↔ (P × Q)
both xs ys p q = (
  λ h. let (x, y) = (append_empty xs ys).0 h in (p.0 x, q.0 y),
  λ h. (append_empty xs ys).1 (p.1 h.0, q.1 h.1),
)

pub report_empty :
    (broken : Bool) (path : Bytes) (rule : Rule) → (report broken path rule ≡ []) ↔ (broken ≡ false)
report_empty true path rule = (λ h. absurd (cc h), λ h. absurd (cc h))
report_empty false path rule = (λ h. refl, λ h. refl)

pub report_error_empty : (path : Bytes) (o : Option Rule) → (report_error path o ≡ []) ↔ (o ≡ none)
report_error_empty path none = (λ h. refl, λ h. refl)
report_error_empty path (some r) = (λ h. absurd (cc h), λ h. absurd (cc h))

pub each_empty {ℓ κ} :
    {A : Type ℓ} (P : A → Type κ) (f : ℕ → A → List ValidationError)
    → ((i : ℕ) (x : A) → (f i x ≡ []) ↔ P x)
    → (i : ℕ) (xs : List A) → (each f i xs ≡ []) ↔ All P xs
each_empty P f h i [] = (λ e. tt, λ e. refl)
each_empty P f h i (x ∷ xs) = both (f i x) (each f (i + 1) xs) (h i x) (each_empty P f h (i + 1) xs)

-- Empty, or one of the words.
abbrev pub IsOneOf : List Bytes → Bytes → Type 0
IsOneOf words s = (s ≡ []) ⊎ (among s words ≡ true)

not-false : (b : Bool) → (not b ≡ false) ↔ (b ≡ true)
not-false true = (λ h. refl, λ h. refl)
not-false false = (λ h. absurd (cc h), λ h. absurd (cc h))

pub one_of_empty :
    (words : List Bytes) (path s : Bytes) → (one_of words path s ≡ []) ↔ IsOneOf words s
one_of_empty words path [] = (λ h. inl refl, λ h. refl)
one_of_empty words path (c ∷ s) =
    let known = among (c ∷ s) words in
    (
      λ h. inr ((not-false known).0 ((report_empty (not known) path Rule.must_be_one_of).0 h)),
      λ h. elim h [
        | inl e ↦ absurd (cc e)
        | inr e ↦ (report_empty (not known) path Rule.must_be_one_of).1 ((not-false known).1 e)
      ],
    )

pub both_set_empty {ℓ} :
    {P : Type ℓ} (base a name_a b name_b : Bytes) (further : List ValidationError)
    → (further ≡ []) ↔ P
    → (both_set base a name_a b name_b further ≡ []) ↔ ((a ≢ []) × (b ≢ []) × P)
both_set_empty base [] name_a b name_b further p = (λ h. absurd (cc h), λ h. absurd (h.0 refl))
both_set_empty base (c ∷ a) name_a [] name_b further p =
    (λ h. absurd (cc h), λ h. absurd (h.1 refl))
both_set_empty base (c ∷ a) name_a (d ∷ b) name_b further p =
    (λ h. ((λ e. cc e), (λ e. cc e), p.0 h), λ h. let (_, _, q) = h in p.1 q)

pub at_most_empty {ℓ} :
    {A : Type ℓ} (most : ℕ) (path : Bytes) (items : List A)
    → (at_most most path items ≡ []) ↔ (length items ≤ most)
at_most_empty most path items =
    let r = report_empty (ltb most (length items)) path Rule.too_many in
    (λ h. ground (arith, r.0 h), λ h. r.1 (ground (arith, h)))
