-- ===== src/Go/Regexp/Language.antt =====
-- The texts that a pattern stands for, and that the derivatives of Go/Regexp decide them.
use opendray_v2_lab.Common.{
  every, ℕ, zero, suc, ◌≤◌, ◌≡◌, ◌↔◌, ◌⊎◌, inl, inr, refl, sym, ap, subst, Bool, true, [], ◌∷◌,
  ◌++◌, Bytes, length, arith, if◌then◌else◌, Bool-cases, ||-eq-true, &&-eq-true,
}
use opendray_v2_lab.Go.Regexp.{
  Regex, fail, empty, one, many, upto, seq, alt, nullable, derive, match_string,
}

abbrev pub Lang : Regex → Bytes → Type 0
Lang fail s = ⊥
Lang empty s = s ≡ []
Lang (one p) s = (c : ℕ) × (s ≡ c ∷ []) × (p c ≡ true)
Lang (many p) s = every p s ≡ true
Lang (upto n p) s = (every p s ≡ true) × (length s ≤ n)
Lang (seq a b) s = (u : Bytes) × (v : Bytes) × (s ≡ u ++ v) × Lang a u × Lang b v
Lang (alt a b) s = Lang a s ⊎ Lang b s

append_nil_both : (u v : Bytes) → [] ≡ u ++ v → ([] ≡ u) × ([] ≡ v)
append_nil_both [] v e = (refl, e)
append_nil_both (c ∷ u) v e = absurd (cc)

nullable_iff : (r : Regex) → (nullable r ≡ true) ↔ Lang r []
unfolding nullable
nullable_iff fail = (λ h. absurd (cc), λ h. absurd h)
nullable_iff empty = (λ h. refl, λ h. refl)
nullable_iff (one p) = (λ h. absurd (cc), λ h. absurd (let (c, e, _) = h in cc))
nullable_iff (many p) = (λ h. refl, λ h. refl)
nullable_iff (upto n p) = (λ h. (refl, omega arith), λ h. refl)
nullable_iff (seq a b) = (
  λ h.
      let (x, y) = (&&-eq-true (nullable a) (nullable b)).0 h in
      ([], [], refl, (nullable_iff a).0 x, (nullable_iff b).0 y),
  λ h.
      let (u, v, e, x, y) = h in
      let (no_u, no_v) = append_nil_both u v e in
      let left = (nullable_iff a).1 (subst (Lang a) (sym no_u) x) in
      let right = (nullable_iff b).1 (subst (Lang b) (sym no_v) y) in
      (&&-eq-true (nullable a) (nullable b)).1 (left, right),
)
nullable_iff (alt a b) = (
  λ h. elim (||-eq-true (nullable a) (nullable b) h) [
    | inl x ↦ inl ((nullable_iff a).0 x)
    | inr y ↦ inr ((nullable_iff b).0 y)
  ],
  λ h. elim h [
    | inl x ↦ ground (arith, (nullable_iff a).1 x)
    | inr y ↦ ground (arith, (nullable_iff b).1 y)
  ],
)

-- A class: the first byte is in it, and the rest is one of the texts of `after`.
class_iff :
    (p : ℕ → Bool) (after : Regex) (c : ℕ) (s : Bytes)
    → Lang (if p c then after else fail) s ↔ ((p c ≡ true) × Lang after s)
class_iff p after c s = elim (Bool-cases (p c)) [
  | inl hit ↦ rw hit (λ h. (refl, h), λ h. h.1)
  | inr miss ↦ rw miss (λ h. absurd h, λ h. absurd (let (e, _) = h in cc e))
]

-- How a text splits whose first byte is known.
split_cons :
    (c : ℕ) (s u v : Bytes)
    → c ∷ s ≡ u ++ v
    → ((u ≡ []) × (v ≡ c ∷ s)) ⊎ ((t : Bytes) × (u ≡ c ∷ t) × (s ≡ t ++ v))
split_cons c s [] v e = inl (refl, sym e)
split_cons c s (d ∷ t) v e = inr (t, cc e, cc e)

-- The two ways in which the left part of a sequence takes the first byte.
longer :
    (c : ℕ) (a b : Regex) (s : Bytes)
    → ((u : Bytes) → Lang (derive c a) u ↔ Lang a (c ∷ u))
    → Lang (seq (derive c a) b) s
    → Lang (seq a b) (c ∷ s)
longer c a b s ih h = let (u, v, e, x, y) = h in (c ∷ u, v, ap (◌∷◌ c) e, (ih u).0 x, y)

shorter :
    (c : ℕ) (a b : Regex) (s : Bytes)
    → ((u : Bytes) → Lang (derive c a) u ↔ Lang a (c ∷ u))
    → (t v : Bytes) → s ≡ t ++ v
    → Lang a (c ∷ t)
    → Lang b v
    → Lang (seq (derive c a) b) s
shorter c a b s ih t v e x y = (t, v, e, (ih t).1 x, y)

derive_iff : (c : ℕ) (r : Regex) (s : Bytes) → Lang (derive c r) s ↔ Lang r (c ∷ s)
unfolding derive
derive_iff c fail s = (λ h. h, λ h. h)
derive_iff c empty s = (λ h. absurd h, λ h. absurd (cc h))
derive_iff c (one p) s = (
  λ h. let (hit, e) = (class_iff p empty c s).0 h in (c, ap (◌∷◌ c) e, hit),
  λ h. let (d, e, hit) = h in (class_iff p empty c s).1 (ground (arith, e, hit), ground (arith, e)),
)
derive_iff c (many p) s = (
  λ h. let (hit, e) = (class_iff p (many p) c s).0 h in ground (arith, hit, e),
  λ h. (class_iff p (many p) c s).1 (ground (arith, h), ground (arith, h)),
)
derive_iff c (upto zero p) s = (λ h. absurd h, λ h. absurd (omega (arith, h.1)))
derive_iff c (upto (suc n) p) s = (
  λ h.
      let (hit, e) = (class_iff p (upto n p) c s).0 h in
      (ground (arith, hit, e.0), omega (arith, e.1)),
  λ h.
      (class_iff p (upto n p) c s).1
        (ground (arith, h.0), (ground (arith, h.0), omega (arith, h.1))),
)
derive_iff c (seq a b) s = elim (Bool-cases (nullable a)) [
  | inl n ↦ rw n (
    λ h. elim h [
      | inl x ↦ longer c a b s (derive_iff c a) x
      | inr y ↦ ([], c ∷ s, refl, (nullable_iff a).0 n, (derive_iff c b s).0 y)
    ],
    λ h.
        let (u, v, e, x, y) = h in
        elim (split_cons c s u v e) [
          | inl (eu, ev) ↦ inr ((derive_iff c b s).1 (subst (Lang b) ev y))
          | inr (t, eu, es) ↦ inl (shorter c a b s (derive_iff c a) t v es (subst (Lang a) eu x) y)
        ],
  )
  | inr n ↦ rw n (
    longer c a b s (derive_iff c a),
    λ h.
        let (u, v, e, x, y) = h in
        elim (split_cons c s u v e) [
          | inl (eu, ev) ↦ absurd (cc (n, (nullable_iff a).1 (subst (Lang a) eu x)))
          | inr (t, eu, es) ↦ shorter c a b s (derive_iff c a) t v es (subst (Lang a) eu x) y
        ],
  )
]
derive_iff c (alt a b) s = (
  λ h. elim h [ inl x ↦ inl ((derive_iff c a s).0 x) | inr y ↦ inr ((derive_iff c b s).0 y) ],
  λ h. elim h [ inl x ↦ inl ((derive_iff c a s).1 x) | inr y ↦ inr ((derive_iff c b s).1 y) ],
)

-- A pattern matches exactly the texts that it stands for.
pub match_string_iff : (s : Bytes) (r : Regex) → (match_string r s ≡ true) ↔ Lang r s
unfolding match_string
match_string_iff [] r = nullable_iff r
match_string_iff (c ∷ s) r =
    let rest = match_string_iff s (derive c r) in
    let here = derive_iff c r s in (λ h. here.0 (rest.0 h), λ h. rest.1 (here.1 h))
