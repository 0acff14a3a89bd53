-- ===== src/Common/Dict.antt =====
-- A Go map as an association list. Iteration goes over `entries` in their order, which stands for
-- whichever order the runtime picks: statements about iteration hold for every list.
use mathlib.Core.Path.{◌≡◌, refl, sym, ap, subst, ◌∙◌}
use mathlib.Core.Bool.{Bool, true, false}
use mathlib.Core.List.{List, [], ◌∷◌, Permᴰ}
use mathlib.Core.Option.{Option, none, some}
use mathlib.Core.Logic.{inl, inr}
use native.Mathlib.Omega.{arith}
use opendray_v2_lab.Common.Tests.{Comparable, ◌==◌, if◌then◌else◌, Bool-cases}

-- Two tests of which at most one holds may be made in either order.
some_swap {κ} :
    {V : Type κ} (b c : Bool) (x y : V) (z : Option V)
    → (b ≡ true → c ≡ true → ⊥)
    → (if b then some x else if c then some y else z)
      ≡ (if c then some y else if b then some x else z)
some_swap true true x y z h = absurd (h refl refl)
some_swap true false x y z h = refl
some_swap false true x y z h = refl
some_swap false false x y z h = refl

module _ {ℓ κ} {K : Type ℓ} {V : Type κ} ⦃e : Comparable K⦄ where
  unfoldable pub lookup : K → List (K × V) → Option V
  lookup key [] = none
  lookup key ((here, val) ∷ rest) = if here == key then some val else lookup key rest

  unfoldable pub insert : K → V → List (K × V) → List (K × V)
  insert key val [] = (key, val) ∷ []
  insert key val ((here, old) ∷ rest) =
      if here == key then (key, val) ∷ rest else (here, old) ∷ insert key val rest

  -- Every entry under the key goes.
  unfoldable pub delete : K → List (K × V) → List (K × V)
  delete key [] = []
  delete key ((here, old) ∷ rest) =
      if here == key then delete key rest else (here, old) ∷ delete key rest

  pub lookup-insert :
      (key here : K) (val : V) (rest : List (K × V))
      → lookup here (insert key val rest) ≡ (if key == here then some val else lookup here rest)
  unfolding lookup insert
  lookup-insert key here val [] = refl
  lookup-insert key here val ((at, old) ∷ rest) = ground (
    arith,
    e.equals_iff key here,
    e.equals_iff at key,
    e.equals_iff at here,
    lookup-insert key here val rest,
  )

  pub lookup-delete :
      (key here : K) (rest : List (K × V))
      → lookup here (delete key rest) ≡ (if key == here then none else lookup here rest)
  unfolding lookup delete
  lookup-delete key here [] = ground arith
  lookup-delete key here ((at, old) ∷ rest) = ground (
    arith,
    e.equals_iff key here,
    e.equals_iff at key,
    e.equals_iff at here,
    lookup-delete key here rest,
  )

  -- Every value of the map satisfies `P`.
  abbrev pub AllValues {μ} : (V → Type μ) → List (K × V) → Type μ
  AllValues P [] = Unit
  AllValues P ((k, v) ∷ m) = P v × AllValues P m

  pub AllValues-insert {μ} :
      (P : V → Type μ) (k : K) (v : V) (m : List (K × V))
      → P v
      → AllValues P m
      → AllValues P (insert k v m)
  unfolding insert
  AllValues-insert P k v [] h a = (h, tt)
  AllValues-insert P k v ((j, w) ∷ m) h a = elim (Bool-cases (j == k)) [
    | inl same ↦ rw same (h, a.1)
    | inr other ↦ rw other (a.0, AllValues-insert P k v m h a.1)
  ]

  pub AllValues-delete {μ} :
      (P : V → Type μ) (k : K) (m : List (K × V)) → AllValues P m → AllValues P (delete k m)
  unfolding delete
  AllValues-delete P k [] a = tt
  AllValues-delete P k ((j, w) ∷ m) a = elim (Bool-cases (j == k)) [
    | inl same ↦ rw same (AllValues-delete P k m a.1)
    | inr other ↦ rw other (a.0, AllValues-delete P k m a.1)
  ]

  pub AllValues-lookup {μ} :
      (P : V → Type μ) (k : K) (v : V) (m : List (K × V))
      → AllValues P m
      → lookup k m ≡ some v
      → P v
  unfolding lookup
  AllValues-lookup P k v [] a e = cc
  AllValues-lookup P k v ((j, w) ∷ m) a e = elim (Bool-cases (j == k)) [
    | inl same ↦ subst P (ground arith) a.0
    | inr other ↦ AllValues-lookup P k v m a.1 (ground arith)
  ]

  -- No key stands twice, as in a Go map.
  abbrev pub Distinct : List (K × V) → Type κ
  Distinct [] = Unit
  Distinct ((k, v) ∷ m) = (lookup k m ≡ none) × Distinct m

  pub Distinct-insert : (k : K) (v : V) (m : List (K × V)) → Distinct m → Distinct (insert k v m)
  unfolding insert
  Distinct-insert k v [] d = (unfold lookup in refl, tt)
  Distinct-insert k v ((j, w) ∷ m) d = elim (Bool-cases (j == k)) [
    | inl same ↦ rw same (subst (λ i. lookup i m ≡ none) ((e.equals_iff j k).0 same) d.0, d.1)
    | inr other ↦ rw other (
      lookup-insert k j v m ∙ ground (arith, d.0, e.equals_iff k j, e.equals_iff j k),
      Distinct-insert k v m d.1,
    )
  ]

  pub Distinct-delete : (k : K) (m : List (K × V)) → Distinct m → Distinct (delete k m)
  unfolding delete
  Distinct-delete k [] d = tt
  Distinct-delete k ((j, w) ∷ m) d = elim (Bool-cases (j == k)) [
    | inl same ↦ rw same (Distinct-delete k m d.1)
    | inr other ↦ rw other (lookup-delete k j m ∙ ground (arith, d.0), Distinct-delete k m d.1)
  ]

  -- The same map in another order.
  abbrev pub SameMap : List (K × V) → List (K × V) → Type (κ ⊔ ℓ)
  SameMap m n = Distinct n × ((k : K) → lookup k m ≡ lookup k n)

  swapped :
      (a b : K × V) (m : List (K × V)) → Distinct (a ∷ b ∷ m) → SameMap (a ∷ b ∷ m) (b ∷ a ∷ m)
  unfolding lookup
  swapped a b m d =
      let differ : (b.0 == a.0) ≡ false = elim (Bool-cases (b.0 == a.0)) [
        | inl same ↦ absurd (cc (rw same at d.0))
        | inr other ↦ other
      ] in
      let differ' : (a.0 == b.0) ≡ false = elim (Bool-cases (a.0 == b.0)) [
        | inl same ↦
            absurd (cc (differ, (e.equals_iff b.0 a.0).1 (sym ((e.equals_iff a.0 b.0).0 same))))
        | inr other ↦ other
      ] in
      let one : (k : K) → (a.0 == k) ≡ true → (b.0 == k) ≡ true → ⊥ = λ k x y. cc (
        differ,
        (e.equals_iff b.0 a.0).1 ((e.equals_iff b.0 k).0 y ∙ sym ((e.equals_iff a.0 k).0 x)),
      ) in
      (
        (rw differ' d.1.0, ((rw differ at d.0), d.1.1)),
        λ k. some_swap (a.0 == k) (b.0 == k) a.1 b.1 (lookup k m) (one k),
      )

  pub reordered : {m n : List (K × V)} → Permᴰ m n → Distinct m → SameMap m n
  unfolding lookup
  reordered Permᴰ.nil d = (tt, (λ k. refl))
  reordered (Permᴰ.cons {a = a} {l₁ = l} {l₂ = r} same p) d =
      let (d', found) = reordered p d.1 in
      subst (λ b. SameMap (a ∷ l) (b ∷ r)) same
        ((sym (found a.0) ∙ d.0, d'), λ k. ap (λ o. if a.0 == k then some a.1 else o) (found k))
  reordered (Permᴰ.swap {a = a} {b = b} {b' = c} {l = l} same same') d =
      subst (λ x. SameMap (a ∷ b ∷ l) (x ∷ c ∷ l)) same'
        (subst (λ x. SameMap (a ∷ b ∷ l) (b ∷ x ∷ l)) same (swapped a b l d))
  reordered (Permᴰ.trans p q) d =
      let (d', found) = reordered p d in
      let (d'', found') = reordered q d' in (d'', (λ k. found k ∙ found' k))
