-- ===== src/Gateway/LlmStream/Protocol/Blocks.antt =====
-- gateway/llm_proxy/stream.go: the calls of a stream by their keys, and how many have an open block.
use opendray_v2_lab.Common.Order.{ℤ, int_eq}
use opendray_v2_lab.Common.Dict.{lookup, insert, lookup-insert, Distinct}
use opendray_v2_lab.Common.{
  ℕ, ◌+◌, ◌≡◌, refl, sym, subst, ◌∙◌, inl, inr, Bool, true, false, List, [], ◌∷◌, Option, none,
  some, ◌==◌, Bool-cases, arith,
}
use opendray_v2_lab.Gateway.LlmStream.{ToolState}

abbrev pub one_if : Bool → ℕ
one_if true = 1
one_if false = 0

abbrev pub open_in : Option ToolState → ℕ
open_in none = 0
open_in (some st) = one_if st.opened

unfoldable pub open_count : List (ℤ × ToolState) → ℕ
open_count [] = 0
open_count ((k, st) ∷ rest) = one_if st.opened + open_count rest

pub open_count-insert :
    (k : ℤ) (st : ToolState) (m : List (ℤ × ToolState))
    → open_count (insert k st m) + open_in (lookup k m) ≡ open_count m + one_if st.opened
unfolding open_count insert lookup
open_count-insert k st [] = omega arith
open_count-insert k st ((j, old) ∷ m) = elim (Bool-cases (j == k)) [
  | inl same ↦ rw same (omega arith)
  | inr other ↦ rw other (omega (arith, open_count-insert k st m))
]

module _ (k : ℤ) (st : ToolState) (m : List (ℤ × ToolState)) where
  pub lookup-insert_same : lookup k (insert k st m) ≡ some st
  lookup-insert_same = lookup-insert k k st m ∙ ground (arith, int_eq.equals_iff k k)

  pub lookup-insert_other : (j : ℤ) → (k == j ≡ false) → lookup j (insert k st m) ≡ lookup j m
  lookup-insert_other j other = lookup-insert k j st m ∙ rw other refl

  -- What holds of each entry once one is put in.
  pub insert_each :
      (P : ℤ → ToolState → Type 0)
      → P k st
      → ((j : ℤ) (t : ToolState) → (k == j ≡ false) → lookup j m ≡ some t → P j t)
      → (j : ℤ) (t : ToolState) → lookup j (insert k st m) ≡ some t
      → P j t
  insert_each P here others j t h = elim (Bool-cases (k == j)) [
    | inl same ↦
        let at : k ≡ j = (int_eq.equals_iff k j).0 same in
        let it : st ≡ t = ground (arith, lookup-insert k j st m, h, same) in
        subst (λ i. P i t) at (subst (P k) it here)
    | inr other ↦ others j t other (sym (lookup-insert_other j other) ∙ h)
  ]

pub Distinct-insert_over :
    (k : ℤ) (st st' : ToolState) (m : List (ℤ × ToolState))
    → Distinct (insert k st m)
    → Distinct (insert k st' m)
unfolding insert
Distinct-insert_over k st st' [] d = d
Distinct-insert_over k st st' ((j, old) ∷ m) d = elim (Bool-cases (j == k)) [
  | inl same ↦
      let e : insert k st ((j, old) ∷ m) ≡ (k, st) ∷ m = rw same refl in
      let d' : Distinct ((k, st) ∷ m) = subst Distinct e d in rw same d'
  | inr other ↦
      let e : insert k st ((j, old) ∷ m) ≡ (j, old) ∷ insert k st m = rw other refl in
      let d' : Distinct ((j, old) ∷ insert k st m) = subst Distinct e d in
      rw other (
        ground (arith, lookup-insert k j st m, lookup-insert k j st' m, d'.0),
        Distinct-insert_over k st st' m d'.1,
      )
]
