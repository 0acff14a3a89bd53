-- ===== src/Go/Sort.antt =====
-- Go's sort.Slice: a package the code calls, so an interface. It may reorder equal elements, but it
-- is a function of its input.
pub mod Insertion
use mathlib.Core.Path.{◌≡◌, ap₂}
use mathlib.Core.Bool.{Bool, false}
use mathlib.Core.List.{
  List, [], ◌∷◌, Mem, Perm, Pairwise, mem-cons_self, mem-cons_of_mem, forall_mem-cons,
}
use mathlib.Core.List.Pairwise
use mathlib.Core.List.Perm
use opendray_v2_lab.Common.Order.{IsStrictWeak, less_irrefl}

-- No element is less than an earlier one.
abbrev pub IsSorted {ℓ} : {A : Type ℓ} → (A → A → Bool) → List A → Type ℓ
IsSorted less = Pairwise (λ x y. less y x ≡ false)

-- What the package documents of sort.Slice.
pub record Sorter : Type 1 where
  pub sort : {A : Type 0} → (A → A → Bool) → List A → List A
  pub sort_perm : {A : Type 0} (less : A → A → Bool) (xs : List A) → Perm (sort less xs) xs
  pub sort_sorted :
      {A : Type 0} (less : A → A → Bool)
      → IsStrictWeak less
      → (xs : List A) → IsSorted less (sort less xs)

module _ {ℓ} {A : Type ℓ} (less : A → A → Bool) (w : IsStrictWeak less) where
  -- Elements that neither precedes are one element.
  abbrev pub Separated : List A → Type ℓ
  Separated l = (x y : A) → Mem x l → Mem y l → less y x ≡ false → less x y ≡ false → x ≡ y

  head_first :
      {x y : A} {xs ys : List A}
      → IsSorted less (x ∷ xs)
      → Perm (y ∷ ys) (x ∷ xs)
      → less y x ≡ false
  head_first {x} {y} (Pairwise.cons h s) p =
      (forall_mem-cons {p = λ z. less z x ≡ false} (λ z. hlevel)).1 (less_irrefl less w x, h) y
        ((Perm.mem_iff p).0 mem-cons_self)

  -- Two sorted orders of one collection are equal.
  pub sorted_unique :
      (xs ys : List A) → Separated xs → IsSorted less xs → IsSorted less ys → Perm xs ys → xs ≡ ys
  sorted_unique [] ys sep sx sy p = Perm.nil-eq p
  sorted_unique (x ∷ xs) [] sep sx sy p = Perm.eq-nil p
  sorted_unique (x ∷ xs) (y ∷ ys) sep sx sy p =
      let same =
        sep x y mem-cons_self ((Perm.mem_iff p).1 mem-cons_self) (head_first sx (Perm.symm p))
          (head_first sy p) in
      let tails = Perm.cons_inv (Perm.trans p (Perm.symm (Perm.cons' same Perm.rfl))) in
      ap₂ ◌∷◌ same (
        sorted_unique xs ys (λ a b ma mb. sep a b (mem-cons_of_mem x ma) (mem-cons_of_mem x mb))
          (Pairwise.of_cons sx) (Pairwise.of_cons sy) tails)
