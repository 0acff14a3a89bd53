-- ===== src/Go/Sort/Insertion.antt =====
-- An insertion sort, as an instance of the interface of sort.Slice.
use mathlib.Core.List.{List, [], ◌∷◌, Perm, Mem, Pairwise, Pairwise-singleton, forall_mem-cons}
use mathlib.Core.List.Perm
use opendray_v2_lab.Common.Order.{IsStrictWeak, not_less_trans}
use opendray_v2_lab.Common.{◌≡◌, inl, inr, Bool, false, if◌then◌else◌, Bool-cases}
use opendray_v2_lab.Go.Sort.{Sorter, IsSorted}

module _ {A : Type 0} (less : A → A → Bool) where
  abbrev pub place : A → List A → List A
  place x [] = x ∷ []
  place x (y ∷ ys) = if less y x then y ∷ place x ys else x ∷ y ∷ ys

  abbrev pub isort : List A → List A
  isort [] = []
  isort (x ∷ xs) = place x (isort xs)

  pub place-perm : (x : A) (ys : List A) → Perm (place x ys) (x ∷ ys)
  place-perm x [] = Perm.rfl
  place-perm x (y ∷ ys) = elim (Bool-cases (less y x)) [
    | inl lo ↦ rw lo (Perm.trans (Perm.cons y (place-perm x ys)) (Perm.swap x y ys))
    | inr hi ↦ rw hi Perm.rfl
  ]

  pub isort-perm : (xs : List A) → Perm (isort xs) xs
  isort-perm [] = Perm.rfl
  isort-perm (x ∷ xs) = Perm.trans (place-perm x (isort xs)) (Perm.cons x (isort-perm xs))

  cons-IsBelow :
      {x y : A} {ys : List A}
      → less y x ≡ false
      → ((z : A) → Mem z ys → less z x ≡ false)
      → (z : A) → Mem z (y ∷ ys)
      → less z x ≡ false
  cons-IsBelow {x} h hs = (forall_mem-cons {p = λ z. less z x ≡ false} (λ z. hlevel)).1 (h, hs)

  place-IsSorted :
      IsStrictWeak less → (x : A) (ys : List A) → IsSorted less ys → IsSorted less (place x ys)
  place-IsSorted w x [] s = Pairwise-singleton _ x
  place-IsSorted w x (y ∷ ys) (Pairwise.cons h s) =
      let rest = place-IsSorted w x ys s in
      elim (Bool-cases (less y x)) [
        | inl lo ↦ rw lo (
            Pairwise.cons
              (λ z m. cons-IsBelow (w.asym y x lo) h z ((Perm.mem_iff (place-perm x ys)).0 m)) rest)
        | inr hi ↦ rw hi (
            Pairwise.cons (cons-IsBelow hi (λ z m. not_less_trans less w x y z hi (h z m)))
              (Pairwise.cons h s))
      ]

  pub isort-IsSorted : IsStrictWeak less → (xs : List A) → IsSorted less (isort xs)
  isort-IsSorted w [] = Pairwise.nil
  isort-IsSorted w (x ∷ xs) = place-IsSorted w x (isort xs) (isort-IsSorted w xs)

abbrev pub insertion : Sorter
insertion = record { sort = isort; sort_perm = isort-perm; sort_sorted = isort-IsSorted }
