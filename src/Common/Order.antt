-- ===== src/Common/Order.antt =====
-- Orders given by a Boolean test, and the lexicographic orders that Go code writes for sort.Slice.
use Prim.Native.Nat.{ℕ}
use mathlib.Core.Path.{◌≡◌, refl, subst}
use mathlib.Core.Logic.{◌⊎◌, inl, inr, ◌↔◌}
use mathlib.Core.Bool.{Bool, true, false}
use mathlib.Core.List.{[], ◌∷◌}
use native.Mathlib.Omega.{arith}
use opendray_v2_lab.Common.Tests.{Comparable, ◌==◌, ltb, nat_beq, nat_eq, if◌then◌else◌, Bool-cases}
use opendray_v2_lab.Common.Text.{Bytes, bytes_beq, bytes_eq}

-- What sort.Slice asks of its `less`.
pub record IsStrictWeak {ℓ} {A : Type ℓ} (less : A → A → Bool) : Type ℓ where
  pub asym : (a b : A) → less a b ≡ true → less b a ≡ false
  pub cotrans : (a b c : A) → less a c ≡ true → (less a b ≡ true) ⊎ (less b c ≡ true)

pub record IsStrictTotal {ℓ} {A : Type ℓ} ⦃e : Comparable A⦄ (less : A → A → Bool) : Type ℓ where
  pub weak : IsStrictWeak less
  pub total : (a b : A) → (a == b ≡ false) → (less a b ≡ true) ⊎ (less b a ≡ true)

module _ {ℓ} {A : Type ℓ} (less : A → A → Bool) (w : IsStrictWeak less) where
  pub less_irrefl : (a : A) → less a a ≡ false
  less_irrefl a = elim (Bool-cases (less a a)) [ inl down ↦ w.asym a a down | inr up ↦ up ]

  -- `not less b a` is transitive.
  pub not_less_trans : (a b c : A) → less b a ≡ false → less c b ≡ false → less c a ≡ false
  not_less_trans a b c ba cb = elim (Bool-cases (less c a)) [
    | inl ca ↦ elim (w.cotrans c b a ca) [ inl h ↦ cc | inr h ↦ cc ]
    | inr up ↦ up
  ]

pub ltb-IsStrictTotal : IsStrictTotal ltb
ltb-IsStrictTotal = record {
  weak = record { asym = λ a b h. ground (arith, h); cotrans = λ a b c h. ground (arith, h) };
  total = λ a b h. ground (arith, h);
}

pub IsStrictWeak-ext {ℓ} :
    {A : Type ℓ} {less lt : A → A → Bool}
    → ((a b : A) → less a b ≡ lt a b)
    → IsStrictWeak less
    → IsStrictWeak lt
IsStrictWeak-ext e w = subst IsStrictWeak (λ k a b. e a b k) w

-- Go's `<` on strings.
abbrev pub bytes_ltb : Bytes → Bytes → Bool
bytes_ltb s [] = false
bytes_ltb [] (b ∷ t) = true
bytes_ltb (a ∷ s) (b ∷ t) = if nat_beq a b then bytes_ltb s t else ltb a b

bytes-asym : (s t : Bytes) → bytes_ltb s t ≡ true → bytes_ltb t s ≡ false
bytes-asym s [] h = cc
bytes-asym [] (b ∷ t) h = refl
bytes-asym (a ∷ s) (b ∷ t) h = ground (arith, h, bytes-asym s t)

bytes-cotrans :
    (s t u : Bytes) → bytes_ltb s u ≡ true → (bytes_ltb s t ≡ true) ⊎ (bytes_ltb t u ≡ true)
bytes-cotrans s t [] h = cc
bytes-cotrans s [] (c ∷ u) h = inr refl
bytes-cotrans [] (b ∷ t) (c ∷ u) h = inl refl
bytes-cotrans (a ∷ s) (b ∷ t) (c ∷ u) h = ground (arith, h, bytes-cotrans s t u)

bytes-total :
    (s t : Bytes) → bytes_beq s t ≡ false → (bytes_ltb s t ≡ true) ⊎ (bytes_ltb t s ≡ true)
bytes-total [] [] h = cc
bytes-total [] (b ∷ t) h = inl refl
bytes-total (a ∷ s) [] h = inr refl
bytes-total (a ∷ s) (b ∷ t) h = ground (arith, h, bytes-total s t)

pub bytes_ltb-IsStrictTotal : IsStrictTotal bytes_ltb
bytes_ltb-IsStrictTotal = record {
  weak = record { asym = bytes-asym; cotrans = bytes-cotrans };
  total = bytes-total;
}

-- Go's int, for what does not depend on its width.
pub data ℤ : Type 0 where
  pos : ℕ → ℤ
  negsuc : ℕ → ℤ

abbrev pub int_beq : ℤ → ℤ → Bool
int_beq (pos m) (pos n) = nat_beq m n
int_beq (pos m) (negsuc n) = false
int_beq (negsuc m) (pos n) = false
int_beq (negsuc m) (negsuc n) = nat_beq m n

abbrev pub int_ltb : ℤ → ℤ → Bool
int_ltb (pos m) (pos n) = ltb m n
int_ltb (pos m) (negsuc n) = false
int_ltb (negsuc m) (pos n) = true
int_ltb (negsuc m) (negsuc n) = ltb n m

pub int_beq_iff : (a b : ℤ) → (int_beq a b ≡ true) ↔ (a ≡ b)
int_beq_iff (pos m) (pos n) = ground arith
int_beq_iff (pos m) (negsuc n) = ground arith
int_beq_iff (negsuc m) (pos n) = ground arith
int_beq_iff (negsuc m) (negsuc n) = ground arith

instance abbrev pub int_eq : Comparable ℤ
int_eq = record { equals = int_beq; equals_iff = int_beq_iff }

int-asym : (a b : ℤ) → int_ltb b a ≡ true → int_ltb a b ≡ false
int-asym (pos m) (pos n) h = ground (arith, h)
int-asym (pos m) (negsuc n) h = refl
int-asym (negsuc m) (pos n) h = cc
int-asym (negsuc m) (negsuc n) h = ground (arith, h)

int-cotrans : (a b c : ℤ) → int_ltb c a ≡ true → (int_ltb b a ≡ true) ⊎ (int_ltb c b ≡ true)
int-cotrans (pos l) (pos m) (pos n) h = ground (arith, h)
int-cotrans (pos l) (pos m) (negsuc n) h = inr refl
int-cotrans (pos l) (negsuc m) c h = inl refl
int-cotrans (negsuc l) b (pos n) h = cc
int-cotrans (negsuc l) (pos m) (negsuc n) h = inr refl
int-cotrans (negsuc l) (negsuc m) (negsuc n) h = ground (arith, h)

int-total : (a b : ℤ) → int_beq a b ≡ false → (int_ltb b a ≡ true) ⊎ (int_ltb a b ≡ true)
int-total (pos m) (pos n) h = ground (arith, h)
int-total (pos m) (negsuc n) h = inl refl
int-total (negsuc m) (pos n) h = inr refl
int-total (negsuc m) (negsuc n) h = ground (arith, h)

-- Higher first.
pub int_gtb-IsStrictTotal : IsStrictTotal (λ (a : ℤ) (b : ℤ). int_ltb b a)
int_gtb-IsStrictTotal = record {
  weak = record { asym = int-asym; cotrans = int-cotrans };
  total = int-total;
}

module _ {ℓ κ} {A : Type ℓ} {B : Type κ} (f : A → B) where
  pub by_key : (lt : B → B → Bool) → IsStrictWeak lt → IsStrictWeak (λ a b. lt (f a) (f b))
  by_key lt w = record {
    asym = λ a b. w.asym (f a) (f b);
    cotrans = λ a b c. w.cotrans (f a) (f b) (f c);
  }

module _ {ℓ κ} {A : Type ℓ} {B : Type κ} ⦃e : Comparable B⦄ (f : A → B) where
  -- Unequal keys decide, equal keys leave the decision to `rest`.
  abbrev pub then_by : (B → B → Bool) → (A → A → Bool) → A → A → Bool
  then_by lt rest a b = if f a == f b then rest a b else lt (f a) (f b)

module _ {ℓ} {B : Type ℓ} ⦃e : Comparable B⦄ (lt : B → B → Bool) (t : IsStrictTotal lt) where
  then-asym :
      (x y : B) (r s : Bool)
      → (r ≡ true → s ≡ false)
      → (if x == y then r else lt x y) ≡ true
      → (if y == x then s else lt y x) ≡ false
  then-asym x y r s rest h =
      ground (arith, rest, h, e.equals_iff x y, e.equals_iff y x, t.weak.asym x y)

  then-cotrans :
      (x y z : B) (ac ab bc : Bool)
      → (ac ≡ true → (ab ≡ true) ⊎ (bc ≡ true))
      → (if x == z then ac else lt x z) ≡ true
      → ((if x == y then ab else lt x y) ≡ true) ⊎ ((if y == z then bc else lt y z) ≡ true)
  then-cotrans x y z ac ab bc rest h = ground (
    arith,
    rest,
    h,
    e.equals_iff x y,
    e.equals_iff y z,
    e.equals_iff x z,
    t.weak.cotrans x y z,
    t.total x y,
  )

module _ {ℓ κ} {A : Type ℓ} {B : Type κ} ⦃e : Comparable B⦄ (f : A → B) where
  pub then_by-IsStrictWeak :
      (lt : B → B → Bool) (rest : A → A → Bool)
      → IsStrictTotal lt
      → IsStrictWeak rest
      → IsStrictWeak (then_by f lt rest)
  then_by-IsStrictWeak lt rest t w = record {
    asym = λ a b h. then-asym lt t (f a) (f b) (rest a b) (rest b a) (w.asym a b) h;
    cotrans = λ a b c h.
        then-cotrans lt t (f a) (f b) (f c) (rest a c) (rest a b) (rest b c) (w.cotrans a b c) h;
  }
