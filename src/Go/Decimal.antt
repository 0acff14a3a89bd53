-- ===== src/Go/Decimal.antt =====
-- strconv.FormatInt and strconv.Atoi in base ten, for a 64-bit int.
use opendray_v2_lab.Common.Order.{ℤ, pos, negsuc}
use opendray_v2_lab.Common.{
  ℕ, zero, suc, ◌+◌, ◌-◌, ◌*◌, ◌/◌, ◌%◌, ◌^◌, ◌≤◌, ◌<◌, ◌≡◌, inl, inr, refl, sym, ap, subst, ◌∙◌,
  Bool-cases, Bool, true, false, ◌&&◌, [], ◌∷◌, Bytes, length, leb, ltb, nat_beq, if◌then◌else◌,
  Option, none, some, arith,
}

-- The digits of a number in front of `out`; more rounds than the number make no difference.
unfoldable pub digits : ℕ → ℕ → Bytes → Bytes
digits zero n out = out
digits (suc rounds) n out =
    let longer = digits rounds (n / 10) ((b'0' + n % 10) ∷ out) in
    if ltb n 10 then (b'0' + n % 10) ∷ out else longer

unfoldable pub format_nat : ℕ → Bytes
unfolding digits
format_nat n = digits (suc n) n []

abbrev pub is_digit : ℕ → Bool
is_digit c = leb b'0' c && leb c b'9'

unfoldable pub scan_digits : Bytes → ℕ → Option ℕ
scan_digits [] n = some n
scan_digits (c ∷ s) n =
    let rest = scan_digits s (n * 10 + (c - b'0')) in if is_digit c then rest else none

-- An empty text is a syntax error.
unfoldable pub magnitude : Bytes → Option ℕ
unfolding scan_digits
magnitude [] = none
magnitude (c ∷ s) = scan_digits (c ∷ s) 0

abbrev pub max_int : ℕ
max_int = 2 ^ 63 - 1

abbrev signed_pos : Option ℕ → Option ℤ
signed_pos none = none
signed_pos (some n) = if leb n max_int then some (pos n) else none

abbrev negate : ℕ → ℤ
negate zero = pos 0
negate (suc n) = negsuc n

abbrev signed_neg : Option ℕ → Option ℤ
signed_neg none = none
signed_neg (some n) = if leb n (max_int + 1) then some (negate n) else none

unfoldable pub atoi : Bytes → Option ℤ
unfolding magnitude
atoi [] = none
atoi (c ∷ s) =
    if nat_beq c b'-'
    then signed_neg (magnitude s)
    else if nat_beq c b'+'
    then signed_pos (magnitude s)
    else signed_pos (magnitude (c ∷ s))

abbrev pub AllDigits : Bytes → Type 0
AllDigits [] = Unit
AllDigits (c ∷ s) = (b'0' ≤ c) × (c ≤ b'9') × AllDigits s

pub digits-AllDigits :
    (rounds n : ℕ) (out : Bytes) → AllDigits out → AllDigits (digits rounds n out)
unfolding digits
digits-AllDigits zero n out h = h
digits-AllDigits (suc rounds) n out h =
    let here : AllDigits ((b'0' + n % 10) ∷ out) = (omega arith, omega arith, h) in
    let longer = digits-AllDigits rounds (n / 10) ((b'0' + n % 10) ∷ out) here in
    elim (ltb n 10)
      as (λ b.
        AllDigits
          (if b then (b'0' + n % 10) ∷ out else digits rounds (n / 10) ((b'0' + n % 10) ∷ out))) [
            | true ↦ here
            | false ↦ longer
          ]

scan-digits :
    (rounds n : ℕ) (out : Bytes)
    → n < rounds
    → scan_digits (digits rounds n out) 0 ≡ scan_digits out n
unfolding digits scan_digits
scan-digits zero n out h = absurd (omega arith)
scan-digits (suc rounds) n out h =
    ground (arith, scan-digits rounds (n / 10) ((b'0' + n % 10) ∷ out))

pub scan-format_nat : (n : ℕ) → scan_digits (format_nat n) 0 ≡ some n
unfolding format_nat scan_digits
scan-format_nat n = scan-digits (suc n) n [] (omega arith)

digits-cons :
    (rounds n c : ℕ) (out : Bytes) → (x : ℕ) × (s : Bytes) × (digits rounds n (c ∷ out) ≡ x ∷ s)
unfolding digits
digits-cons zero n c out = (c, out, refl)
digits-cons (suc rounds) n c out =
    let (x, s, e) = digits-cons rounds (n / 10) (b'0' + n % 10) (c ∷ out) in
    elim (Bool-cases (ltb n 10)) [
      | inl last ↦ (b'0' + n % 10, c ∷ out, rw last)
      | inr more ↦ (x, s, rw more e)
    ]

pub format_nat-cons : (n : ℕ) → (x : ℕ) × (s : Bytes) × (format_nat n ≡ x ∷ s)
unfolding format_nat digits
format_nat-cons n =
    let (x, s, e) = digits-cons n (n / 10) (b'0' + n % 10) [] in
    elim (Bool-cases (ltb n 10)) [
      | inl last ↦ (b'0' + n % 10, [], rw last)
      | inr more ↦ (x, s, rw more e)
    ]

pub format_nat-AllDigits : (n : ℕ) → AllDigits (format_nat n)
unfolding format_nat
format_nat-AllDigits n = digits-AllDigits (suc n) n [] tt

atoi_digits :
    (c : ℕ) (s : Bytes) (n : ℕ)
    → AllDigits (c ∷ s)
    → scan_digits (c ∷ s) 0 ≡ some n
    → n ≤ max_int
    → atoi (c ∷ s) ≡ some (pos n)
unfolding atoi magnitude
atoi_digits c s n d e h = ground (arith, d.0, d.1, e)

-- Every number of an int is read back from its decimal print.
pub atoi-format_nat : (n : ℕ) → n ≤ max_int → atoi (format_nat n) ≡ some (pos n)
atoi-format_nat n h =
    let (c, s, e) = format_nat-cons n in
    rw e (
      atoi_digits c s n (subst AllDigits e (format_nat-AllDigits n))
        (ap (λ t. scan_digits t 0) (sym e) ∙ scan-format_nat n) h)

-- Ten to the power of a number of digits.
abbrev pub limit : ℕ → ℕ
limit zero = 1
limit (suc k) = 10 * limit k

digits-length :
    (k rounds n : ℕ) (out : Bytes)
    → n < limit (suc k)
    → length (digits rounds n out) ≤ suc k + length out
unfolding digits
digits-length k zero n out h = omega arith
digits-length zero (suc rounds) n out h = ground arith
digits-length (suc k) (suc rounds) n out h =
    ground (arith, digits-length k rounds (n / 10) ((b'0' + n % 10) ∷ out) (omega arith))

-- A number of at most k digits prints so.
pub length-format_nat : (k n : ℕ) → n < limit (suc k) → length (format_nat n) ≤ suc k
unfolding format_nat
length-format_nat k n h = omega (arith, digits-length k (suc n) n [] h)
