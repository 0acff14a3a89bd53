-- ===== src/Go/Regexp.antt =====
-- regexp.MatchString for anchored patterns, `^…$`, whose repetitions are of single bytes: byte classes,
-- literals, `?`, `+`, `{0,n}`, sequences and alternatives. The pattern is derived by each byte in turn.
pub mod Language
pub mod Classes
use opendray_v2_lab.Common.{
  ℕ, zero, suc, Bool, true, false, ◌&&◌, ◌||◌, [], ◌∷◌, Bytes, nat_beq, leb, codes, refl, ◌≡◌,
  if◌then◌else◌,
}

pub data Regex : Type 0 where
  fail : Regex
  empty : Regex
  one : (ℕ → Bool) → Regex
  many : (ℕ → Bool) → Regex
  upto : ℕ → (ℕ → Bool) → Regex
  seq : Regex → Regex → Regex
  alt : Regex → Regex → Regex

abbrev pub literal : Bytes → Regex
literal [] = empty
literal (c ∷ s) = seq (one (nat_beq c)) (literal s)

-- `+` and `?`
abbrev pub at_least_one : (ℕ → Bool) → Regex
at_least_one p = seq (one p) (many p)

abbrev pub optional : Regex → Regex
optional r = alt r empty

unfoldable pub nullable : Regex → Bool
nullable fail = false
nullable empty = true
nullable (one p) = false
nullable (many p) = true
nullable (upto n p) = true
nullable (seq a b) = nullable a && nullable b
nullable (alt a b) = nullable a || nullable b

unfoldable pub derive : ℕ → Regex → Regex
unfolding nullable
derive c fail = fail
derive c empty = fail
derive c (one p) = if p c then empty else fail
derive c (many p) = if p c then many p else fail
derive c (upto zero p) = fail
derive c (upto (suc n) p) = if p c then upto n p else fail
derive c (seq a b) =
    let left = derive c a in
    let right = derive c b in if nullable a then alt (seq left b) right else seq left b
derive c (alt a b) = alt (derive c a) (derive c b)

unfoldable pub match_string : Regex → Bytes → Bool
unfolding nullable derive
match_string r [] = nullable r
match_string r (c ∷ s) = match_string (derive c r) s

abbrev is_digit : ℕ → Bool
is_digit c = leb b'0' c && leb c b'9'

-- ^\d+(-\d+)?$
abbrev numbers : Regex
numbers = seq (at_least_one is_digit) (optional (seq (literal (codes "-")) (at_least_one is_digit)))

sample_matches :
    (match_string numbers (codes "12-345") ≡ true) × (match_string numbers (codes "12-") ≡ false)
unfolding match_string
sample_matches = (refl, refl)
