-- ===== src/Go/Strings.antt =====
-- strings.Fields, Contains, Index, ReplaceAll, ContainsAny, HasSuffix and EqualFold, over ASCII bytes.
pub mod Contains
use opendray_v2_lab.Common.{
  ℕ, zero, suc, ◌+◌, ◌-◌, ◌≡◌, refl, Bool, true, false, ◌&&◌, ◌||◌, List, [], ◌∷◌, ◌++◌, Bytes, leb,
  nat_beq, if◌then◌else◌, length, drop, has_prefix, Option, none, some, any, map, bytes_beq, codes,
}

-- The white space of strings.Fields: tab to carriage return, and the blank.
unfoldable pub is_space : ℕ → Bool
is_space c = (leb 9 c && leb c 13) || nat_beq c 32

-- A token begins where `c` stands before a blank or the end, and else grows the token behind it.
unfoldable pub push_byte : Bool → ℕ → List Bytes → List Bytes
push_byte true c tokens = (c ∷ []) ∷ tokens
push_byte false c [] = (c ∷ []) ∷ []
push_byte false c (t ∷ tokens) = (c ∷ t) ∷ tokens

-- Whether a token ends before this text.
unfoldable pub at_gap : Bytes → Bool
unfolding is_space
at_gap [] = true
at_gap (c ∷ s) = is_space c

unfoldable pub fields : Bytes → List Bytes
unfolding is_space push_byte at_gap
fields [] = []
fields (c ∷ s) =
    let tokens = fields s in if is_space c then tokens else push_byte (at_gap s) c tokens

-- strings.Contains(s, sub)
unfoldable pub contains : Bytes → Bytes → Bool
contains [] sub = has_prefix [] sub
contains (c ∷ s) sub = has_prefix (c ∷ s) sub || contains s sub

-- strings.ContainsAny(s, chars)
unfoldable pub contains_any : Bytes → Bytes → Bool
contains_any s chars = any (λ c. any (nat_beq c) chars) s

-- strings.Index as the text before the first `sub` and the text from it on.
unfoldable pub cut_at : Bytes → Bytes → Option (Bytes × Bytes)
cut_at [] sub = if has_prefix [] sub then some ([], []) else none
cut_at (c ∷ s) sub =
    let later = cut_at s sub in
    if has_prefix (c ∷ s) sub
    then some ([], c ∷ s)
    else elim later [ none ↦ none | some (before, found) ↦ some (c ∷ before, found) ]

-- strings.ReplaceAll(s, old, new) for a non-empty `old`; `skip` bytes of a hit are still to pass.
unfoldable pub replace_from : Bytes → Bytes → ℕ → Bytes → Bytes
replace_from old new skip [] = []
replace_from old new zero (c ∷ s) =
    let hit = has_prefix (c ∷ s) old in
    let rest = replace_from old new (if hit then length old - 1 else 0) s in
    if hit then new ++ rest else c ∷ rest
replace_from old new (suc skip) (c ∷ s) = replace_from old new skip s

unfoldable pub replace_all : Bytes → Bytes → Bytes → Bytes
unfolding replace_from
replace_all s old new = replace_from old new 0 s

-- strings.HasSuffix(s, p)
unfoldable pub has_suffix : Bytes → Bytes → Bool
has_suffix s p = leb (length p) (length s) && bytes_beq (drop (length s - length p) s) p

unfoldable pub lower : ℕ → ℕ
lower c = if leb b'A' c && leb c b'Z' then c + 32 else c

-- strings.EqualFold(s, t)
unfoldable pub equal_fold : Bytes → Bytes → Bool
unfolding lower
equal_fold s t = bytes_beq (map lower s) (map lower t)

sample_fields : fields (codes " git  log\t-1 ") ≡ codes "git" ∷ codes "log" ∷ codes "-1" ∷ []
unfolding fields
sample_fields = refl

sample_replace : replace_all (codes "${a}/x/${a}") (codes "${a}") (codes "/w") ≡ codes "/w/x//w"
unfolding replace_all
sample_replace = refl
