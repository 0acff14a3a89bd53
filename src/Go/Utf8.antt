-- ===== src/Go/Utf8.antt =====
-- The number of runes that a Go string converts to: a byte that starts no well-formed sequence is one rune.
use opendray_v2_lab.Common.{
  ℕ, zero, suc, ◌≤◌, ◌≡◌, refl, Bool, true, false, ◌&&◌, [], ◌∷◌, Bytes, leb, nat_beq, length,
  arith, if◌then◌else◌,
}

abbrev within : ℕ → ℕ → Bytes → Bool
within lo hi [] = false
within lo hi (c ∷ s) = leb lo c && leb c hi

abbrev rest_of : Bytes → Bytes
rest_of [] = []
rest_of (c ∷ s) = s

-- The tail of a sequence of two, three or four bytes, whose second byte lies between two bounds.
abbrev ends_two : ℕ → ℕ → Bytes → Bool
ends_two lo hi s = within lo hi s

abbrev ends_three : ℕ → ℕ → Bytes → Bool
ends_three lo hi s = within lo hi s && within 128 191 (rest_of s)

abbrev ends_four : ℕ → ℕ → Bytes → Bool
ends_four lo hi s =
    within lo hi s && (within 128 191 (rest_of s) && within 128 191 (rest_of (rest_of s)))

abbrev not_surrogate : ℕ → Bool
not_surrogate c = if nat_beq c 237 then false else true

-- How many bytes after `c` belong to its rune.
unfoldable pub extra : ℕ → Bytes → ℕ
extra c s =
    if leb 194 c && leb c 223 && ends_two 128 191 s
    then 1
    else if nat_beq c 224 && ends_three 160 191 s
    then 2
    else if nat_beq c 237 && ends_three 128 159 s
    then 2
    else if leb 225 c && leb c 239 && not_surrogate c && ends_three 128 191 s
    then 2
    else if nat_beq c 240 && ends_four 144 191 s
    then 3
    else if leb 241 c && leb c 243 && ends_four 128 191 s
    then 3
    else if nat_beq c 244 && ends_four 128 143 s
    then 3
    else 0

-- `skip` bytes of a rune are still to pass.
unfoldable pub runes_from : ℕ → Bytes → ℕ
unfolding extra
runes_from skip [] = 0
runes_from zero (c ∷ s) = suc (runes_from (extra c s) s)
runes_from (suc skip) (c ∷ s) = runes_from skip s

-- len([]rune(s))
unfoldable pub rune_count : Bytes → ℕ
unfolding runes_from
rune_count s = runes_from 0 s

-- "née", "€" and a lone continuation byte
sample_runes : rune_count (110 ∷ 195 ∷ 169 ∷ 101 ∷ 226 ∷ 130 ∷ 172 ∷ 128 ∷ []) ≡ 5
unfolding rune_count
sample_runes = refl

runes_from_le : (skip : ℕ) (s : Bytes) → runes_from skip s ≤ length s
unfolding runes_from
runes_from_le skip [] = omega arith
runes_from_le zero (c ∷ s) = omega (arith, runes_from_le (extra c s) s)
runes_from_le (suc skip) (c ∷ s) = omega (arith, runes_from_le skip s)

pub rune_count_le : (s : Bytes) → rune_count s ≤ length s
unfolding rune_count
rune_count_le s = runes_from_le 0 s
