-- ===== src/Go/Glob.antt =====
-- path.Match, and filepath.Match on a Unix system: a pattern is cut at its stars into chunks, and
-- each chunk takes the first place where it fits. A malformed pattern matches nothing here, as the
-- callers treat its error.
pub mod Literal
use opendray_v2_lab.Common.{
  ℕ, ◌≡◌, refl, ap, ◌∙◌, ◌↔◌, sym, Bool, true, false, not, ◌&&◌, ◌||◌, List, [], ◌∷◌, ◌++◌, arith,
  Bytes, codes, leb, nat_beq, nat_beq_iff, if◌then◌else◌, All, Option, none, some, any, append-nil,
}

abbrev pub slash : ℕ
slash = 47

abbrev star_char : ℕ
star_char = 42

abbrev backslash : ℕ
backslash = 92

-- One position of a chunk. A class holds whether it is negated, and its ranges.
pub data Item : Type 0 where
  lit : ℕ → Item
  any_char : Item
  class : Bool → List (ℕ × ℕ) → Item

-- Where in a chunk the reader stands; the modes inside a class carry what it has read of it.
pub data Mode : Type 0 where
  plain escaped opened : Mode
  bound bound_escaped : Bool → List (ℕ × ℕ) → Mode
  after_low after_dash after_dash_escaped : Bool → List (ℕ × ℕ) → ℕ → Mode

-- A range's low end, or the bracket that closes the class.
begin_bound : Bool → List (ℕ × ℕ) → ℕ → Option (Mode × List Item)
begin_bound negated [] c =
    if nat_beq c b'-' || nat_beq c b']'
    then none
    else if nat_beq c backslash
    then some (bound_escaped negated [], [])
    else some (after_low negated [] c, [])
begin_bound negated (range ∷ ranges) c =
    if nat_beq c b']'
    then some (plain, class negated (range ∷ ranges) ∷ [])
    else if nat_beq c b'-'
    then none
    else if nat_beq c backslash
    then some (bound_escaped negated (range ∷ ranges), [])
    else some (after_low negated (range ∷ ranges) c, [])

read_char : Mode → ℕ → Option (Mode × List Item)
unfolding begin_bound
read_char plain c =
    if nat_beq c b'['
    then some (opened, [])
    else if nat_beq c b'?'
    then some (plain, any_char ∷ [])
    else if nat_beq c backslash
    then some (escaped, [])
    else some (plain, lit c ∷ [])
read_char escaped c = some (plain, lit c ∷ [])
read_char opened c = if nat_beq c b'^' then some (bound true [], []) else begin_bound false [] c
read_char (bound negated ranges) c = begin_bound negated ranges c
read_char (bound_escaped negated ranges) c = some (after_low negated ranges c, [])
read_char (after_low negated ranges low) c =
    if nat_beq c b'-'
    then some (after_dash negated ranges low, [])
    else begin_bound negated ((low, low) ∷ ranges) c
read_char (after_dash negated ranges low) c =
    if nat_beq c b'-' || nat_beq c b']'
    then none
    else if nat_beq c backslash
    then some (after_dash_escaped negated ranges low, [])
    else some (bound negated ((low, c) ∷ ranges), [])
read_char (after_dash_escaped negated ranges low) c = some (bound negated ((low, c) ∷ ranges), [])

-- A chunk may end outside a class and an escape only.
read_chunk : Mode → Bytes → Option (List Item)
unfolding read_char
read_chunk plain [] = some []
read_chunk mode [] = none
read_chunk mode (c ∷ s) = elim (read_char mode c) [
  | none ↦ none
  | some (next, out) ↦ elim (read_chunk next s) [ none ↦ none | some items ↦ some (out ++ items) ]
]

accepts : Item → ℕ → Bool
accepts (lit c) b = nat_beq c b
accepts any_char b = not (nat_beq b slash)
accepts (class negated ranges) b =
    let inside = any (λ (r : ℕ × ℕ). leb r.0 b && leb b r.1) ranges in
    if negated then not inside else inside

-- matchChunk: the text behind the chunk.
match_chunk : List Item → Bytes → Option Bytes
unfolding accepts
match_chunk [] s = some s
match_chunk (item ∷ items) [] = none
match_chunk (item ∷ items) (b ∷ s) =
    let rest = match_chunk items s in if accepts item b then rest else none

-- The last chunk has to use up the name.
settle : Bool → Option Bytes → Option Bytes
settle last none = none
settle last (some []) = some []
settle last (some (b ∷ t)) = if last then none else some (b ∷ t)

-- The chunk behind a star: here, or after skipping bytes other than a slash.
find_chunk : List Item → Bool → Bytes → Option Bytes
unfolding match_chunk settle
find_chunk items last [] = settle last (match_chunk items [])
find_chunk items last (b ∷ s) =
    let later = find_chunk items last s in
    elim (settle last (match_chunk items (b ∷ s))) [
      | some t ↦ some t
      | none ↦ if nat_beq b slash then none else later
    ]

-- Stars in a row are one star.
merge : Bytes → List Bytes → List Bytes
merge [] (next ∷ starred) = next ∷ starred
merge [] [] = [] ∷ []
merge (c ∷ chunk) starred = (c ∷ chunk) ∷ starred

-- scanChunk, over the whole pattern: the chunk that goes on here, and the starred ones behind it.
-- The arguments say whether the reader is between brackets, and behind a backslash.
cut_chunks : Bool → Bool → Bytes → Bytes × List Bytes
unfolding merge
cut_chunks in_range skip [] = ([], [])
cut_chunks in_range true (c ∷ s) =
    let (chunk, starred) = cut_chunks in_range false s in (c ∷ chunk, starred)
cut_chunks in_range false (c ∷ s) =
    let between = if nat_beq c b'[' then true else if nat_beq c b']' then false else in_range in
    let (chunk, starred) = cut_chunks between (nat_beq c backslash) s in
    if nat_beq c star_char && not in_range then ([], merge chunk starred) else (c ∷ chunk, starred)

unfoldable pub no_slash : Bytes → Bool
no_slash s = not (any (nat_beq slash) s)

is_last : List Bytes → Bool
is_last [] = true
is_last (chunk ∷ starred) = false

-- The chunks behind stars against what is left of the name; an empty one ends the pattern.
match_starred : List Bytes → Bytes → Bool
unfolding no_slash is_last
match_starred [] [] = true
match_starred [] (b ∷ s) = false
match_starred ([] ∷ starred) s = no_slash s
match_starred ((c ∷ chunk) ∷ starred) s = elim (read_chunk plain (c ∷ chunk)) [
  | none ↦ false
  | some items ↦ elim (find_chunk items (is_last starred) s) [
    | none ↦ false
    | some t ↦ match_starred starred t
  ]
]

match_cut : Bytes × List Bytes → Bytes → Bool
unfolding match_starred
match_cut ([], starred) s = match_starred starred s
match_cut (c ∷ chunk, starred) s = elim (read_chunk plain (c ∷ chunk)) [
  | none ↦ false
  | some items ↦ elim (settle (is_last starred) (match_chunk items s)) [
    | none ↦ false
    | some t ↦ match_starred starred t
  ]
]

-- path.Match(pattern, name), true where it returns true with no error.
unfoldable pub path_match : Bytes → Bytes → Bool
unfolding cut_chunks match_cut read_chunk find_chunk match_chunk settle
path_match pattern name = match_cut (cut_chunks false false pattern) name

sample_match :
    (path_match (codes "*.git[a-c]?") (codes "x.gitbz") ≡ true)
    × (path_match (codes "/w/*") (codes "/w/a/b") ≡ false)
    × (path_match (codes "a**b*[!") (codes "aab") ≡ false)
unfolding path_match
sample_match = (refl, refl, refl)
