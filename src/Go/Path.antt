-- ===== src/Go/Path.antt =====
-- filepath.IsAbs and filepath.Clean on a Unix system.
pub mod Join
pub mod Below
pub mod Relative
use opendray_v2_lab.Common.{
  ℕ, ◌≡◌, ◌≢◌, refl, Bool, true, false, not, ◌&&◌, ◌||◌, List, [], ◌∷◌, ◌++◌, arith, Bytes, codes,
  nat_beq, bytes_beq, bytes_beq_iff, if◌then◌else◌, All, every, ◌⊎◌, ap, Bool-cases, inl, inr,
}

abbrev pub slash : ℕ
slash = 47

unfoldable pub is_abs : Bytes → Bool
is_abs [] = false
is_abs (c ∷ s) = nat_beq c slash

-- The text between slashes, one part more than there are slashes.
unfoldable pub components : Bytes → List Bytes
components [] = [] ∷ []
components (c ∷ s) = elim (components s) [
  | [] ↦ []
  | part ∷ parts ↦ if nat_beq c slash then [] ∷ part ∷ parts else (c ∷ part) ∷ parts
]

abbrev pub dot : Bytes
dot = codes "."

abbrev pub dot_dot : Bytes
dot_dot = codes ".."

abbrev pub tail_of : List Bytes → List Bytes
tail_of [] = []
tail_of (x ∷ xs) = xs

-- One component of a rooted path, against the components kept so far, the innermost first: an
-- empty one and `.` vanish, and `..` removes the innermost, if there is one.
unfoldable pub visit : List Bytes → Bytes → List Bytes
visit kept part =
    if bytes_beq part [] || bytes_beq part dot
    then kept
    else if bytes_beq part dot_dot
    then tail_of kept
    else part ∷ kept

unfoldable pub visit_all : List Bytes → List Bytes → List Bytes
unfolding visit
visit_all kept [] = kept
visit_all kept (part ∷ parts) = visit_all (visit kept part) parts

-- The kept components, the innermost first, as a rooted path.
unfoldable pub rooted : List Bytes → Bytes
rooted [] = []
rooted (part ∷ outer) = rooted outer ++ slash ∷ part

unfoldable pub or_root : Bytes → Bytes
or_root [] = slash ∷ []
or_root (c ∷ s) = c ∷ s

-- strings.Join(parts, "/")
abbrev pub join_slash : List Bytes → Bytes
join_slash [] = []
join_slash (a ∷ []) = a
join_slash (a ∷ b ∷ rest) = a ++ slash ∷ join_slash (b ∷ rest)

-- filepath.Clean(path) for a path that IsAbs.
unfoldable pub clean : Bytes → Bytes
unfolding components visit_all rooted or_root
clean path = or_root (rooted (visit_all [] (components path)))

sample_clean : clean (codes "/work/./a/../../etc//passwd") ≡ codes "/etc/passwd"
unfolding clean
sample_clean = refl

abbrev pub is_not_slash : ℕ → Bool
is_not_slash c = not (nat_beq c slash)

-- A component that a cleaned path may have: it holds no slash and is none of the special ones.
abbrev pub IsPlainPart : Bytes → Type 0
IsPlainPart part = (every is_not_slash part ≡ true) × (part ≢ []) × (part ≢ dot) × (part ≢ dot_dot)

abbrev pub IsFlat : Bytes → Type 0
IsFlat part = every is_not_slash part ≡ true

-- No component holds a slash.
pub components-All : (s : Bytes) → All IsFlat (components s)
unfolding components
components-All [] = (refl, tt)
components-All (c ∷ s) = grown (components s) (components-All s)
  where
    grown :
        (parts : List Bytes)
        → All IsFlat parts
        → All IsFlat (elim parts [
          | [] ↦ []
          | part ∷ rest ↦ if nat_beq c slash then [] ∷ part ∷ rest else (c ∷ part) ∷ rest
        ])
    grown [] a = tt
    grown (part ∷ parts) a = elim (Bool-cases (nat_beq c slash)) [
      | inl hit ↦ rw hit (refl, a)
      | inr miss ↦ rw miss (rw (miss, a.0) refl, a.1)
    ]

tail_of-All : (P : Bytes → Type 0) (xs : List Bytes) → All P xs → All P (tail_of xs)
tail_of-All P [] a = tt
tail_of-All P (x ∷ xs) a = a.1

visit-All :
    (kept : List Bytes) (part : Bytes)
    → every is_not_slash part ≡ true
    → All IsPlainPart kept
    → All IsPlainPart (visit kept part)
unfolding visit
visit-All kept part flat a = elim (Bool-cases (bytes_beq part [] || bytes_beq part dot)) [
  | inl gone ↦ rw gone a
  | inr stays ↦ rw stays (elim (Bool-cases (bytes_beq part dot_dot)) [
    | inl up ↦ rw up (tail_of-All IsPlainPart kept a)
    | inr down ↦ rw down (
      (
        flat,
        ground (arith, bytes_beq_iff part []),
        ground (arith, bytes_beq_iff part dot),
        ground (arith, bytes_beq_iff part dot_dot),
      ),
      a,
    )
  ])
]

-- No component of a cleaned path holds a slash or is empty, `.` or `..`.
pub visit_all-All :
    (kept parts : List Bytes)
    → All IsFlat parts
    → All IsPlainPart kept
    → All IsPlainPart (visit_all kept parts)
unfolding visit_all
visit_all-All kept [] flat a = a
visit_all-All kept (part ∷ parts) flat a =
    visit_all-All (visit kept part) parts flat.1 (visit-All kept part flat.0 a)

-- A rooted path begins with its slash.
rooted_cases :
    (parts : List Bytes) → (rooted parts ≡ []) ⊎ ((s : Bytes) × (rooted parts ≡ slash ∷ s))
unfolding rooted
rooted_cases [] = inl refl
rooted_cases (part ∷ outer) = elim (rooted_cases outer) [
  | inl e ↦ inr (part, rw e)
  | inr (s, e) ↦ inr (s ++ slash ∷ part, rw e)
]

pub is_abs-clean : (p : Bytes) → is_abs (clean p) ≡ true
unfolding clean is_abs
is_abs-clean p = elim (rooted_cases (visit_all [] (components p))) [
  | inl e ↦ rw (e, or_root)
  | inr (s, e) ↦ rw (e, or_root)
]
