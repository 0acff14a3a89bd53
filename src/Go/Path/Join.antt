-- ===== src/Go/Path/Join.antt =====
-- filepath.Join on a Unix system, and how a cleaned rooted path grows by a component.
use opendray_v2_lab.Common.{
  ℕ, ◌≡◌, append_assoc, refl, ap, ◌∙◌, Bool, true, false, List, [], ◌∷◌, ◌++◌, arith, Bytes, codes,
  nat_beq, bytes_beq_iff, if◌then◌else◌, keep, Bool-cases, inl, inr, every,
}
use opendray_v2_lab.Go.Path.Relative.{clean_relative}
use opendray_v2_lab.Go.Path.{
  slash, dot, dot_dot, is_abs, is_abs-clean, is_not_slash, join_slash, components, visit, visit_all,
  rooted, or_root, clean, IsPlainPart,
}

abbrev pub is_set : Bytes → Bool
is_set [] = false
is_set (c ∷ s) = true

abbrev joined : List Bytes → Bytes
joined [] = []
joined (part ∷ parts) =
    let path = join_slash (part ∷ parts) in if is_abs path then clean path else clean_relative path

-- Empty elements are passed over.
unfoldable pub join : List Bytes → Bytes
unfolding clean is_abs clean_relative
join elems = joined (keep is_set elems)

sample_join : join (codes "/data" ∷ [] ∷ codes "a" ∷ codes "../b" ∷ []) ≡ codes "/data/b"
unfolding join
sample_join = refl

sample_relative_join : join ([] ∷ codes "." ∷ codes "a" ∷ codes "../b" ∷ []) ≡ codes "b"
unfolding join
sample_relative_join = refl

begins :
    (c : ℕ) (s : Bytes) (parts : List Bytes)
    → is_abs (join_slash ((c ∷ s) ∷ parts)) ≡ is_abs (c ∷ s)
unfolding is_abs
begins c s [] = refl
begins c s (part ∷ parts) = refl

-- Behind a first element that is absolute, all of it is cleaned as a rooted path.
pub join-is_abs :
    (dir : Bytes) (parts : List Bytes)
    → is_abs dir ≡ true
    → join (dir ∷ parts) ≡ clean (join_slash (keep is_set (dir ∷ parts)))
unfolding join
join-is_abs [] parts h = absurd (unfold is_abs in cc h)
join-is_abs (c ∷ dir) parts h = rw (begins c dir (keep is_set parts), h) refl

abbrev grown : ℕ → List Bytes → List Bytes
grown c [] = []
grown c (part ∷ parts) = if nat_beq c slash then [] ∷ part ∷ parts else (c ∷ part) ∷ parts

pub components_cons :
    (s : Bytes) → (part : Bytes) × (parts : List Bytes) × (components s ≡ part ∷ parts)
unfolding components
components_cons [] = ([], [], refl)
components_cons (c ∷ s) =
    let (part, parts, e) = components_cons s in
    elim (Bool-cases (nat_beq c slash)) [
      | inl hit ↦ ([], part ∷ parts, ground (arith, e, hit))
      | inr miss ↦ (c ∷ part, parts, ground (arith, e, miss))
    ]

pub components-append : (a b : Bytes) → components (a ++ slash ∷ b) ≡ components a ++ components b
unfolding components
components-append [] b = let (part, parts, e) = components_cons b in ground (arith, e)
components-append (c ∷ a) b =
    let (part, parts, e) = components_cons a in ground (arith, components-append a b, e)

pub components_single : (s : Bytes) → every is_not_slash s ≡ true → components s ≡ s ∷ []
unfolding components
components_single [] h = refl
components_single (c ∷ s) h = ground (arith, h, components_single s)

pub visit_all-append :
    (kept : List Bytes) (xs ys : List Bytes)
    → visit_all kept (xs ++ ys) ≡ visit_all (visit_all kept xs) ys
unfolding visit_all
visit_all-append kept [] ys = refl
visit_all-append kept (x ∷ xs) ys = visit_all-append (visit kept x) xs ys

visit_plain : (kept : List Bytes) (part : Bytes) → IsPlainPart part → visit kept part ≡ part ∷ kept
unfolding visit
visit_plain kept part (flat, full, here, up) = ground (
  arith,
  full,
  here,
  up,
  bytes_beq_iff part [],
  bytes_beq_iff part dot,
  bytes_beq_iff part dot_dot,
)

-- A plain component goes to the end of the cleaned path.
pub visit_all-plain :
    (path part : Bytes)
    → IsPlainPart part
    → visit_all [] (components (path ++ slash ∷ part)) ≡ part ∷ visit_all [] (components path)
unfolding visit_all
visit_all-plain path part plain =
    ap (visit_all []) (
      components-append path part ∙ ap (λ t. components path ++ t) (components_single part plain.0))
    ∙ (visit_all-append [] (components path) (part ∷ [])
        ∙ visit_plain (visit_all [] (components path)) part plain)

or_root_full : (x y : Bytes) → or_root (x ++ slash ∷ y) ≡ x ++ slash ∷ y
unfolding or_root
or_root_full [] y = refl
or_root_full (c ∷ x) y = refl

-- Two such components, one after the other.
grown_path :
    (path a b : Bytes)
    → IsPlainPart a
    → IsPlainPart b
    → clean (path ++ slash ∷ (a ++ slash ∷ b))
      ≡ rooted (visit_all [] (components path)) ++ slash ∷ (a ++ slash ∷ b)
unfolding clean rooted
grown_path path a b pa pb =
    let base = visit_all [] (components path) in
    let split : path ++ slash ∷ (a ++ slash ∷ b) ≡ (path ++ slash ∷ a) ++ slash ∷ b =
      simp append_assoc in
    let kept : visit_all [] (components (path ++ slash ∷ (a ++ slash ∷ b))) ≡ b ∷ a ∷ base =
      ap (λ t. visit_all [] (components t)) split
      ∙ (visit_all-plain (path ++ slash ∷ a) b pb ∙ ap (◌∷◌ b) (visit_all-plain path a pa)) in
    ap (λ t. or_root (rooted t)) kept
    ∙ (or_root_full (rooted base ++ slash ∷ a) b ∙ simp append_assoc)

-- Such components, joined to an absolute directory, stand below it as they are written.
pub join-plain :
    (path a b : Bytes)
    → is_abs path ≡ true
    → IsPlainPart a
    → IsPlainPart b
    → (base : Bytes) × (clean path ≡ or_root base)
      × (join (path ∷ a ∷ b ∷ []) ≡ base ++ slash ∷ (a ++ slash ∷ b))
unfolding clean
join-plain [] a b full pa pb = absurd (unfold is_abs in cc full)
join-plain (c ∷ path) [] b full pa pb = absurd (pa.1 refl)
join-plain (c ∷ path) (d ∷ a) [] full pa pb = absurd (pb.1 refl)
join-plain (c ∷ path) (d ∷ a) (e ∷ b) full pa pb = (
  rooted (visit_all [] (components (c ∷ path))),
  refl,
  join-is_abs (c ∷ path) ((d ∷ a) ∷ (e ∷ b) ∷ []) full
      ∙ grown_path (c ∷ path) (d ∷ a) (e ∷ b) pa pb,
)

pub is_abs-join :
    (dir : Bytes) (parts : List Bytes) → is_abs dir ≡ true → is_abs (join (dir ∷ parts)) ≡ true
is_abs-join dir parts h =
    ap is_abs (join-is_abs dir parts h) ∙ is_abs-clean (join_slash (keep is_set (dir ∷ parts)))
