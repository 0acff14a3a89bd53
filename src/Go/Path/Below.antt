-- ===== src/Go/Path/Below.antt =====
-- A path with no `..` in it, joined to a directory, stays below that directory.
use opendray_v2_lab.Common.{
  ℕ, ◌≡◌, ◌≢◌, refl, sym, ap, ◌∙◌, subst, append_assoc, append-nil, ◌||◌, List, [], ◌∷◌, ◌++◌,
  arith, Bytes, nat_beq, bytes_beq, bytes_beq_iff, All, Bool-cases, inl, inr, every, true,
}
use opendray_v2_lab.Go.Path.{
  slash, dot, dot_dot, is_abs, is_not_slash, IsFlat, IsPlainPart, components, components-All, visit,
  visit_all, rooted, or_root, clean,
}
use opendray_v2_lab.Go.Path.Join.{
  components_cons, components-append, visit_all-append, join, join-is_abs,
}
use opendray_v2_lab.Go.Strings.Contains.{Has}

Has-cons : (c : ℕ) (s part : Bytes) → Has s part → Has (c ∷ s) part
Has-cons c s part (a, b, e) = (c ∷ a, b, ap (◌∷◌ c) e)

All-Has_cons :
    (c : ℕ) (s : Bytes) (parts : List Bytes) → All (Has s) parts → All (Has (c ∷ s)) parts
All-Has_cons c s [] h = tt
All-Has_cons c s (part ∷ parts) h = (Has-cons c s part h.0, All-Has_cons c s parts h.1)

-- The first component begins the text, and every component stands in it.
abbrev Parts : Bytes → List Bytes → Type 0
Parts s [] = ⊥
Parts s (part ∷ parts) = ((after : Bytes) × (s ≡ part ++ after)) × All (Has s) parts

components-Parts : (s : Bytes) → Parts s (components s)
unfolding components
components-Parts [] = (([], refl), tt)
components-Parts (c ∷ s) =
    let (part, parts, e) = components_cons s in
    let h : Parts s (part ∷ parts) = subst (Parts s) e (components-Parts s) in
    let ((after, f), rest) = h in
    elim (Bool-cases (nat_beq c slash)) [
      | inl hit ↦
          rw (e, hit) ((c ∷ s, refl), ((c ∷ [], after, ap (◌∷◌ c) f), All-Has_cons c s parts rest))
      | inr miss ↦ rw (e, miss) ((after, ap (◌∷◌ c) f), All-Has_cons c s parts rest)
    ]

not_up :
    (s : Bytes)
    → (Has s dot_dot → ⊥)
    → (parts : List Bytes) → All (Has s) parts
    → All (λ p. p ≢ dot_dot) parts
not_up s none_up [] h = tt
not_up s none_up (part ∷ parts) h =
    ((λ e. none_up (subst (Has s) e h.0)), not_up s none_up parts h.1)

-- No component of a text without `..` is `..`.
components_not_up : (s : Bytes) → (Has s dot_dot → ⊥) → All (λ p. p ≢ dot_dot) (components s)
components_not_up s none_up =
    let (part, parts, e) = components_cons s in
    let ((after, f), rest) = subst (Parts s) e (components-Parts s) in
    rw e ((λ x. none_up ([], after, f ∙ ap (λ t. t ++ after) x)), not_up s none_up parts rest)

visit_extends :
    (kept : List Bytes) (part : Bytes)
    → every is_not_slash part ≡ true
    → part ≢ dot_dot
    → (more : List Bytes) × (visit kept part ≡ more ++ kept) × All IsPlainPart more
unfolding visit
visit_extends kept part flat down = elim (Bool-cases (bytes_beq part [] || bytes_beq part dot)) [
  | inl gone ↦ ([], rw gone refl, tt)
  | inr stays ↦ (
    part ∷ [],
    ground (arith, stays, down, bytes_beq_iff part dot_dot),
    (
      (
        flat,
        ground (arith, stays, bytes_beq_iff part []),
        ground (arith, stays, bytes_beq_iff part dot),
        down,
      ),
      tt,
    ),
  )
]

All-append :
    (xs ys : List Bytes) → All IsPlainPart xs → All IsPlainPart ys → All IsPlainPart (xs ++ ys)
All-append [] ys a b = b
All-append (x ∷ xs) ys a b = (a.0, All-append xs ys a.1 b)

visit_all_extends :
    (kept parts : List Bytes)
    → All IsFlat parts
    → All (λ p. p ≢ dot_dot) parts
    → (more : List Bytes) × (visit_all kept parts ≡ more ++ kept) × All IsPlainPart more
unfolding visit_all
visit_all_extends kept [] flat h = ([], refl, tt)
visit_all_extends kept (part ∷ parts) flat h =
    let (one, e, plain) = visit_extends kept part flat.0 h.0 in
    let (more, f, plains) = visit_all_extends (visit kept part) parts flat.1 h.1 in
    (
      more ++ one,
      f ∙ (ap (λ t. more ++ t) e ∙ sym (append_assoc more one kept)),
      All-append more one plains plain,
    )

rooted-append : (more kept : List Bytes) → rooted (more ++ kept) ≡ rooted kept ++ rooted more
unfolding rooted
rooted-append [] kept = sym (append-nil (rooted kept))
rooted-append (part ∷ more) kept =
    ap (λ t. t ++ slash ∷ part) (rooted-append more kept)
    ∙ append_assoc (rooted kept) (rooted more) (slash ∷ part)

-- What a path names that stands in a directory or names it: the directory, cleaned, and components none of
-- which holds a slash or is empty, `.` or `..`.
pub record IsWithin (dir path : Bytes) : Type 0 where
  pub base : Bytes
  pub parts : List Bytes
  pub at_dir : clean dir ≡ or_root base
  pub plain : All IsPlainPart parts
  pub below : path ≡ or_root (base ++ rooted parts)

-- Joined to an absolute directory, a path with no component `..` names that directory or something below it.
pub join_parts_below :
    (dir path : Bytes)
    → is_abs dir ≡ true
    → path ≢ []
    → All (λ p. p ≢ dot_dot) (components path)
    → IsWithin dir (join (dir ∷ path ∷ []))
unfolding clean
join_parts_below [] path full some_path flat = absurd (unfold is_abs in cc full)
join_parts_below (c ∷ dir) [] full some_path flat = absurd (some_path refl)
join_parts_below (c ∷ dir) (d ∷ path) full some_path flat =
    let kept = visit_all [] (components (c ∷ dir)) in
    let (more, e, plain) =
      visit_all_extends kept (components (d ∷ path)) (components-All (d ∷ path)) flat in
    record {
      base = rooted kept;
      parts = more;
      at_dir = refl;
      plain = plain;
      below =
          join-is_abs (c ∷ dir) ((d ∷ path) ∷ []) full
          ∙ (ap (λ t. or_root (rooted (visit_all [] t))) (components-append (c ∷ dir) (d ∷ path))
              ∙ (ap (λ t. or_root (rooted t))
                    (visit_all-append [] (components (c ∷ dir)) (components (d ∷ path)) ∙ e)
                  ∙ ap or_root (rooted-append more kept)));
    }

-- So does a path in which `..` stands nowhere.
pub join_below :
    (dir path : Bytes)
    → is_abs dir ≡ true
    → path ≢ []
    → (Has path dot_dot → ⊥)
    → IsWithin dir (join (dir ∷ path ∷ []))
join_below dir path full some_path flat =
    join_parts_below dir path full some_path (components_not_up path flat)
