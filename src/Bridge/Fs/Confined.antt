-- ===== src/Bridge/Fs/Confined.antt =====
-- What a path that a `/**` grant admits can be.
use opendray_v2_lab.Go.Strings.{has_suffix}
use opendray_v2_lab.Go.Path.{
  is_abs, clean, components, components-All, is_abs-clean, visit_all, visit_all-All, rooted,
  or_root, IsPlainPart,
}
use opendray_v2_lab.Common.{
  ◌-◌, ◌≡◌, ◌↔◌, refl, ap, ◌∙◌, sym, true, List, [], ◌∷◌, ◌++◌, arith, Bytes, codes, any, All,
  length, length-append, take, has_prefix, has_prefix_append, has_prefix_sound, map, Memᴰ,
  any_sound, any_complete, any-map, drop-length, take-length,
}
use opendray_v2_lab.Bridge.Fs.{descendants, match_fs_pattern, match_fs_path}

-- The grant of everything below `base`.
abbrev pub below : Bytes → Bytes
below base = base ++ descendants

below_suffix : (base : Bytes) → has_suffix (below base) descendants ≡ true
unfolding has_suffix
below_suffix base =
    let at : length (below base) - 3 ≡ length base =
      omega (arith, length-append base descendants) in
    rw (at, drop-length base descendants) (ground (arith, length-append base descendants))

match_below : (base p : Bytes) → match_fs_pattern (below base) p ≡ has_prefix p (base ++ codes "/")
unfolding match_fs_pattern
match_below base p = rw (below_suffix base) (
    ap (λ b. has_prefix p (b ++ codes "/"))
      (ap (λ n. take n (below base)) (omega (arith, length-append base descendants))
        ∙ take-length base descendants))

-- What `MatchFSPath` asks of a path that is not empty.
pub match_cons :
    (gs : List Bytes) (p : Bytes)
    → (match_fs_path gs p ≡ true)
      ↔ ((is_abs p ≡ true) × (any (λ g. match_fs_pattern g (clean p)) gs ≡ true))
unfolding match_fs_path
match_cons [] p = (λ e. cc, λ e. e.1)
match_cons (g ∷ gs) [] = (λ e. cc, λ e. unfold is_abs in cc e.0)
match_cons (g ∷ gs) (c ∷ rest) = (
  λ e. ground (arith, is_abs-clean (c ∷ rest)),
  λ e. ground (arith, is_abs-clean (c ∷ rest), e.0, e.1),
)

-- With grants that all end in `/**`, only an absolute path is admitted whose cleaned form continues
-- one of the granted directories behind a slash, and is built of components none of which holds a
-- slash or is empty, `.` or `..`: no traversal leaves the granted directories.
pub match_fs_path-below :
    (bases : List Bytes) (p : Bytes)
    → match_fs_path (map below bases) p ≡ true
    → (base rest : Bytes) × (parts : List Bytes) × Memᴰ base bases
      × (is_abs p ≡ true)
      × (clean p ≡ (base ++ codes "/") ++ rest)
      × (clean p ≡ or_root (rooted parts))
      × All IsPlainPart parts
unfolding clean
match_fs_path-below bases p e =
    let (absolute, some_match) = (match_cons (map below bases) p).0 e in
    let (base, member, hit) =
      any_sound (λ b. match_fs_pattern (below b) (clean p)) bases
        (sym (any-map (λ g. match_fs_pattern g (clean p)) below bases) ∙ some_match) in
    let (rest, continues) =
      has_prefix_sound (clean p) (base ++ codes "/") (sym (match_below base (clean p)) ∙ hit) in
    (
      base,
      rest,
      visit_all [] (components p),
      member,
      absolute,
      continues,
      refl,
      visit_all-All [] (components p) (components-All p) tt,
    )

-- With grants that all end in `/**`, every absolute path whose cleaned form continues one of the
-- granted directories behind a slash is admitted.
pub match_fs_path-below_complete :
    (bases : List Bytes) (p base rest : Bytes)
    → Memᴰ base bases
    → is_abs p ≡ true
    → clean p ≡ (base ++ codes "/") ++ rest
    → match_fs_path (map below bases) p ≡ true
match_fs_path-below_complete bases p base rest member absolute continues =
    (match_cons (map below bases) p).1 (
      absolute,
      any-map (λ g. match_fs_pattern g (clean p)) below bases
          ∙ any_complete (λ b. match_fs_pattern (below b) (clean p)) member
              (match_below base (clean p)
                ∙ ap (λ q. has_prefix q (base ++ codes "/")) continues
                ∙ has_prefix_append (base ++ codes "/") rest),
    )
