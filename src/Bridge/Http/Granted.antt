-- ===== src/Bridge/Http/Granted.antt =====
-- What a URL that the matcher admits can be.
use opendray_v2_lab.Go.Strings.{cut_at}
use opendray_v2_lab.Go.Glob.{path_match}
use opendray_v2_lab.Common.{
  ◌≡◌, ◌⊎◌, ◌≢◌, inl, inr, refl, ap, ◌∙◌, sym, true, false, List, [], ◌∷◌, ◌++◌, arith, Bytes,
  codes, bytes_beq, bytes_beq_iff, any, drop, has_prefix, has_prefix_sound, Option, none, some,
  Bool-cases, Option-cases, Memᴰ, any_sound,
}
use opendray_v2_lab.Bridge.Http.{
  Url, is_private_host, match_http_pattern, match_url_path, match_named, split_rest, match_http_url,
  match_url,
}

cut_at_sound :
    (s sub before found : Bytes)
    → cut_at s sub ≡ some (before, found)
    → (s ≡ before ++ found) × (has_prefix found sub ≡ true)
unfolding cut_at
cut_at_sound [] sub before found e = ground arith
cut_at_sound (c ∷ s) sub before found e = elim (Option-cases (cut_at s sub)) [
  | inl missing ↦ ground arith
  | inr ((b, f), later) ↦ ground (arith, cut_at_sound s sub b f later)
]

-- A pattern that names the URL's scheme, with the two globs that the rest of it holds.
pub record Names (pattern : Bytes) (u : Url) : Type 0 where
  pub rest : Bytes
  pub spelled : pattern ≡ u.scheme ++ (codes "://" ++ rest)
  pub host_fits : path_match (split_rest rest).0 u.hostname ≡ true
  pub path_fits : match_url_path (split_rest rest).1 u.path ≡ true

named_sound :
    (pattern scheme rest : Bytes) (u : Url)
    → pattern ≡ scheme ++ (codes "://" ++ rest)
    → match_named scheme rest u ≡ true
    → Names pattern u
unfolding match_named
named_sound pattern scheme rest u spelled e =
    let same : scheme ≡ u.scheme = ground (arith, bytes_beq_iff scheme u.scheme) in
    record {
      rest = rest;
      spelled = spelled ∙ ap (λ s. s ++ (codes "://" ++ rest)) same;
      host_fits = ground arith;
      path_fits = ground arith;
    }

-- The pattern `*` admits https alone; any other admits what its own scheme and globs say.
pub match_http_pattern_sound :
    (pattern : Bytes) (u : Url)
    → match_http_pattern pattern u ≡ true
    → ((pattern ≡ codes "*") × (u.scheme ≡ codes "https")) ⊎ Names pattern u
unfolding match_http_pattern
match_http_pattern_sound pattern u e = elim (Bool-cases (bytes_beq pattern (codes "*"))) [
  | inl wild ↦ inl (
    (bytes_beq_iff pattern (codes "*")).0 wild,
    (bytes_beq_iff u.scheme (codes "https")).0 (rw wild at e),
  )
  | inr other ↦ elim (Option-cases (cut_at pattern (codes "://"))) [
    | inl missing ↦ absurd (ground (arith, e, other, missing))
    | inr ((scheme, found), cut) ↦
        let (spelled, prefix) = cut_at_sound pattern (codes "://") scheme found cut in
        let (rest, behind) = has_prefix_sound found (codes "://") prefix in
        let named : match_named scheme (drop 3 found) u ≡ true = ground (arith, e, other, cut) in
        inr (
          named_sound pattern scheme rest u (spelled ∙ ap (◌++◌ scheme) behind)
            (sym (ap (λ f. match_named scheme (drop 3 f) u) behind) ∙ named))
  ]
]

-- An admitted URL parses, with a host; that host is not private; and one of the grants is `*` with
-- the URL being https, or names the URL's scheme and fits its host and path.
pub match_http_url_sound :
    (parse_url : Bytes → Option Url) (parse_ip : Bytes → Option Bytes) (granted : List Bytes)
    (raw_url : Bytes)
    → match_http_url parse_url parse_ip granted raw_url ≡ true
    → (u : Url) × (pattern : Bytes) × (parse_url raw_url ≡ some u)
      × (u.host ≢ [])
      × (is_private_host parse_ip u.hostname ≡ false)
      × Memᴰ pattern granted
      × (((pattern ≡ codes "*") × (u.scheme ≡ codes "https")) ⊎ Names pattern u)
unfolding match_http_url
match_http_url_sound parse_url parse_ip [] raw_url e = cc
match_http_url_sound parse_url parse_ip (g ∷ granted) [] e = cc
match_http_url_sound parse_url parse_ip (g ∷ granted) (c ∷ rest) e =
    go (parse_url (c ∷ rest)) refl e
  where
    go :
        (parsed : Option Url)
        → parse_url (c ∷ rest) ≡ parsed
        → match_url parse_url parse_ip (g ∷ granted) parsed ≡ true
        → (u : Url) × (pattern : Bytes) × (parse_url (c ∷ rest) ≡ some u)
          × (u.host ≢ [])
          × (is_private_host parse_ip u.hostname ≡ false)
          × Memᴰ pattern (g ∷ granted)
          × (((pattern ≡ codes "*") × (u.scheme ≡ codes "https")) ⊎ Names pattern u)
    go none p h = cc
    go (some u) p h =
        let hit : any (λ pattern. match_http_pattern pattern u) (g ∷ granted) ≡ true =
          ground (arith, h) in
        let (pattern, member, fits) = any_sound (λ q. match_http_pattern q u) (g ∷ granted) hit in
        (
          u,
          pattern,
          p,
          λ empty. ground (arith, h, bytes_beq_iff u.host []),
          ground (arith, h),
          member,
          match_http_pattern_sound pattern u fits,
        )
