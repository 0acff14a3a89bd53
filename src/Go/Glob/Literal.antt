-- ===== src/Go/Glob/Literal.antt =====
-- Patterns with no special character, and such patterns with a star at the end.
use opendray_v2_lab.Common.{
  ℕ, ◌≡◌, ◌≢◌, refl, ap, ◌∙◌, ◌↔◌, ◌⊎◌, sym, Bool, true, false, List, [], ◌∷◌, ◌++◌, arith, Bytes,
  All, Option, none, some, append-nil, map, Option-cases, inl, inr,
}
use opendray_v2_lab.Go.Glob.{
  star_char, backslash, Item, lit, plain, read_char, read_chunk, match_chunk, accepts, settle,
  cut_chunks, match_starred, match_cut, path_match, no_slash, is_last,
}

-- A byte that stands for itself.
pub record IsLiteral (c : ℕ) : Type 0 where
  pub not_star : c ≢ star_char
  pub not_mark : c ≢ b'?'
  pub not_bracket : c ≢ b'['
  pub not_escape : c ≢ backslash

cut_literal : (p : Bytes) → All IsLiteral p → cut_chunks false false p ≡ (p, [])
unfolding cut_chunks
cut_literal [] a = refl
cut_literal (c ∷ p) a =
    ground (arith, a.0.not_star, a.0.not_mark, a.0.not_bracket, a.0.not_escape, cut_literal p a.1)

cut_star :
    (p : Bytes) → All IsLiteral p → cut_chunks false false (p ++ star_char ∷ []) ≡ (p, [] ∷ [])
unfolding cut_chunks
cut_star [] a = refl
cut_star (c ∷ p) a = ground (arith, a.0.not_star, a.0.not_bracket, a.0.not_escape, cut_star p a.1)

read_literal : (p : Bytes) → All IsLiteral p → read_chunk plain p ≡ some (map lit p)
unfolding read_chunk read_char
read_literal [] a = refl
read_literal (c ∷ p) a =
    ground (arith, a.0.not_star, a.0.not_mark, a.0.not_bracket, a.0.not_escape, read_literal p a.1)

match_literal_sound : (p s t : Bytes) → match_chunk (map lit p) s ≡ some t → s ≡ p ++ t
unfolding match_chunk accepts
match_literal_sound [] s t e = ground arith
match_literal_sound (c ∷ p) [] t e = cc
match_literal_sound (c ∷ p) (b ∷ s) t e = ground (arith, match_literal_sound p s t)

match_literal_complete : (p t : Bytes) → match_chunk (map lit p) (p ++ t) ≡ some t
unfolding match_chunk accepts
match_literal_complete [] t = refl
match_literal_complete (c ∷ p) t = ground (arith, match_literal_complete p t)

-- What `match_cut` asks of the name, whether or not the first chunk is empty.
abbrev continue_with : List Bytes → Option Bytes → Bool
continue_with starred none = false
continue_with starred (some t) = match_starred starred t

match_cut-literal :
    (p s : Bytes) (starred : List Bytes)
    → All IsLiteral p
    → match_cut (p, starred) s
      ≡ continue_with starred (settle (is_last starred) (match_chunk (map lit p) s))
unfolding match_cut match_chunk settle is_last match_starred
match_cut-literal [] [] [] a = refl
match_cut-literal [] (b ∷ s) [] a = refl
match_cut-literal [] [] (chunk ∷ starred) a = refl
match_cut-literal [] (b ∷ s) (chunk ∷ starred) a = refl
match_cut-literal (c ∷ p) s starred a =
    rw (read_literal (c ∷ p) a, match_cut)
      (elim (Option-cases (settle (is_last starred) (match_chunk (map lit (c ∷ p)) s))) [
        | inl e ↦ ground (arith, e)
        | inr (t, e) ↦ ground (arith, e)
      ])

settle_last : (r : Option Bytes) → continue_with [] (settle true r) ≡ true → r ≡ some []
unfolding settle
settle_last none e = cc
settle_last (some []) e = refl
settle_last (some (b ∷ t)) e = cc

path_match_literal_eq :
    (p s : Bytes)
    → All IsLiteral p
    → path_match p s ≡ continue_with [] (settle true (match_chunk (map lit p) s))
unfolding path_match is_last
path_match_literal_eq p s a = ap (λ c. match_cut c s) (cut_literal p a) ∙ match_cut-literal p s [] a

settle_any : (r : Option Bytes) → settle false r ≡ r
unfolding settle
settle_any none = refl
settle_any (some []) = refl
settle_any (some (b ∷ t)) = refl

path_match_star_eq :
    (p s : Bytes)
    → All IsLiteral p
    → path_match (p ++ star_char ∷ []) s ≡ continue_with ([] ∷ []) (match_chunk (map lit p) s)
unfolding path_match is_last
path_match_star_eq p s a =
    ap (λ c. match_cut c s) (cut_star p a)
    ∙ match_cut-literal p s ([] ∷ []) a
    ∙ ap (continue_with ([] ∷ [])) (settle_any (match_chunk (map lit p) s))

-- A pattern of literal bytes matches itself alone.
pub path_match-literal : (p s : Bytes) → All IsLiteral p → (path_match p s ≡ true) ↔ (s ≡ p)
path_match-literal p s a = (
  λ e.
      match_literal_sound p s [] (settle_last _ (sym (path_match_literal_eq p s a) ∙ e))
      ∙ append-nil p,
  λ e.
      path_match_literal_eq p s a
      ∙ ap (λ r. continue_with [] (settle true r))
          (ap (match_chunk (map lit p)) (e ∙ sym (append-nil p)) ∙ match_literal_complete p [])
      ∙ done,
)
  where
    done : continue_with [] (settle true (some [])) ≡ true
    done = unfold settle match_starred in refl

star_sound :
    (p s : Bytes) (r : Option Bytes)
    → match_chunk (map lit p) s ≡ r
    → continue_with ([] ∷ []) r ≡ true
    → (t : Bytes) × (s ≡ p ++ t) × (no_slash t ≡ true)
unfolding match_starred
star_sound p s none e h = cc
star_sound p s (some t) e h = (t, match_literal_sound p s t e, h)

-- With a star behind it, it matches what continues it without a slash.
pub path_match-star :
    (p s : Bytes)
    → All IsLiteral p
    → (path_match (p ++ star_char ∷ []) s ≡ true)
      ↔ ((t : Bytes) × (s ≡ p ++ t) × (no_slash t ≡ true))
unfolding match_starred
path_match-star p s a = (
  λ e. star_sound p s _ refl (sym (path_match_star_eq p s a) ∙ e),
  λ (t, e, h).
      path_match_star_eq p s a
      ∙ ap (continue_with ([] ∷ [])) (ap (match_chunk (map lit p)) e ∙ match_literal_complete p t)
      ∙ h,
)

cut_first :
    (c : ℕ) (p : Bytes)
    → IsLiteral c
    → (chunk : Bytes) × (starred : List Bytes) × (cut_chunks false false (c ∷ p)
        ≡ (c ∷ chunk, starred))
unfolding cut_chunks
cut_first c p l = (
  (cut_chunks false false p).0,
  (cut_chunks false false p).1,
  ground (arith, l.not_star, l.not_bracket, l.not_escape),
)

read_first :
    (c : ℕ) (chunk : Bytes)
    → IsLiteral c
    → (read_chunk plain (c ∷ chunk) ≡ none)
      ⊎ ((items : List Item) × (read_chunk plain (c ∷ chunk) ≡ some (lit c ∷ items)))
unfolding read_chunk read_char
read_first c chunk l = elim (Option-cases (read_chunk plain chunk)) [
  | inl e ↦ inl (ground (arith, e, l.not_bracket, l.not_mark, l.not_escape))
  | inr (items, e) ↦ inr (items, ground (arith, e, l.not_bracket, l.not_mark, l.not_escape))
]

-- A pattern that begins with a literal byte matches no name that begins with another.
pub path_match-first :
    (c b : ℕ) (p s : Bytes) → IsLiteral c → c ≢ b → path_match (c ∷ p) (b ∷ s) ≡ false
unfolding path_match
path_match-first c b p s l ne =
    let (chunk, starred, cut) = cut_first c p l in
    ap (λ k. match_cut k (b ∷ s)) cut ∙ elim (read_first c chunk l) [
      | inl e ↦ unfold match_cut in rw (e, match_cut)
      | inr (items, e) ↦ unfold match_cut match_chunk accepts settle in ground (arith, e, ne)
    ]
