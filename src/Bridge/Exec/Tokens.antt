-- ===== src/Bridge/Exec/Tokens.antt =====
-- What a pattern of several tokens grants.
use mathlib.Core.Path.{ap₂}
use opendray_v2_lab.Go.Strings.{fields}
use opendray_v2_lab.Go.Glob.{path_match}
use opendray_v2_lab.Common.{
  ℕ, ◌≡◌, ◌≢◌, ◌↔◌, refl, ap, ◌∙◌, sym, ◌⊎◌, inl, inr, Bool, true, false, ◌||◌, List, [], ◌∷◌, ◌++◌,
  arith, Bytes, nat_beq, bytes_beq, bytes_beq_iff, if◌then◌else◌, Bool-cases,
}
use opendray_v2_lab.Bridge.Exec.{
  star, match_tokens, match_pattern_tokens, match_exec_pattern, match_exec_globs, match_some,
}

-- The tokens of a command line that pattern tokens `before` and a last one grant.
pub record Grants (before : List Bytes) (final : Bytes) (tokens : List Bytes) : Type 0 where
  pub here : Bytes
  pub after : List Bytes
  pub parts : tokens ≡ before ++ here ∷ after
  pub fits : (final ≡ star) ⊎ (path_match final here ≡ true)

last_sound :
    (final t : Bytes) (ts : List Bytes)
    → match_tokens (final ∷ []) (t ∷ ts) ≡ true
    → Grants [] final (t ∷ ts)
unfolding match_tokens
last_sound final t ts e = record { here = t; after = ts; parts = refl; fits = fits }
  where
    fits : (final ≡ star) ⊎ (path_match final t ≡ true)
    fits = ground (arith, bytes_beq_iff final star)

no_tokens : (p : Bytes) (ps : List Bytes) {A : Type 0} → match_tokens (p ∷ ps) [] ≡ true → A
unfolding match_tokens
no_tokens p [] e = cc
no_tokens p (q ∷ ps) e = cc

match_tokens_cons :
    (p : Bytes) (before : List Bytes) (final t : Bytes) (ts : List Bytes)
    → match_tokens (p ∷ before ++ final ∷ []) (t ∷ ts) ≡ true
    → (t ≡ p) × (match_tokens (before ++ final ∷ []) ts ≡ true)
unfolding match_tokens
match_tokens_cons p [] final t ts e = ground (arith, bytes_beq_iff t p)
match_tokens_cons p (q ∷ before) final t ts e = ground (arith, bytes_beq_iff t p)

match_tokens_sound :
    (before : List Bytes) (final : Bytes) (tokens : List Bytes)
    → match_tokens (before ++ final ∷ []) tokens ≡ true
    → Grants before final tokens
unfolding match_tokens
match_tokens_sound [] final [] e = cc
match_tokens_sound [] final (t ∷ ts) e = last_sound final t ts e
match_tokens_sound (p ∷ before) final [] e = no_tokens p (before ++ final ∷ []) e
match_tokens_sound (p ∷ before) final (t ∷ ts) e =
    let (same, rest) = match_tokens_cons p before final t ts e in
    let g = match_tokens_sound before final ts rest in
    record { here = g.here; after = g.after; parts = ap₂ ◌∷◌ same g.parts; fits = g.fits }

match_tokens_complete :
    (before : List Bytes) (final here : Bytes) (after : List Bytes)
    → (final ≡ star) ⊎ (path_match final here ≡ true)
    → match_tokens (before ++ final ∷ []) (before ++ here ∷ after) ≡ true
unfolding match_tokens
match_tokens_complete [] final here after f = ground (arith, bytes_beq_iff final star)
match_tokens_complete (p ∷ []) final here after f =
    ground (arith, bytes_beq_iff p p, match_tokens_complete [] final here after f)
match_tokens_complete (p ∷ q ∷ before) final here after f =
    ground (arith, bytes_beq_iff p p, match_tokens_complete (q ∷ before) final here after f)

several_tokens :
    (p : Bytes) (before : List Bytes) (final : Bytes) (tokens : List Bytes)
    → match_pattern_tokens (p ∷ before ++ final ∷ []) tokens
      ≡ match_tokens (p ∷ before ++ final ∷ []) tokens
unfolding match_pattern_tokens
several_tokens p [] final tokens = refl
several_tokens p (q ∷ before) final tokens = refl

not_star :
    (p : Bytes) (before : List Bytes) (final : Bytes) → star ∷ [] ≡ p ∷ before ++ final ∷ [] → ⊥
not_star p [] final e = cc
not_star p (q ∷ before) final e = cc

pattern_tokens :
    (pattern p : Bytes) (before : List Bytes) (final : Bytes) (tokens : List Bytes)
    → fields pattern ≡ p ∷ before ++ final ∷ []
    → match_exec_pattern pattern tokens ≡ match_tokens (p ∷ before ++ final ∷ []) tokens
pattern_tokens pattern p before final tokens e = elim (Bool-cases (bytes_beq pattern star)) [
  | inl same ↦ absurd (
      not_star p before final
        (fields_star ∙ ap fields (sym ((bytes_beq_iff pattern star).0 same)) ∙ e))
  | inr other ↦
      unfold match_exec_pattern in
      rw other (ap (λ ps. match_pattern_tokens ps tokens) e ∙ several_tokens p before final tokens)
]
  where
    fields_star : star ∷ [] ≡ fields star
    fields_star = unfold fields in refl

some_tokens :
    (pattern p : Bytes) (before : List Bytes) (final : Bytes) (tokens : List Bytes)
    → fields pattern ≡ p ∷ before ++ final ∷ []
    → match_some (pattern ∷ []) tokens ≡ match_tokens (p ∷ before ++ final ∷ []) tokens
some_tokens pattern p [] final [] e = unfold match_tokens in refl
some_tokens pattern p (q ∷ before) final [] e = unfold match_tokens in refl
some_tokens pattern p before final (t ∷ ts) e =
    if_same (match_exec_pattern pattern (t ∷ ts)) ∙ pattern_tokens pattern p before final (t ∷ ts) e
  where
    if_same : (b : Bool) → (if b then true else false) ≡ b
    if_same true = refl
    if_same false = refl

-- A granted pattern of two tokens or more admits a command line exactly when the line does not begin
-- with a blank or a tab, its first tokens are the pattern's as they stand, and the token in the place
-- of the pattern's last one fits that as a glob; any tokens may follow.
pub match_exec_globs-tokens :
    (pattern : Bytes) (p : Bytes) (before : List Bytes) (final : Bytes) (c : ℕ) (rest : Bytes)
    → fields pattern ≡ p ∷ before ++ final ∷ []
    → (match_exec_globs (pattern ∷ []) (c ∷ rest) ≡ true)
      ↔ ((c ≢ b' ') × (c ≢ 9) × Grants (p ∷ before) final (fields (c ∷ rest)))
unfolding match_exec_globs
match_exec_globs-tokens pattern p before final c rest e = (
  λ h.
      let (not_blank, not_tab, m) = unblank (match_some (pattern ∷ []) (fields (c ∷ rest))) h in
      (
        not_blank,
        not_tab,
        match_tokens_sound (p ∷ before) final (fields (c ∷ rest))
            (sym (some_tokens pattern p before final (fields (c ∷ rest)) e) ∙ m),
      ),
  λ (not_blank, not_tab, g).
      let m : match_some (pattern ∷ []) (fields (c ∷ rest)) ≡ true =
        some_tokens pattern p before final (fields (c ∷ rest)) e
        ∙ ap (match_tokens (p ∷ before ++ final ∷ [])) g.parts
        ∙ match_tokens_complete (p ∷ before) final g.here g.after g.fits in
      ground (arith, m),
)
  where
    unblank :
        (b : Bool)
        → (if nat_beq c b' ' || nat_beq c 9 then false else b) ≡ true
        → (c ≢ b' ') × (c ≢ 9) × (b ≡ true)
    unblank b h = ground arith
