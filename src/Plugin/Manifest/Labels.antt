-- ===== src/Plugin/Manifest/Labels.antt =====
-- plugin/manifest_validate.go: which texts the patterns of names, publishers, versions and ids let through.
use opendray_v2_lab.Common.{
  every, ℕ, ◌+◌, ◌≤◌, ◌≡◌, ◌↔◌, inl, inr, refl, sym, ap, subst, ◌∙◌, Bool, true, false, [], ◌∷◌,
  ◌++◌, none, Bytes, length, length-append, arith, &&-eq-true,
}
use opendray_v2_lab.Go.Regexp.{Regex}
use opendray_v2_lab.Go.Regexp.Language.{Lang, match_string_iff}
use opendray_v2_lab.Go.Regexp.Classes.{every-append}
use opendray_v2_lab.Plugin.Manifest.Grammar.{
  is_alnum, is_name_byte, re_label, re_name, re_publisher, matched, validate_name,
  validate_publisher,
}

abbrev pub starts : (ℕ → Bool) → Bytes → Bool
starts p [] = false
starts p (c ∷ s) = p c

abbrev pub ends : (ℕ → Bool) → Bytes → Bool
ends p [] = false
ends p (c ∷ []) = p c
ends p (c ∷ d ∷ s) = ends p (d ∷ s)

-- One to `most` lower-case letters, digits and dashes, with no dash at either end.
pub record IsLabel (most : ℕ) (s : Bytes) : Type 0 where
  pub bytes : every is_name_byte s ≡ true
  pub short : length s ≤ most
  pub first : starts is_alnum s ≡ true
  pub last : ends is_alnum s ≡ true

ends_append : (p : ℕ → Bool) (c d : ℕ) (s : Bytes) → ends p (c ∷ (s ++ d ∷ [])) ≡ p d
ends_append p c d [] = refl
ends_append p c d (b ∷ s) = ends_append p b d s

unsnoc : (c : ℕ) (s : Bytes) → (w : Bytes) × (d : ℕ) × (c ∷ s ≡ w ++ d ∷ [])
unsnoc c [] = ([], c, refl)
unsnoc c (b ∷ s) = let (w, d, e) = unsnoc b s in (c ∷ w, d, ap (◌∷◌ c) e)

name_byte_of_alnum : (c : ℕ) → is_alnum c ≡ true → is_name_byte c ≡ true
name_byte_of_alnum c h = ground (arith, h)

IsLabel-long :
    (n c d : ℕ) (w : Bytes)
    → is_alnum c ≡ true
    → every is_name_byte w ≡ true
    → length w ≤ n
    → is_alnum d ≡ true
    → IsLabel (n + 2) (c ∷ (w ++ d ∷ []))
IsLabel-long n c d w hc hw lw hd = record {
  bytes = (&&-eq-true (is_name_byte c) (every is_name_byte (w ++ d ∷ []))).1 (
    name_byte_of_alnum c hc,
    every-append is_name_byte w (d ∷ [])
        ∙ (&&-eq-true (every is_name_byte w) (every is_name_byte (d ∷ []))).1
            (hw, (&&-eq-true (is_name_byte d) true).1 (name_byte_of_alnum d hd, refl)),
  );
  short = omega (arith, length-append {0} w (d ∷ []), lw);
  first = hc;
  last = ends_append is_alnum c d w ∙ hd;
}

IsLabel-sound : (n : ℕ) (s : Bytes) → Lang (re_label n) s → IsLabel (n + 2) s
IsLabel-sound n s (u, v, e, (c, eu, hc), inl (w, x, ev, (hw, lw), (d, ex, hd))) =
    let shape : s ≡ c ∷ (w ++ d ∷ []) = e ∙ rw (eu, ev, ex) refl in
    subst (IsLabel (n + 2)) (sym shape) (IsLabel-long n c d w hc hw lw hd)
IsLabel-sound n s (u, v, e, (c, eu, hc), inr ev) =
    let shape : s ≡ c ∷ [] = e ∙ rw (eu, ev) refl in
    subst (IsLabel (n + 2)) (sym shape) (record {
      bytes = (&&-eq-true (is_name_byte c) true).1 (name_byte_of_alnum c hc, refl);
      short = omega arith;
      first = hc;
      last = hc;
    })

label_complete : (n : ℕ) (s : Bytes) → IsLabel (n + 2) s → Lang (re_label n) s
label_complete n [] h = absurd (cc h.first)
label_complete n (c ∷ []) h = (c ∷ [], [], refl, (c, refl, h.first), inr refl)
label_complete n (c ∷ b ∷ s) h =
    let (w, d, e) = unsnoc b s in
    let all : every is_name_byte (w ++ d ∷ []) ≡ true =
      ((&&-eq-true (is_name_byte c) (every is_name_byte (w ++ d ∷ []))).0
        (subst (λ t. every is_name_byte (c ∷ t) ≡ true) e h.bytes)).1 in
    let parts =
      (&&-eq-true (every is_name_byte w) (every is_name_byte (d ∷ []))).0
        (sym (every-append is_name_byte w (d ∷ [])) ∙ all) in
    let size : length (w ++ d ∷ []) ≤ n + 1 =
      subst (λ t. length t ≤ n + 1) e (omega (arith, h.short)) in
    let final : is_alnum d ≡ true =
      sym (ends_append is_alnum c d w) ∙ subst (λ t. ends is_alnum (c ∷ t) ≡ true) e h.last in
    (
      c ∷ [],
      b ∷ s,
      refl,
      (c, refl, h.first),
      inl (
        w,
        d ∷ [],
        e,
        (parts.0, omega (arith, length-append {0} w (d ∷ []), size)),
        (d, refl, final),
      ),
    )

-- What the pattern and the test for the empty text say together, when the pattern matches no empty text.
pub matched_iff : (re : Regex) (s : Bytes) → (Lang re [] → ⊥) → (matched re s ≡ none) ↔ Lang re s
matched_iff re [] never = (λ h. absurd (cc h), λ h. absurd (never h))
matched_iff re (c ∷ s) never = (
  λ h. (match_string_iff (c ∷ s) re).0 (ground (arith, h)),
  λ h. ground (arith, (match_string_iff (c ∷ s) re).1 h),
)

label_not_empty : (n : ℕ) → Lang (re_label n) [] → ⊥
label_not_empty n h = cc ((IsLabel-sound n [] h).first)

-- A name passes exactly when it has 1 to 64 lower-case letters, digits and dashes and no dash at either end;
-- a publisher exactly when it has 1 to 40 of them.
pub validate_name-IsLabel :
    (s : Bytes)
    → ((validate_name s ≡ none) ↔ IsLabel 64 s) × ((validate_publisher s ≡ none) ↔ IsLabel 40 s)
unfolding validate_name validate_publisher
validate_name-IsLabel s =
    let name = matched_iff re_name s (label_not_empty 62) in
    let publisher = matched_iff re_publisher s (label_not_empty 38) in
    (
      (λ h. IsLabel-sound 62 s (name.0 h), λ h. name.1 (label_complete 62 s h)),
      (λ h. IsLabel-sound 38 s (publisher.0 h), λ h. publisher.1 (label_complete 38 s h)),
    )
