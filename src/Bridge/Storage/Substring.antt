-- ===== src/Bridge/Storage/Substring.antt =====
-- plugin/bridge/api_storage.go: what containsSubstr finds, and how the errors of KVSet reach the plugin.
use opendray_v2_lab.Common.{
  ℕ, zero, suc, ◌+◌, ◌-◌, ◌<◌, ◌≡◌, ◌↔◌, refl, sym, ap, ◌∙◌, subst, Bool, true, false, [], ◌∷◌,
  ◌++◌, Bytes, bytes_eq, bytes_beq_iff, ◌==◌, Bool-cases, inl, inr, length, length-append, take,
  drop, take-append-drop, drop-length, take-length, ltb, arith,
}
use opendray_v2_lab.Bridge.Storage.{found_from, contains_substr}
use opendray_v2_lab.Go.Strings.Contains.{Has}

abbrev here : ℕ → Bytes → Bytes → Bool
here i s sub = take (length sub) (drop i s) == sub

found_sound : (n i : ℕ) (s sub : Bytes) → found_from n i s sub ≡ true → Has s sub
unfolding found_from
found_sound zero i s sub h = absurd (cc h)
found_sound (suc n) i s sub h = elim (Bool-cases (here i s sub)) [
  | inl hit ↦
      let e = (bytes_beq_iff (take (length sub) (drop i s)) sub).0 hit in
      (
        take i s,
        drop (length sub) (drop i s),
        sym (take-append-drop i s)
            ∙ ap (λ t. take i s ++ t)
                (sym (take-append-drop (length sub) (drop i s))
                  ∙ ap (λ t. t ++ drop (length sub) (drop i s)) e),
      )
  | inr miss ↦ found_sound n (i + 1) s sub (rw miss at h)
]

-- A place from which the loop has yet to pass `k` rounds to reach a hit.
found_complete :
    (k n i : ℕ) (s sub : Bytes) → k < n → here (i + k) s sub ≡ true → found_from n i s sub ≡ true
unfolding found_from
found_complete k zero i s sub h hit = absurd (omega (arith, h))
found_complete zero (suc n) i s sub h hit =
    let at : here i s sub ≡ true = subst (λ j. here j s sub ≡ true) (omega arith) hit in rw at refl
found_complete (suc k) (suc n) i s sub h hit = elim (Bool-cases (here i s sub)) [
  | inl first ↦ rw first refl
  | inr miss ↦ rw miss (
      found_complete k n (i + 1) s sub (omega (arith, h))
        (subst (λ j. here j s sub ≡ true) (omega arith) hit))
]

stands_at : (a sub b : Bytes) → here (length a) (a ++ (sub ++ b)) sub ≡ true
stands_at a sub b =
    (bytes_beq_iff (take (length sub) (drop (length a) (a ++ (sub ++ b)))) sub).1
      (ap (take (length sub)) (drop-length a (sub ++ b)) ∙ take-length sub b)

-- containsSubstr finds exactly the texts that stand somewhere in the text.
pub contains_substr-Has : (s sub : Bytes) → (contains_substr s sub ≡ true) ↔ Has s sub
unfolding contains_substr
contains_substr-Has s [] = (λ h. ([], s, refl), λ h. refl)
contains_substr-Has s (c ∷ sub) = (
  λ h. elim (Bool-cases (ltb (length s) (length (c ∷ sub)))) [
    | inl short ↦ absurd (cc (rw short at h))
    | inr long ↦ found_sound (length s - length (c ∷ sub) + 1) 0 s (c ∷ sub) (rw long at h)
  ],
  λ (x : Has s (c ∷ sub)).
      let (a, b, e) = x in
      let size : length s ≡ length a + (length (c ∷ sub) + length b) =
        ap length e
        ∙ (length-append a ((c ∷ sub) ++ b) ∙ ap (λ n. length a + n) (length-append (c ∷ sub) b)) in
      let hit : here (0 + length a) s (c ∷ sub) ≡ true =
        let start : length a ≡ 0 + length a = omega arith in
        subst (λ j. here j s (c ∷ sub) ≡ true) start
          (subst (λ t. here (length a) t (c ∷ sub) ≡ true) (sym e) (stands_at a (c ∷ sub) b)) in
      let fits : ltb (length s) (length (c ∷ sub)) ≡ false = ground (arith, size) in
      rw fits (
        found_complete (length a) (length s - length (c ∷ sub) + 1) 0 s (c ∷ sub)
          (omega (arith, size)) hit),
)
