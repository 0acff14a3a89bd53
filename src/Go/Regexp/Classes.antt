-- ===== src/Go/Regexp/Classes.antt =====
-- The bytes that the texts of a pattern can have.
use opendray_v2_lab.Common.{
  every, ℕ, ◌≡◌, refl, ap, ◌∙◌, Bool, true, ◌&&◌, [], ◌∷◌, ◌++◌, Bytes, arith, inl, inr, &&-eq-true,
  nat_beq_iff, ◌↔◌,
}
use opendray_v2_lab.Go.Regexp.{Regex, fail, empty, one, many, upto, seq, alt, literal}
use opendray_v2_lab.Go.Regexp.Language.{Lang}

-- Every class of the pattern lies within `p`.
abbrev pub Within : (ℕ → Bool) → Regex → Type 0
Within p fail = Unit
Within p empty = Unit
Within p (one q) = (c : ℕ) → q c ≡ true → p c ≡ true
Within p (many q) = (c : ℕ) → q c ≡ true → p c ≡ true
Within p (upto n q) = (c : ℕ) → q c ≡ true → p c ≡ true
Within p (seq a b) = Within p a × Within p b
Within p (alt a b) = Within p a × Within p b

pub every-append : (p : ℕ → Bool) (s t : Bytes) → every p (s ++ t) ≡ every p s && every p t
every-append p [] t = refl
every-append p (c ∷ s) t = ground (arith, every-append p s t)

pub every_wider :
    (p q : ℕ → Bool)
    → ((c : ℕ) → q c ≡ true → p c ≡ true)
    → (s : Bytes) → every q s ≡ true
    → every p s ≡ true
every_wider p q wider [] h = refl
every_wider p q wider (c ∷ s) h =
    let (here, later) = (&&-eq-true (q c) (every q s)).0 h in
    (&&-eq-true (p c) (every p s)).1 (wider c here, every_wider p q wider s later)

-- A text that the pattern stands for has bytes of its classes only.
pub every-Lang : (p : ℕ → Bool) (r : Regex) (s : Bytes) → Within p r → Lang r s → every p s ≡ true
every-Lang p fail s w h = absurd h
every-Lang p empty s w h = ap (every p) h
every-Lang p (one q) s w (c, e, hit) = ap (every p) e ∙ (&&-eq-true (p c) true).1 (w c hit, refl)
every-Lang p (many q) s w h = every_wider p q w s h
every-Lang p (upto n q) s w h = every_wider p q w s h.0
every-Lang p (seq a b) s w (u, v, e, x, y) =
    ap (every p) e
    ∙ (every-append p u v
        ∙ (&&-eq-true (every p u) (every p v)).1 (every-Lang p a u w.0 x, every-Lang p b v w.1 y))
every-Lang p (alt a b) s w (inl x) = every-Lang p a s w.0 x
every-Lang p (alt a b) s w (inr y) = every-Lang p b s w.1 y

-- A literal stands for itself.
pub Lang-literal : (w s : Bytes) → Lang (literal w) s ↔ (s ≡ w)
Lang-literal [] s = (λ h. h, λ h. h)
Lang-literal (c ∷ w) s = (
  λ h.
      let (u, v, e, (d, f, hit), rest) = h in
      let tail : v ≡ w = (Lang-literal w v).0 rest in
      let same : c ≡ d = (nat_beq_iff c d).0 hit in e ∙ rw (f, tail, same) refl,
  λ h. (c ∷ [], w, h, (c, refl, (nat_beq_iff c c).1 refl), (Lang-literal w w).1 refl),
)
