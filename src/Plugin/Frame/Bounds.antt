-- ===== src/Plugin/Frame/Bounds.antt =====
-- plugin/host/jsonrpc.go: the limits of `Read`, and its errors.
use opendray_v2_lab.Common.{
  ℕ, ◌+◌, ◌≡◌, ◌≢◌, ◌≤◌, refl, sym, ap, ◌∙◌, inl, inr, [], ◌∷◌, ◌++◌, Option, none, some, Bytes,
  length, nat_beq, nat_beq_iff, arith, Bool-cases, length-append, length-take, take-append-drop,
  append_assoc, append-nil,
}
use opendray_v2_lab.Plugin.Frame.{
  ReadError, body, failed, header_too_large, malformed_header, Line, refused, header, blank,
  max_body_bytes, max_header_bytes, header_line, read_body, read_lines, read,
}
use opendray_v2_lab.Plugin.Frame.Headers.{OneLine, after_line, read_lines_end, read_lines_step}

read_body_bounds :
    (n : Option ℕ) (s content rest : Bytes)
    → read_body n s ≡ (body content, rest)
    → (s ≡ content ++ rest) × (length content ≤ max_body_bytes)
unfolding read_body
read_body_bounds none s content rest h = cc
read_body_bounds (some n) s content rest h = ground (arith, take-append-drop n s, length-take n s)

-- What `Read` takes from a stream before the body.
abbrev Consumes : ℕ → Bytes → Bytes → Bytes → Type 0
Consumes counted s content rest =
    (head : Bytes) × (s ≡ head ++ (content ++ rest))
    × (counted + length head ≤ max_header_bytes)
    × (length content ≤ max_body_bytes)

-- A header that is too long is refused.
refusal :
    (counted : ℕ) (found : Option ℕ) (line : Bytes) (l : Line)
    → header_line counted found line ≡ l
    → ((why : ReadError) → l ≢ refused why)
    → counted ≤ max_header_bytes
unfolding header_line
refusal counted found line l e other = ground (arith, e, other header_too_large)

after_line-Consumes :
    (counted : ℕ) (found : Option ℕ) (line content rest : Bytes) (l : Line) (s : Bytes)
    → ((found' : Option ℕ)
        → read_lines [] counted found' s ≡ (body content, rest)
        → Consumes (counted + 0) s content rest)
    → header_line counted found line ≡ l
    → after_line counted found l s ≡ (body content, rest)
    → Consumes counted s content rest
after_line-Consumes counted found line content rest (refused why) s again e h = cc
after_line-Consumes counted found line content rest blank s again e h =
    let (whole, small) = read_body_bounds found s content rest h in
    ([], whole, omega (arith, refusal counted found line blank e (λ why p. cc)), small)
after_line-Consumes counted found line content rest (header found') s again e h =
    let (head, whole, fits, small) = again found' h in (head, whole, omega arith, small)

read_lines-Consumes :
    (s line : Bytes) (counted : ℕ) (found : Option ℕ) (content rest : Bytes)
    → read_lines line counted found s ≡ (body content, rest)
    → Consumes (counted + length line) s content rest
read_lines-Consumes [] line counted found content rest h = unfold read_lines in cc
read_lines-Consumes (c ∷ s) line counted found content rest h = elim (Bool-cases (nat_beq c 10)) [
  | inl end ↦
      let here : c ≡ 10 = ground (arith, nat_beq_iff c 10) in
      let total = counted + length (line ++ 10 ∷ []) in
      let at_end = ap (λ x. read_lines line counted found (x ∷ s)) here in
      let (head, whole, fits, small) =
        after_line-Consumes total found (line ++ 10 ∷ []) content rest
          (header_line total found (line ++ 10 ∷ [])) s
          (λ found'. read_lines-Consumes s [] total found' content rest) refl
          (sym (read_lines_end line counted found s) ∙ (sym at_end ∙ h)) in
      (c ∷ head, ap (λ t. c ∷ t) whole, omega (arith, length-append {0} line (10 ∷ [])), small)
  | inr other ↦
      let (head, whole, fits, small) =
        read_lines-Consumes s (line ++ c ∷ []) counted found content rest
          (sym (read_lines_step line counted found c s other) ∙ h) in
      (c ∷ head, ap (λ t. c ∷ t) whole, omega (arith, length-append {0} line (c ∷ [])), small)
]

-- When `Read` returns a body, it stood on the stream right behind a header, the stream goes on right
-- behind it, the header took at most 8 KiB, and the body is of at most 16 MiB.
pub read_bounds :
    (s content rest : Bytes)
    → read s ≡ (body content, rest)
    → (head : Bytes) × (s ≡ head ++ (content ++ rest))
      × (length head ≤ max_header_bytes)
      × (length content ≤ max_body_bytes)
unfolding read
read_bounds s content rest h =
    let (head, whole, fits, small) = read_lines-Consumes s [] 0 none content rest h in
    (head, whole, omega arith, small)

unended :
    (s line : Bytes) (counted : ℕ) (found : Option ℕ)
    → OneLine s
    → read_lines line counted found s ≡ read_lines (line ++ s) counted found []
unended [] line counted found one = ap (λ t. read_lines t counted found []) (sym (append-nil line))
unended (c ∷ s) line counted found one =
    read_lines_step line counted found c s one.0
    ∙ (unended s (line ++ c ∷ []) counted found one.1
        ∙ ap (λ t. read_lines t counted found []) (append_assoc line (c ∷ []) s))

-- A stream that ends before its first line does: `Read` takes the whole of it, however long it is, and
-- reports a malformed header, also for a text far above the limit of 8 KiB.
pub read_unended :
    (c : ℕ) (s : Bytes) → OneLine (c ∷ s) → read (c ∷ s) ≡ (failed malformed_header, [])
unfolding read read_lines
read_unended c s one = unended (c ∷ s) [] 0 none one
