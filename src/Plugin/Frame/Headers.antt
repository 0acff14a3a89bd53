-- ===== src/Plugin/Frame/Headers.antt =====
-- plugin/host/jsonrpc.go: one line of a header as `Read` takes it, and trimming.
use opendray_v2_lab.Go.Trim.{trim_right}
use opendray_v2_lab.Common.{
  ℕ, ◌+◌, ◌≡◌, refl, ◌∙◌, Bool, false, [], ◌∷◌, ◌++◌, Option, Bytes, length, nat_beq, All, arith,
  append_assoc, append-nil,
}
use opendray_v2_lab.Plugin.Frame.{
  ReadResult, failed, Line, refused, blank, header, header_line, read_body, read_lines,
}

-- No byte ends a line.
abbrev pub OneLine : Bytes → Type 0
OneLine = All (λ c. nat_beq c 10 ≡ false)

-- The rest of the loop, from the end of a line.
abbrev pub after_line : ℕ → Option ℕ → Line → Bytes → ReadResult × Bytes
after_line counted content_len (refused why) stream = (failed why, stream)
after_line counted content_len blank stream = read_body content_len stream
after_line counted content_len (header found) stream = read_lines [] counted found stream

pub read_lines_end :
    (line : Bytes) (header_bytes : ℕ) (content_len : Option ℕ) (stream : Bytes)
    → read_lines line header_bytes content_len (10 ∷ stream)
      ≡ after_line
          (header_bytes + length (line ++ 10 ∷ []))
          content_len
          (header_line (header_bytes + length (line ++ 10 ∷ [])) content_len (line ++ 10 ∷ []))
          stream
unfolding read_lines
read_lines_end line header_bytes content_len stream =
    go (header_line (header_bytes + length (line ++ 10 ∷ [])) content_len (line ++ 10 ∷ []))
  where
    go :
        (l : Line)
        → (elim l [
          | refused why ↦ (failed why, stream)
          | blank ↦ read_body content_len stream
          | header found ↦ read_lines [] (header_bytes + length (line ++ 10 ∷ [])) found stream
        ])
          ≡ after_line (header_bytes + length (line ++ 10 ∷ [])) content_len l stream
    go (refused why) = refl
    go blank = refl
    go (header found) = refl

pub read_lines_step :
    (line : Bytes) (header_bytes : ℕ) (content_len : Option ℕ) (c : ℕ) (stream : Bytes)
    → nat_beq c 10 ≡ false
    → read_lines line header_bytes content_len (c ∷ stream)
      ≡ read_lines (line ++ c ∷ []) header_bytes content_len stream
unfolding read_lines
read_lines_step line header_bytes content_len c stream other = rw (other, read_lines) refl

-- A whole line, whatever stood before it on the line.
pub read_line :
    (l line : Bytes) (header_bytes : ℕ) (content_len : Option ℕ) (stream : Bytes)
    → OneLine l
    → read_lines line header_bytes content_len (l ++ 10 ∷ stream)
      ≡ after_line
          (header_bytes + length ((line ++ l) ++ 10 ∷ []))
          content_len
          (header_line
            (header_bytes + length ((line ++ l) ++ 10 ∷ []))
            content_len
            ((line ++ l) ++ 10 ∷ []))
          stream
read_line [] line header_bytes content_len stream one =
    rw (append-nil line) (read_lines_end line header_bytes content_len stream)
read_line (c ∷ l) line header_bytes content_len stream one =
    read_lines_step line header_bytes content_len c (l ++ 10 ∷ stream) one.0
    ∙ (read_line l (line ++ c ∷ []) header_bytes content_len stream one.1
        ∙ rw (append_assoc line (c ∷ []) l) refl)

-- What no byte of is dropped stays, if all behind it goes.
pub trim_right-append :
    (drops : ℕ → Bool) (s t : Bytes)
    → All (λ c. drops c ≡ false) s
    → trim_right drops t ≡ []
    → trim_right drops (s ++ t) ≡ s
unfolding trim_right
trim_right-append drops [] t kept gone = gone
trim_right-append drops (c ∷ s) t kept gone =
    ground (arith, kept.0, trim_right-append drops s t kept.1 gone)
