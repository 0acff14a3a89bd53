-- ===== src/Plugin/Frame/RoundTrip.antt =====
-- plugin/host/jsonrpc.go: `Read` gives back what `Write` wrote, frame by frame.
use opendray_v2_lab.Go.Trim.{trim_right, trim_left, trim_space}
use opendray_v2_lab.Common.{
  ℕ, zero, suc, ◌+◌, ◌≡◌, ◌≤◌, refl, sym, ap, ◌∙◌, subst, Bool, true, false, List, [], ◌∷◌, ◌++◌,
  map, Option, none, some, Bytes, codes, length, nat_beq, ltb, All, arith, All-append, append_assoc,
  append-nil, if◌then◌else◌, length-append, drop-length, take-length,
}
use opendray_v2_lab.Go.Decimal.{
  max_int, atoi, format_nat, AllDigits, format_nat-AllDigits, format_nat-cons, atoi-format_nat,
  length-format_nat,
}
use opendray_v2_lab.Go.Strings.{lower, is_space}
use opendray_v2_lab.Plugin.Frame.{
  ReadResult, body, failed, body_too_large, header, blank, non_negative, max_body_bytes,
  frame_header, header_line, header_field, is_line_end, read_body, read, Writer, WriteResult,
  written, write, write_frame, max_header_bytes,
}
use opendray_v2_lab.Plugin.Frame.Headers.{OneLine, after_line, read_line, trim_right-append}

-- A decimal print has no space and ends no line.
digits_plain :
    (s : Bytes)
    → AllDigits s
    → OneLine s × All (λ c. is_line_end c ≡ false) s × All (λ c. is_space c ≡ false) s
unfolding is_space
digits_plain [] d = (tt, tt, tt)
digits_plain (c ∷ s) d =
    let (a, b, e) = digits_plain s d.2 in
    ((ground (arith, d.0, d.1), a), (ground (arith, d.0, d.1), b), (ground (arith, d.0, d.1), e))

trim_right_cons :
    (drops : ℕ → Bool) (x : ℕ) (t : Bytes) (c : ℕ) (s : Bytes)
    → trim_right drops t ≡ c ∷ s
    → trim_right drops (x ∷ t) ≡ x ∷ c ∷ s
unfolding trim_right
trim_right_cons drops x t c s e = ground (arith, e)

trim_left_kept :
    (drops : ℕ → Bool) (c : ℕ) (s : Bytes) → drops c ≡ false → trim_left drops (c ∷ s) ≡ c ∷ s
unfolding trim_left
trim_left_kept drops c s e = ground (arith, e)

trim_space_digits : (c : ℕ) (s : Bytes) → AllDigits (c ∷ s) → trim_space (32 ∷ c ∷ s) ≡ c ∷ s
unfolding trim_space
trim_space_digits c s d =
    let (a, b, e) = digits_plain (c ∷ s) d in
    let whole : trim_right is_space (c ∷ s) ≡ c ∷ s =
      ap (trim_right is_space) (sym (append-nil (c ∷ s)))
      ∙ trim_right-append is_space (c ∷ s) [] e (unfold trim_right in refl) in
    let blank_goes : trim_left is_space (32 ∷ c ∷ s) ≡ trim_left is_space (c ∷ s) =
      unfold trim_left is_space in refl in
    ap (trim_left is_space) (trim_right_cons is_space 32 (c ∷ s) c s whole)
    ∙ (blank_goes ∙ trim_left_kept is_space c s e.0)

abbrev length_line : Bytes → Bytes
length_line ds = codes "Content-Length: " ++ ds

field-length_line :
    (n : ℕ) → n ≤ max_int → header_field none (length_line (format_nat n)) ≡ header (some n)
unfolding header_field lower
field-length_line n h =
    let (c, s, e) = format_nat-cons n in
    let d = subst AllDigits e (format_nat-AllDigits n) in
    ap (λ t. non_negative (atoi (trim_space (32 ∷ t)))) e
    ∙ ap (λ t. non_negative (atoi t)) (trim_space_digits c s d ∙ sym e)
    ∙ ap non_negative (atoi-format_nat n (omega arith))

abbrev line_of : ℕ → Bytes
line_of n = length_line (format_nat n) ++ 13 ∷ []

OneLine-line_of : (n : ℕ) → OneLine (line_of n)
OneLine-line_of n =
    let plain = digits_plain (format_nat n) (format_nat-AllDigits n) in
    let front : OneLine (codes "Content-Length: ") = ground arith in
    All-append (λ c. nat_beq c 10 ≡ false) (length_line (format_nat n)) (13 ∷ [])
      (All-append (λ c. nat_beq c 10 ≡ false) (codes "Content-Length: ") (format_nat n) front
        plain.0)
      (refl, tt)

-- The line that `Write` prints for a length, as `Read` takes it.
header_line-line_of :
    (n counted : ℕ)
    → n ≤ max_int
    → counted ≤ max_header_bytes
    → header_line counted none (line_of n ++ 10 ∷ []) ≡ header (some n)
unfolding header_line
header_line-line_of n counted h c =
    let plain = digits_plain (format_nat n) (format_nat-AllDigits n) in
    let front : All (λ c. is_line_end c ≡ false) (codes "Content-Length: ") = ground arith in
    let kept =
      All-append (λ c. is_line_end c ≡ false) (codes "Content-Length: ") (format_nat n) front
        plain.1 in
    let trimmed : trim_right is_line_end (line_of n ++ 10 ∷ []) ≡ length_line (format_nat n) =
      ap (trim_right is_line_end) (append_assoc (length_line (format_nat n)) (13 ∷ []) (10 ∷ []))
      ∙ trim_right-append is_line_end (length_line (format_nat n)) (13 ∷ 10 ∷ []) kept
          (unfold trim_right in refl) in
    let field = ap (header_field none) trimmed ∙ field-length_line n h in ground (arith, field)

length-line_of : (n : ℕ) → n ≤ max_int → length (line_of n) ≤ 40
length-line_of n h =
    omega (arith, length-append {0} (format_nat n) (13 ∷ []), length-format_nat 19 n (omega arith))

-- A blank line ends the header.
header_line-blank :
    (counted : ℕ) (found : Option ℕ)
    → counted ≤ max_header_bytes
    → header_line counted found (13 ∷ 10 ∷ []) ≡ blank
unfolding header_line header_field trim_right
header_line-blank counted found c = ground arith

-- What the reader makes of a frame with this body.
unfoldable pub received : Bytes → ReadResult
received content =
    if ltb max_body_bytes (length content) then failed body_too_large else body content

read_body-content :
    (content rest : Bytes)
    → read_body (some (length content)) (content ++ rest) ≡ (received content, rest)
unfolding read_body received
read_body-content content rest =
    ground (arith, length-append content rest, take-length content rest, drop-length content rest)

frame_parts :
    (content rest : Bytes)
    → frame_header content ++ rest ≡ line_of (length content) ++ (10 ∷ ((13 ∷ []) ++ (10 ∷ rest)))
frame_parts content rest = simp append_assoc

-- The two lines of a header: `Read` comes to the body with the length that `Write` printed.
pub read-frame_header :
    (content rest : Bytes)
    → length content ≤ max_int
    → read (frame_header content ++ rest) ≡ read_body (some (length content)) rest
unfolding read
read-frame_header content rest h =
    let n = length content in
    let first = 0 + length (line_of n ++ 10 ∷ []) in
    let second = first + 2 in
    let short : second ≤ max_header_bytes =
      omega (arith, length-line_of n h, length-append {0} (line_of n) (10 ∷ [])) in
    ap read (frame_parts content rest)
    ∙ (read_line (line_of n) [] 0 none ((13 ∷ []) ++ (10 ∷ rest)) (OneLine-line_of n)
        ∙ (ap (λ l. after_line first none l ((13 ∷ []) ++ (10 ∷ rest)))
              (header_line-line_of n first h (omega arith))
            ∙ (read_line (13 ∷ []) [] first (some n) rest (refl, tt)
                ∙ ap (λ l. after_line second (some n) l rest)
                    (header_line-blank second (some n) short))))

read-frame :
    (content rest : Bytes)
    → length content ≤ max_int
    → read (frame_header content ++ (content ++ rest)) ≡ (received content, rest)
read-frame content rest h =
    read-frame_header content (content ++ rest) h ∙ read_body-content content rest

abbrev when_written : WriteResult → Option Bytes → Option Bytes
when_written written rest = rest
when_written other rest = none

-- A sender of messages that stops at the first that fails, and a reader of a number of frames.
module _ {ℓ} {M : Type ℓ} (marshal : M → Option Bytes) (w : Writer) where
  pub send_all : Bytes → List M → Option Bytes
  send_all out [] = some out
  send_all out (m ∷ ms) = let (out', r) = write marshal w out m in when_written r (send_all out' ms)

pub read_all : ℕ → Bytes → List ReadResult × Bytes
read_all zero stream = ([], stream)
read_all (suc n) stream =
    let (r, stream') = read stream in let (rs, left) = read_all n stream' in (r ∷ rs, left)

-- json.Marshal gives these bodies, none of them too large.
abbrev pub Encodes {ℓ} : {M : Type ℓ} → (M → Option Bytes) → List M → List Bytes → Type 0
Encodes marshal [] [] = Unit
Encodes marshal [] (b ∷ bs) = ⊥
Encodes marshal (m ∷ ms) [] = ⊥
Encodes marshal (m ∷ ms) (b ∷ bs) =
    (marshal m ≡ some b) × (length b ≤ max_body_bytes) × Encodes marshal ms bs

unfoldable pub frames : List Bytes → Bytes
frames [] = []
frames (b ∷ bs) = frame_header b ++ (b ++ frames bs)

module _ {ℓ} {M : Type ℓ} (marshal : M → Option Bytes) (w : Writer)
    (passes : (out chunk : Bytes) → w out chunk ≡ (out ++ chunk, true)) where
  write-frame :
      (out : Bytes) (m : M) (b : Bytes)
      → marshal m ≡ some b
      → length b ≤ max_body_bytes
      → write marshal w out m ≡ (out ++ (frame_header b ++ b), written)
  unfolding write write_frame
  write-frame out m b e h = ground (
    arith,
    e,
    passes out (frame_header b),
    passes (out ++ frame_header b) b,
    append_assoc out (frame_header b) b,
  )

  send_all-frames :
      (out : Bytes) (ms : List M) (bs : List Bytes)
      → Encodes marshal ms bs
      → send_all marshal w out ms ≡ some (out ++ frames bs)
  unfolding send_all frames
  send_all-frames out [] (b ∷ bs) e = elim e [ ]
  send_all-frames out (m ∷ ms) [] e = elim e [ ]
  send_all-frames out [] [] e = ap some (sym (append-nil out))
  send_all-frames out (m ∷ ms) (b ∷ bs) (e, h, es) =
      ap (λ r. when_written r.1 (send_all marshal w r.0 ms)) (write-frame out m b e h)
      ∙ (send_all-frames (out ++ (frame_header b ++ b)) ms bs es ∙ ap some (simp append_assoc))

-- A peer's frames with bodies of any length that a 64-bit int counts, one behind the other: as many
-- calls of `Read` return each body in order, or that it is too large when it exceeds 16 MiB. A body that
-- is too large is passed over whole, so the frames behind it are read as they were sent, and what stands
-- behind the last stays on the stream.
pub read_all-frames :
    (bs : List Bytes) (rest : Bytes)
    → All (λ b. length b ≤ max_int) bs
    → read_all (length bs) (frames bs ++ rest) ≡ (map received bs, rest)
unfolding read_all frames
read_all-frames [] rest counted = refl
read_all-frames (b ∷ bs) rest (h, counted) =
    let again = read_all-frames bs rest counted in
    let one : read ((frame_header b ++ (b ++ frames bs)) ++ rest)
        ≡ (received b, frames bs ++ rest) =
      ap read (simp append_assoc) ∙ read-frame b (frames bs ++ rest) h in
    ap
      (λ (x : ReadResult × Bytes).
        (x.0 ∷ (read_all (length bs) x.1).0, (read_all (length bs) x.1).1))
      one
    ∙ ap (λ (y : List ReadResult × Bytes). (received b ∷ y.0, y.1)) again

received_small : (b : Bytes) → length b ≤ max_body_bytes → received b ≡ body b
unfolding received
received_small b h = ground arith

received-All {ℓ} :
    {M : Type ℓ} (marshal : M → Option Bytes) (ms : List M) (bs : List Bytes)
    → Encodes marshal ms bs
    → All (λ b. length b ≤ max_int) bs × (map received bs ≡ map body bs)
received-All marshal [] [] e = (tt, refl)
received-All marshal [] (b ∷ bs) e = elim e [ ]
received-All marshal (m ∷ ms) [] e = elim e [ ]
received-All marshal (m ∷ ms) (b ∷ bs) (e, h, es) =
    let (small, same) = received-All marshal ms bs es in
    ((omega arith, small), rw (received_small b h, same))

-- Messages that json.Marshal encodes in at most 16 MiB each go through a writer that passes on what it
-- is given, one after the other, and `Read`, called as often, returns their encodings in order and
-- leaves what stands behind them on the stream: frames neither merge nor lose bytes.
pub read_all-send_all {ℓ} :
    {M : Type ℓ} (marshal : M → Option Bytes) (w : Writer) (ms : List M) (bs : List Bytes)
    (rest : Bytes)
    → ((out chunk : Bytes) → w out chunk ≡ (out ++ chunk, true))
    → Encodes marshal ms bs
    → (out : Bytes) × (send_all marshal w [] ms ≡ some out)
      × (read_all (length bs) (out ++ rest) ≡ (map body bs, rest))
read_all-send_all marshal w ms bs rest passes e =
    let (counted, same) = received-All marshal ms bs e in
    (
      frames bs,
      send_all-frames marshal w passes [] ms bs e,
      read_all-frames bs rest counted ∙ ap (λ (r : List ReadResult). (r, rest)) same,
    )
