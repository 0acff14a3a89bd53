-- ===== src/Plugin/Frame.antt =====
-- plugin/host/jsonrpc.go: the frames in which messages go to a sidecar and come back. The stream of a
-- reader is the list of the bytes that it will still deliver, up to its end; encoding/json and the
-- writer behind a FramedWriter are parameters.
mod Headers
mod RoundTrip
mod Bounds
mod Tests
use opendray_v2_lab.Go.Trim.{trim_right, trim_space}
use opendray_v2_lab.Common.Order.{ℤ, pos, negsuc}
use opendray_v2_lab.Common.{
  ℕ, suc, ◌+◌, ◌*◌, ◌^◌, ◌≡◌, refl, Bool, true, false, ◌&&◌, ◌||◌, List, [], ◌∷◌, ◌++◌, map, Option,
  none, some, Bytes, codes, length, take, drop, has_prefix, nat_beq, ltb, leb, if◌then◌else◌,
}
use opendray_v2_lab.Go.Decimal.{atoi, format_nat}
use opendray_v2_lab.Go.Strings.{lower, is_space}

abbrev pub max_body_bytes : ℕ
max_body_bytes = 16 * 2 ^ 20

abbrev pub max_header_bytes : ℕ
max_header_bytes = 8 * 2 ^ 10

-- `eof` is io.EOF, and `short_body` the error for a stream that ends in a body.
pub data ReadError : Type 0 where
  eof malformed_header header_too_large body_too_large short_body : ReadError

pub data ReadResult : Type 0 where
  body : Bytes → ReadResult
  failed : ReadError → ReadResult

abbrev pub is_line_end : ℕ → Bool
is_line_end c = nat_beq c 13 || nat_beq c 10

abbrev pub content_length_prefix : Bytes
content_length_prefix = codes "content-length:"

-- What one line of the header says.
pub data Line : Type 0 where
  refused : ReadError → Line
  blank : Line
  header : Option ℕ → Line

abbrev pub non_negative : Option ℤ → Line
non_negative none = refused malformed_header
non_negative (some (pos n)) = header (some n)
non_negative (some (negsuc n)) = refused malformed_header

-- A trimmed line; `content_len` is what the lines before it gave.
unfoldable pub header_field : Option ℕ → Bytes → Line
header_field content_len [] = blank
header_field content_len (c ∷ s) =
    if has_prefix (map lower (c ∷ s)) content_length_prefix
    then non_negative (atoi (trim_space (drop (length content_length_prefix) (c ∷ s))))
    else header content_len

-- A line as ReadString gives it, with `header_bytes` counting it.
unfoldable pub header_line : ℕ → Option ℕ → Bytes → Line
header_line header_bytes content_len line =
    if ltb max_header_bytes header_bytes
    then refused header_too_large
    else header_field content_len (trim_right is_line_end line)

-- The body, once the header has ended: what is returned, and what the stream holds then.
unfoldable pub read_body : Option ℕ → Bytes → ReadResult × Bytes
read_body none stream = (failed malformed_header, stream)
read_body (some n) stream =
    if ltb max_body_bytes n
    then (failed body_too_large, drop n stream)
    else if ltb (length stream) n
    then (failed short_body, [])
    else (body (take n stream), drop n stream)

-- The stream ends in a line: at its start, or within it.
abbrev cut_off : Bytes → ReadError
cut_off [] = eof
cut_off (c ∷ s) = malformed_header

-- The loop of `Read`, with the line that ReadString is at.
unfoldable pub read_lines : Bytes → ℕ → Option ℕ → Bytes → ReadResult × Bytes
read_lines line header_bytes content_len [] = (failed (cut_off line), [])
read_lines line header_bytes content_len (c ∷ stream) =
    let whole = line ++ c ∷ [] in
    let counted = header_bytes + length whole in
    elim (nat_beq c 10) [
      | false ↦ read_lines whole header_bytes content_len stream
      | true ↦ elim (header_line counted content_len whole) [
        | refused why ↦ (failed why, stream)
        | blank ↦ read_body content_len stream
        | header found ↦ read_lines [] counted found stream
      ]
    ]

unfoldable pub read : Bytes → ReadResult × Bytes
read stream = read_lines [] 0 none stream

-- What the writer behind a FramedWriter does with a chunk: what it has passed on, and whether it
-- reports no error.
abbrev pub Writer : Type 0
Writer = Bytes → Bytes → Bytes × Bool

pub data WriteResult : Type 0 where
  written marshal_error write_too_large header_error body_error : WriteResult

abbrev pub frame_header : Bytes → Bytes
frame_header content =
    codes "Content-Length: " ++ (format_nat (length content) ++ (13 ∷ 10 ∷ 13 ∷ 10 ∷ []))

unfoldable pub write_frame : Writer → Bytes → Bytes → Bytes × WriteResult
write_frame w out content =
    let (out', ok) = w out (frame_header content) in
    let (out'', ok') = w out' content in
    if ok then (out'', if ok' then written else body_error) else (out', header_error)

abbrev write_encoded : Writer → Bytes → Option Bytes → Bytes × WriteResult
write_encoded w out none = (out, marshal_error)
write_encoded w out (some content) =
    if ltb max_body_bytes (length content)
    then (out, write_too_large)
    else write_frame w out content

-- `FramedWriter.Write`, for a message of any type; `marshal` is json.Marshal.
unfoldable pub write {ℓ} :
    {M : Type ℓ} → (M → Option Bytes) → Writer → Bytes → M → Bytes × WriteResult
unfolding write_frame
write marshal w out msg = write_encoded w out (marshal msg)
