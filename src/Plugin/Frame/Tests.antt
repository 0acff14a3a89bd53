-- ===== src/Plugin/Frame/Tests.antt =====
-- Runs of the frames of plugin/host/jsonrpc.go, and instances of what is proved about them.
use opendray_v2_lab.Go.Trim.{trim_right, trim_left, trim_space}
use opendray_v2_lab.Common.{
  ℕ, zero, suc, ap, ◌++◌, ◌≡◌, ◌≤◌, refl, true, false, List, [], ◌∷◌, map, Option, none, some,
  Bytes, codes, length, arith, nat_beq, if◌then◌else◌,
}
use opendray_v2_lab.Go.Decimal.{digits, format_nat, scan_digits, magnitude, atoi, max_int}
use opendray_v2_lab.Go.Strings.{lower, is_space}
use opendray_v2_lab.Plugin.Frame.{
  body, failed, eof, malformed_header, short_body, max_body_bytes, max_header_bytes, Writer,
  written, header_error, marshal_error, header_field, header_line, read_body, read_lines, read,
  write_frame, write,
}
use opendray_v2_lab.Plugin.Frame.Bounds.{read_bounds}
use opendray_v2_lab.Plugin.Frame.RoundTrip.{
  read_all, send_all, Encodes, frames, received, read_all-frames, read_all-send_all,
}

abbrev crlf : Bytes
crlf = 13 ∷ 10 ∷ []

read_frame_test :
    read (
      codes "content-length:  2 "
      ++ (crlf ++ (codes "X-Other: 1" ++ (crlf ++ (crlf ++ codes "{}rest")))))
    ≡ (body (codes "{}"), codes "rest")
unfolding read read_lines header_line header_field read_body trim_right trim_left trim_space lower
    is_space atoi magnitude scan_digits
read_frame_test = refl

read_negative_test :
    read (codes "Content-Length: -2" ++ (crlf ++ (crlf ++ codes "{}")))
    ≡ (failed malformed_header, crlf ++ codes "{}")
unfolding read read_lines header_line header_field read_body trim_right trim_left trim_space lower
    is_space atoi magnitude scan_digits
read_negative_test = refl

read_short_test :
    read (codes "Content-Length: 5" ++ (crlf ++ (crlf ++ codes "{}"))) ≡ (failed short_body, [])
unfolding read read_lines header_line header_field read_body trim_right trim_left trim_space lower
    is_space atoi magnitude scan_digits
read_short_test = refl

read_end_test : read [] ≡ (failed eof, [])
unfolding read read_lines
read_end_test = refl

abbrev pipe : Writer
pipe out chunk = (out ++ chunk, true)

abbrev broken : Writer
broken out chunk = (out, false)

-- A message stands for its own encoding; the one that starts with a zero has none.
abbrev marshal : Bytes → Option Bytes
marshal [] = some []
marshal (c ∷ m) = if nat_beq c 0 then none else some (c ∷ m)

write_test :
    write marshal pipe [] (codes "{}")
    ≡ (codes "Content-Length: 2" ++ (crlf ++ (crlf ++ codes "{}")), written)
unfolding write write_frame format_nat digits
write_test = refl

write-marshal_test : write marshal pipe (codes "x") (0 ∷ []) ≡ (codes "x", marshal_error)
unfolding write write_frame
write-marshal_test = refl

write-broken_test : write marshal broken (codes "x") (codes "{}") ≡ (codes "x", header_error)
unfolding write write_frame
write-broken_test = refl

abbrev messages : List Bytes
messages = codes "{}" ∷ codes "[1]" ∷ []

messages-Encodes : Encodes marshal messages messages
messages-Encodes = (refl, omega arith, (refl, omega arith, tt))

read_all-send_all_example :
    (out : Bytes) × (send_all marshal pipe [] messages ≡ some out)
    × (read_all 2 (out ++ codes "rest") ≡ (map body messages, codes "rest"))
read_all-send_all_example =
    read_all-send_all marshal pipe messages messages (codes "rest") (λ out chunk. refl)
      messages-Encodes

unfoldable zeros : ℕ → Bytes
zeros zero = []
zeros (suc n) = 0 ∷ zeros n

length-zeros : (n : ℕ) → length (zeros n) ≡ n
unfolding zeros
length-zeros zero = refl
length-zeros (suc n) = ap suc (length-zeros n)

-- A body of one byte more than the limit.
unfoldable oversize : Bytes
oversize = zeros (suc max_body_bytes)

oversize_counted : length oversize ≤ max_int
unfolding oversize
oversize_counted = omega (arith, length-zeros (suc max_body_bytes))

read_all-frames_example :
    read_all 3 (frames (codes "{}" ∷ oversize ∷ codes "[1]" ∷ []) ++ codes "rest")
    ≡ (map received (codes "{}" ∷ oversize ∷ codes "[1]" ∷ []), codes "rest")
read_all-frames_example =
    read_all-frames (codes "{}" ∷ oversize ∷ codes "[1]" ∷ []) (codes "rest")
      (omega arith, (oversize_counted, (omega arith, tt)))

abbrev one_frame : Bytes
one_frame = codes "Content-Length: 2" ++ (crlf ++ (crlf ++ codes "{}[1]"))

one_frame-read : read one_frame ≡ (body (codes "{}"), codes "[1]")
unfolding read read_lines header_line header_field read_body trim_right trim_left trim_space lower
    is_space atoi magnitude scan_digits
one_frame-read = refl

read_bounds_example :
    (head : Bytes) × (one_frame ≡ head ++ (codes "{}" ++ codes "[1]"))
    × (length head ≤ max_header_bytes)
    × (length (codes "{}") ≤ max_body_bytes)
read_bounds_example = read_bounds one_frame (codes "{}") (codes "[1]") one_frame-read

-- A line without an end: the limit of the header is never applied to it.
read_unended_test : read (codes "{}") ≡ (failed malformed_header, [])
unfolding read read_lines
read_unended_test = refl
