-- ===== src/Gateway/LlmStream/Protocol.antt =====
-- gateway/llm_proxy/stream.go: the order of events that Anthropic's protocol allows.
mod Blocks
mod Kept
mod Steps
mod Closing
pub mod Whole
use opendray_v2_lab.Common.Order.{ℤ, int_eq}
use opendray_v2_lab.Common.{
  ℕ, zero, suc, ◌+◌, ◌-◌, ◌≡◌, refl, Bool, true, false, ◌&&◌, List, [], ◌∷◌, ◌++◌, Option, none,
  some, Bytes, ◌==◌, nat_beq, if◌then◌else◌, inl, inr, arith, ◌∙◌, Option-cases,
}
use opendray_v2_lab.Gateway.LlmStream.{
  Event, message_start, text_start, tool_start, text_delta, json_delta, block_stop, message_delta,
  message_stop, nonempty,
}

pub data Kind : Type 0 where
  text tool : Kind

pub data Status : Type 0 where
  unused closed : Status
  opened : Kind → Status

-- What a client has seen of a message: while it runs, the status of each index, and how many blocks
-- are open.
pub data Seen : Type 0 where
  nothing ending whole : Seen
  running : (ℤ → Status) → ℕ → Seen

abbrev pub mark : ℤ → Status → (ℤ → Status) → ℤ → Status
mark i new status j = if i == j then new else status j

abbrev pub started : ℤ → Kind → (ℤ → Status) → ℕ → Status → Option Seen
started i kind status n unused = some (running (mark i (opened kind) status) (suc n))
started i kind status n closed = none
started i kind status n (opened k) = none

abbrev pub in_block : (ℤ → Status) → ℕ → Kind → Status → Option Seen
in_block status n text (opened text) = some (running status n)
in_block status n tool (opened tool) = some (running status n)
in_block status n kind other = none

abbrev pub stopped : ℤ → (ℤ → Status) → ℕ → Status → Option Seen
stopped i status n (opened k) = some (running (mark i closed status) (n - 1))
stopped i status n unused = none
stopped i status n closed = none

-- A message starts; blocks start under indexes not used before, take deltas of their own kind only
-- while they are open, and stop; the message ends with none open. A tool's block has an id and a name.
unfoldable pub accept : Event → Seen → Option Seen
accept (message_start id model) nothing = some (running (λ i. unused) 0)
accept (text_start i) (running status n) = started i text status n (status i)
accept (tool_start i id name) (running status n) =
    if nonempty id && nonempty name then started i tool status n (status i) else none
accept (text_delta i t) (running status n) = in_block status n text (status i)
accept (json_delta i t) (running status n) = in_block status n tool (status i)
accept (block_stop i) (running status n) = stopped i status n (status i)
accept (message_delta reason inputs outputs) (running status n) =
    if nat_beq n 0 then some ending else none
accept message_stop ending = some whole
accept e seen = none

abbrev pub and_then : Option Seen → (Seen → Option Seen) → Option Seen
and_then none f = none
and_then (some seen) f = f seen

unfoldable pub run : List Event → Seen → Option Seen
unfolding accept
run [] seen = some seen
run (e ∷ es) seen = and_then (accept e seen) (run es)

and_then-some : (o : Option Seen) → and_then o (λ seen. some seen) ≡ o
and_then-some none = refl
and_then-some (some seen) = refl

pub run-append :
    (es : List Event) (e : Event) (seen seen' : Seen)
    → run es seen ≡ some seen'
    → run (es ++ e ∷ []) seen ≡ accept e seen'
unfolding run
run-append [] e seen seen' h = and_then-some (accept e seen) ∙ ground (arith, h)
run-append (x ∷ es) e seen seen' h = elim (Option-cases (accept x seen)) [
  | inl none_left ↦ absurd (ground (arith, none_left, h))
  | inr (next, e') ↦ rw e' (run-append es e next seen' (ground (arith, e', h)))
]
