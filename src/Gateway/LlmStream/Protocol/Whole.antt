-- ===== src/Gateway/LlmStream/Protocol/Whole.antt =====
-- gateway/llm_proxy/stream.go: the stream of a whole message keeps to the protocol.
use opendray_v2_lab.Common.Order.{ℤ, pos, int_eq}
use mathlib.Core.List.{Permᴰ}
use opendray_v2_lab.Common.Dict.{lookup, insert}
use opendray_v2_lab.Common.{
  ℕ, ◌≡◌, refl, ap, subst, ◌∙◌, inl, inr, true, false, not, ◌&&◌, List, [], ◌∷◌, ◌++◌, Option, none,
  some, Bytes, codes, ◌==◌, bytes_eq, has_prefix, length, drop, Bool-cases, pick, arith,
}
use opendray_v2_lab.Gateway.LlmStream.{
  State, ToolState, ToolCall, Choice, Chunk, message_start, nonempty, or_else, close_text,
  open_text, on_content, entry, found_or_new, open_tool, on_arguments, on_tool_call, on_tool_calls,
  take_usage, on_choices, on_chunk, data_prefix, scan, Range, close_blocks, new_state, write_event,
  stream,
}
use opendray_v2_lab.Gateway.LlmStream.Protocol.{nothing, whole, unused, accept, run}
use opendray_v2_lab.Gateway.LlmStream.Protocol.Blocks.{open_count, lookup-insert_same}
use opendray_v2_lab.Gateway.LlmStream.Protocol.Kept.{Runs, Running, Runs-insert, Runs-insert_again}
use opendray_v2_lab.Gateway.LlmStream.Protocol.Closing.{close_blocks-run, close_message-whole}
use opendray_v2_lab.Gateway.LlmStream.Protocol.Steps.{
  Runs-text_delta, Runs-json_delta, Runs-new, Runs-text_start, Runs-text_stop, Runs-tool_start,
}

-- The state with the entry of a call put back.
abbrev RunsWith : ℤ → ToolState × State → Type 0
RunsWith k (st, s) = Runs (insert k st s.tool_states) s.next_index s.text_open s.text_index s.sent

open_text-Running :
    (s : State) → Running s → Running (open_text s) × ((open_text s).text_open ≡ true)
open_text-Running s r =
    pick (λ (s' : State). Running s' × (s'.text_open ≡ true)) s.text_open s _ (λ e. (r, e))
      (λ e. (
        Runs-text_start s.tool_states s.next_index s.text_index s.sent
            (subst (λ b. Runs s.tool_states s.next_index b s.text_index s.sent) e r),
        refl,
      ))

on_content-Running : (t : Bytes) (s : State) → Running s → Running (on_content t s)
unfolding on_content
on_content-Running [] s r = r
on_content-Running (c ∷ t) s r =
    let (r', is_open) = open_text-Running s r in
    let s' = open_text s in
    Runs-text_delta s'.tool_states s'.next_index s'.text_open s'.text_index s'.sent (c ∷ t) is_open
      r'

close_text-Running :
    (s : State) → Running s → Running (close_text s) × ((close_text s).tool_states ≡ s.tool_states)
close_text-Running s r =
    pick (λ (s' : State). Running s' × (s'.tool_states ≡ s.tool_states)) s.text_open _ s
      (λ e. (
        Runs-text_stop s.tool_states s.next_index s.text_index s.sent
            (subst (λ b. Runs s.tool_states s.next_index b s.text_index s.sent) e r),
        refl,
      ))
      (λ e. (r, refl))

entry-Runs : (tc : ToolCall) (s : State) → Running s → RunsWith tc.index (entry tc s)
entry-Runs tc s r = go (lookup tc.index s.tool_states) refl
  where
    go :
        (o : Option ToolState)
        → lookup tc.index s.tool_states ≡ o
        → RunsWith tc.index (found_or_new tc s o)
    go (some st) e =
        Runs-insert_again tc.index st s.tool_states s.next_index s.text_open s.text_index s.sent e r
    go none e =
        let s' = close_text s in
        let (r', same) = close_text-Running s r in
        Runs-new s'.tool_states s'.next_index s'.text_open s'.text_index s'.sent tc.index
          (record { index = s'.next_index; id = tc.id; name = tc.name; args = []; opened = false })
          (ap (lookup tc.index) same ∙ e) refl refl r'

or_else-nonempty : (old new : Bytes) → nonempty new ≡ true → nonempty (or_else old new) ≡ true
or_else-nonempty old new h = ground (arith, h)

open_tool-Runs :
    (rand_id : ℕ → Bytes) (k : ℤ) (st : ToolState) (s : State)
    → RunsWith k (st, s)
    → RunsWith k (open_tool rand_id st s)
unfolding open_tool
open_tool-Runs rand_id k st s r = elim (Bool-cases (not st.opened && nonempty st.name)) [
  | inr e ↦ rw e r
  | inl e ↦
      let id = or_else st.id (codes "toolu_" ++ rand_id s.drawn) in
      rw e (
        Runs-tool_start k st (record st { id = id; opened = true }) s.tool_states s.next_index
          s.text_open s.text_index s.sent id st.name r (ground (arith, e))
          (ground (arith, e, or_else-nonempty st.id (codes "toolu_" ++ rand_id s.drawn) refl)) refl
          refl)
]

on_arguments-Runs :
    (arguments : Bytes) (k : ℤ) (st : ToolState) (s : State)
    → RunsWith k (st, s)
    → RunsWith k (on_arguments arguments st s)
unfolding on_arguments
on_arguments-Runs arguments k st s r = elim (Bool-cases (nonempty arguments && st.opened)) [
  | inr e ↦ rw e r
  | inl e ↦ rw e (
      Runs-insert k st (record st { args = st.args ++ arguments }) s.tool_states s.next_index
        s.text_open s.text_index _
        (Runs-json_delta (insert k st s.tool_states) s.next_index s.text_open s.text_index s.sent k
          st arguments (lookup-insert_same k st s.tool_states) (ground (arith, e)) r)
        refl refl)
]

on_tool_call-Running :
    (rand_id : ℕ → Bytes) (tc : ToolCall) (s : State)
    → Running s
    → Running (on_tool_call rand_id tc s)
unfolding on_tool_call
on_tool_call-Running rand_id tc s r =
    let (st, s1) = entry tc s in
    let named = record st { id = or_else st.id tc.id; name = or_else st.name tc.name } in
    let (st', s2) = open_tool rand_id named s1 in
    on_arguments-Runs tc.arguments tc.index st' s2 (
      open_tool-Runs rand_id tc.index named s1 (
        Runs-insert tc.index st named s1.tool_states s1.next_index s1.text_open s1.text_index
          s1.sent (entry-Runs tc s r) refl refl))

on_tool_calls-Running :
    (rand_id : ℕ → Bytes) (tcs : List ToolCall) (s : State)
    → Running s
    → Running (on_tool_calls rand_id tcs s)
unfolding on_tool_calls
on_tool_calls-Running rand_id [] s r = r
on_tool_calls-Running rand_id (tc ∷ tcs) s r =
    on_tool_calls-Running rand_id tcs (on_tool_call rand_id tc s)
      (on_tool_call-Running rand_id tc s r)

on_choices-Running :
    (rand_id : ℕ → Bytes) (chs : List Choice) (s : State)
    → Running s
    → Running (on_choices rand_id chs s)
unfolding on_choices
on_choices-Running rand_id [] s r = r
on_choices-Running rand_id (ch ∷ chs) s r =
    on_tool_calls-Running rand_id ch.tool_calls _ (on_content-Running ch.content _ r)

on_chunk-Running :
    (rand_id : ℕ → Bytes) (o : Option Chunk) (s : State)
    → Running s
    → Running (on_chunk rand_id o s)
on_chunk-Running rand_id none s r = r
on_chunk-Running rand_id (some chunk) s r = go chunk.usage
  where
    go : (u : Option _) → Running (on_choices rand_id chunk.choices (take_usage u s))
    go none = on_choices-Running rand_id chunk.choices s r
    go (some u) = on_choices-Running rand_id chunk.choices (take_usage (some u) s) r

scan-Running :
    (unmarshal : Bytes → Option Chunk) (rand_id : ℕ → Bytes) (lines : List Bytes) (s : State)
    → Running s
    → Running (scan unmarshal rand_id lines s)
unfolding scan
scan-Running unmarshal rand_id [] s r = r
scan-Running unmarshal rand_id (line ∷ lines) s r =
    let content = drop (length data_prefix) line in
    let s' = on_chunk rand_id (unmarshal content) s in
    let skipped = scan-Running unmarshal rand_id lines s r in
    let taken =
      scan-Running unmarshal rand_id lines s' (on_chunk-Running rand_id (unmarshal content) s r) in
    elim (Bool-cases (has_prefix line data_prefix)) [
      | inr e ↦ rw e skipped
      | inl e ↦ elim (Bool-cases (content == codes "[DONE]")) [
        | inl done ↦ rw (e, done) r
        | inr more ↦ rw (e, more) taken
      ]
    ]

new_message-Running : (id model : Bytes) → Running (write_event (message_start id model) new_state)
unfolding run accept
new_message-Running id model = record {
  status = λ i. unused;
  owner = λ i. pos 0;
  seen = unfold open_count in refl;
  written = λ e. cc;
  calls = λ k st h. absurd (unfold lookup in (cc));
  free = λ i above. refl;
  keys = tt;
}

-- Whatever lines come from the model, and in whichever order the runtime ranges over the tool calls, the events that the client gets are one whole message of the
-- protocol: it starts once, each block starts under an index that none had before, takes deltas of its
-- own kind only while it is open, and stops exactly once; the closing events come when no block is open.
pub stream-whole :
    (range : Range) (ranges : (m : List (ℤ × ToolState)) → Permᴰ m (range m))
    (unmarshal : Bytes → Option Chunk) (rand_id : ℕ → Bytes) (model : Bytes) (lines : List Bytes)
    → run (stream range unmarshal rand_id model lines) nothing ≡ some whole
unfolding stream
stream-whole range ranges unmarshal rand_id model lines =
    let s0 = write_event (message_start (codes "msg_" ++ rand_id 0) model) new_state in
    let s = scan unmarshal rand_id lines s0 in
    let (status, closed_all) = close_blocks-run range ranges s (
      scan-Running unmarshal rand_id lines s0
        (new_message-Running (codes "msg_" ++ rand_id 0) model)) in
    close_message-whole (close_blocks range s) status closed_all
