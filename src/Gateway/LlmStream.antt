-- ===== src/Gateway/LlmStream.antt =====
-- gateway/llm_proxy/stream.go, with mapFinishReason of translate.go: an OpenAI stream of deltas becomes
-- Anthropic's stream of events. The events that writeEvent has written stand in the state, in order; an
-- error of the connection is ignored there. Parameters are json.Unmarshal for a chunk, and the ids that
-- randID draws, numbered by the calls; the lines that bufio.Scanner finds are the input.
pub mod Protocol
pub mod Text
mod Tests
use opendray_v2_lab.Common.Order.{ℤ, pos, negsuc, int_eq}
use opendray_v2_lab.Common.Dict.{lookup, insert}
use opendray_v2_lab.Common.{
  ℕ, suc, ◌+◌, Bool, true, false, not, ◌&&◌, ◌||◌, List, [], ◌∷◌, ◌++◌, Option, none, some, Bytes,
  bytes_eq, codes, ◌==◌, length, drop, has_prefix, if◌then◌else◌,
}

pub record OpenAiUsage : Type 0 where
  pub prompt_tokens : ℤ
  pub completion_tokens : ℤ
  pub total_tokens : ℤ

pub record ToolCall : Type 0 where
  pub index : ℤ
  pub id : Bytes
  pub name : Bytes
  pub arguments : Bytes

pub record Choice : Type 0 where
  pub content : Bytes
  pub tool_calls : List ToolCall
  pub finish_reason : Bytes

pub record Chunk : Type 0 where
  pub choices : List Choice
  pub usage : Option OpenAiUsage

pub record ToolState : Type 0 where
  pub index : ℕ
  pub id : Bytes
  pub name : Bytes
  pub args : Bytes
  pub opened : Bool

-- The events that go to the client; a start or a delta of a block is one constructor for each of the
-- two types of block.
pub data Event : Type 0 where
  message_start : Bytes → Bytes → Event
  text_start : ℤ → Event
  tool_start : ℤ → Bytes → Bytes → Event
  text_delta : ℤ → Bytes → Event
  json_delta : ℤ → Bytes → Event
  block_stop : ℤ → Event
  message_delta : Bytes → ℤ → ℤ → Event
  message_stop : Event

-- `drawn` counts the ids that randID has given.
pub record State : Type 0 where
  pub text_index : ℤ
  pub text_open : Bool
  pub tool_states : List (ℤ × ToolState)
  pub next_index : ℕ
  pub finish_reason : Bytes
  pub usage : OpenAiUsage
  pub drawn : ℕ
  pub sent : List Event

abbrev pub nonempty : Bytes → Bool
nonempty [] = false
nonempty (c ∷ s) = true

abbrev pub write_event : Event → State → State
write_event e s = record s { sent = s.sent ++ e ∷ [] }

unfoldable pub map_finish_reason : Bytes → Bytes
map_finish_reason openai_finish =
    if (openai_finish == codes "tool_calls") || (openai_finish == codes "function_call")
    then codes "tool_use"
    else if openai_finish == codes "length"
    then codes "max_tokens"
    else codes "end_turn"

abbrev open_text : State → State
open_text s =
    if s.text_open
    then s
    else write_event (text_start (pos s.next_index)) (record s {
      text_index = pos s.next_index;
      next_index = s.next_index + 1;
      text_open = true;
    })

unfoldable pub on_content : Bytes → State → State
on_content [] s = s
on_content (c ∷ text) s =
    let s' = open_text s in write_event (text_delta s'.text_index (c ∷ text)) s'

abbrev pub close_text : State → State
close_text s =
    if s.text_open
    then record (write_event (block_stop s.text_index) s) { text_open = false }
    else s

-- The entry of a call, made when the call is new.
abbrev pub found_or_new : ToolCall → State → Option ToolState → ToolState × State
found_or_new tc s (some st) = (st, s)
found_or_new tc s none =
    let s' = close_text s in
    (
      record { index = s'.next_index; id = tc.id; name = tc.name; args = []; opened = false },
      record s' { next_index = s'.next_index + 1 },
    )

abbrev pub entry : ToolCall → State → ToolState × State
entry tc s = found_or_new tc s (lookup tc.index s.tool_states)

abbrev pub or_else : Bytes → Bytes → Bytes
or_else old new = if nonempty old then old else new

-- The header of a block, as soon as the call has a name.
unfoldable pub open_tool : (ℕ → Bytes) → ToolState → State → ToolState × State
open_tool rand_id st s =
    if not st.opened && nonempty st.name
    then (let id = or_else st.id (codes "toolu_" ++ rand_id s.drawn) in
        (
          record st { id = id; opened = true },
          write_event (tool_start (pos st.index) id st.name)
              (record s { drawn = if nonempty st.id then s.drawn else s.drawn + 1 }),
        ))
    else (st, s)

unfoldable pub on_arguments : Bytes → ToolState → State → ToolState × State
on_arguments arguments st s =
    if nonempty arguments && st.opened
    then (
      record st { args = st.args ++ arguments },
      write_event (json_delta (pos st.index) arguments) s,
    )
    else (st, s)

unfoldable pub on_tool_call : (ℕ → Bytes) → ToolCall → State → State
unfolding open_tool on_arguments
on_tool_call rand_id tc s =
    let (st, s1) = entry tc s in
    let named = record st { id = or_else st.id tc.id; name = or_else st.name tc.name } in
    let (st', s2) = open_tool rand_id named s1 in
    let (st'', s3) = on_arguments tc.arguments st' s2 in
    record s3 { tool_states = insert tc.index st'' s3.tool_states }

unfoldable pub on_tool_calls : (ℕ → Bytes) → List ToolCall → State → State
unfolding on_tool_call
on_tool_calls rand_id [] s = s
on_tool_calls rand_id (tc ∷ tcs) s = on_tool_calls rand_id tcs (on_tool_call rand_id tc s)

abbrev pub take_usage : Option OpenAiUsage → State → State
take_usage none s = s
take_usage (some u) s = record s { usage = u }

unfoldable pub on_choices : (ℕ → Bytes) → List Choice → State → State
unfolding on_content on_tool_calls
on_choices rand_id [] s = s
on_choices rand_id (ch ∷ others) s =
    let s' = record s {
      finish_reason = if nonempty ch.finish_reason then ch.finish_reason else s.finish_reason;
    } in
    on_tool_calls rand_id ch.tool_calls (on_content ch.content s')

abbrev pub on_chunk : (ℕ → Bytes) → Option Chunk → State → State
on_chunk rand_id none s = s
on_chunk rand_id (some chunk) s = on_choices rand_id chunk.choices (take_usage chunk.usage s)

abbrev pub data_prefix : Bytes
data_prefix = codes "data: "

-- The loop over the lines.
unfoldable pub scan : (Bytes → Option Chunk) → (ℕ → Bytes) → List Bytes → State → State
unfolding on_choices
scan unmarshal rand_id [] s = s
scan unmarshal rand_id (line ∷ lines) s =
    let content = drop (length data_prefix) line in
    elim (has_prefix line data_prefix) [
      | false ↦ scan unmarshal rand_id lines s
      | true ↦ elim (content == codes "[DONE]") [
        | true ↦ s
        | false ↦ scan unmarshal rand_id lines (on_chunk rand_id (unmarshal content) s)
      ]
    ]

unfoldable pub close_tools : List (ℤ × ToolState) → State → State
close_tools [] s = s
close_tools ((k, st) ∷ rest) s =
    close_tools rest (if st.opened then write_event (block_stop (pos st.index)) s else s)

abbrev no_usage : OpenAiUsage
no_usage = record { prompt_tokens = pos 0; completion_tokens = pos 0; total_tokens = pos 0 }

abbrev pub new_state : State
new_state = record {
  text_index = negsuc 0;
  text_open = false;
  tool_states = [];
  next_index = 0;
  finish_reason = [];
  usage = no_usage;
  drawn = 1;
  sent = [];
}

abbrev pub close_message : State → State
close_message s = write_event message_stop (
    write_event
      (message_delta (map_finish_reason s.finish_reason) s.usage.prompt_tokens
        s.usage.completion_tokens)
      s)

-- `for _, st := range toolStates`, in an order that the runtime picks.
abbrev pub Range : Type 0
Range = List (ℤ × ToolState) → List (ℤ × ToolState)

abbrev pub close_blocks : Range → State → State
close_blocks range s =
    close_tools (range s.tool_states)
      (if s.text_open then write_event (block_stop s.text_index) s else s)

-- What the client gets from a connection that can flush; any other gets status 500.
unfoldable pub stream :
    Range → (Bytes → Option Chunk) → (ℕ → Bytes) → Bytes → List Bytes → List Event
unfolding scan close_tools map_finish_reason
stream range unmarshal rand_id model lines =
    let s = write_event (message_start (codes "msg_" ++ rand_id 0) model) new_state in
    (close_message (close_blocks range (scan unmarshal rand_id lines s))).sent
