-- ===== src/Gateway/LlmTranslate.antt =====
-- gateway/llm_proxy/translate.go: requests of Anthropic's protocol become OpenAI's, and whole responses come
-- back. JSON is a parameter: how a text, or a list of content blocks, decodes. Numbers that only pass
-- through are of any type. Fields that the translation neither reads nor writes are left out.
pub mod Turns
mod Tests
mod Types
pub use Types.*
use opendray_v2_lab.Common.Order.{ℤ, pos}
use opendray_v2_lab.Common.{
  ℕ, ◌+◌, Bool, true, false, List, [], ◌∷◌, ◌++◌, map, Option, none, some, Bytes, bytes_eq, codes,
  ◌==◌, nat_beq, if◌then◌else◌,
}
use opendray_v2_lab.Go.Trim.{trim_space}
use opendray_v2_lab.Gateway.LlmStream.{OpenAiUsage, map_finish_reason, nonempty}

-- Text behind text that is there already goes on a new line.
abbrev pub add_line : Bytes → Bytes → Bytes
add_line text more = if nonempty text then text ++ 10 ∷ more else more

abbrev pub image_note : Bytes
image_note =
    codes "[image omitted "
    ++ (226 ∷ 128 ∷ 148 ∷ codes " proxy does not forward images to local models]")

abbrev pub or_empty : Option Bytes → Bytes
or_empty none = []
or_empty (some s) = s

abbrev pub or_object : Bytes → Bytes
or_object s = if nonempty s then s else codes "{}"

abbrev pub plain_message : Bytes → Bytes → OpenAiMessage
plain_message role content = record {
  role = role;
  content = content;
  tool_calls = [];
  tool_call_id = [];
}

-- The text blocks, one on each line; `skip` says whether empty ones are left out.
unfoldable pub text_lines : Bool → List ContentBlock → Bytes → Bytes
text_lines skip [] text = text
text_lines skip (b ∷ bs) text = text_lines skip bs (
    if b.block_type == codes "text"
    then (if skip
        then (if nonempty b.block_text then add_line text b.block_text else text)
        else add_line text b.block_text)
    else text)

-- The blocks of an assistant's message.
unfoldable pub assistant_blocks : List ContentBlock → OpenAiMessage → OpenAiMessage
assistant_blocks [] msg = msg
assistant_blocks (b ∷ bs) msg = assistant_blocks bs (
    if b.block_type == codes "text"
    then record msg { content = add_line msg.content b.block_text }
    else if b.block_type == codes "tool_use"
    then record msg {
      tool_calls =
          msg.tool_calls ++ record { id = b.id; name = b.name; arguments = or_object b.input } ∷ [];
    }
    else msg)

module _ (decode_text : Bytes → Option Bytes)
    (decode_blocks : Bytes → Option (List ContentBlock)) where
  -- The blocks and the text; none is an error.
  unfoldable pub parse_content : Bytes → Option (List ContentBlock × Bytes)
  parse_content [] = some ([], [])
  parse_content (c ∷ raw) =
      if nat_beq c b'"'
      then (elim (decode_text (c ∷ raw)) [ none ↦ none | some s ↦ some ([], s) ])
      else elim (decode_blocks (c ∷ raw)) [ none ↦ none | some bs ↦ some (bs, []) ]

  abbrev lines_or_empty : Option (List ContentBlock) → Bytes
  lines_or_empty none = []
  lines_or_empty (some bs) = text_lines true bs []

  unfoldable pub flatten_text : Bytes → Bytes
  unfolding text_lines
  flatten_text [] = []
  flatten_text (c ∷ raw) =
      if nat_beq c b'"'
      then or_empty (decode_text (c ∷ raw))
      else lines_or_empty (decode_blocks (c ∷ raw))

  abbrev pub marked : Bool → Bytes → Bytes
  marked is_error s = if is_error then codes "ERROR: " ++ s else s

  abbrev lines_or_raw : Bool → Bytes → Option (List ContentBlock) → Bytes
  lines_or_raw is_error raw none = raw
  lines_or_raw is_error raw (some bs) = marked is_error (text_lines false bs [])

  unfoldable pub tool_result_content : Bool → Bytes → Bytes
  unfolding text_lines
  tool_result_content is_error [] = []
  tool_result_content is_error (c ∷ raw) =
      if nat_beq c b'"'
      then marked is_error (or_empty (decode_text (c ∷ raw)))
      else lines_or_raw is_error (c ∷ raw) (decode_blocks (c ∷ raw))

  abbrev pub tool_message : ContentBlock → OpenAiMessage
  tool_message b = record {
    role = codes "tool";
    content = tool_result_content b.tool_is_error b.tool_content;
    tool_calls = [];
    tool_call_id = b.tool_use_id;
  }

  abbrev pub user_block : ContentBlock → Bytes × List OpenAiMessage → Bytes × List OpenAiMessage
  user_block b (text, results) =
      if b.block_type == codes "text"
      then (add_line text b.block_text, results)
      else if b.block_type == codes "tool_result"
      then (text, results ++ tool_message b ∷ [])
      else if b.block_type == codes "image"
      then (add_line text image_note, results)
      else (text, results)

  -- The blocks of a user's message: its text, and the messages of the tools.
  unfoldable pub user_blocks :
      List ContentBlock → Bytes × List OpenAiMessage → Bytes × List OpenAiMessage
  unfolding tool_result_content
  user_blocks [] so_far = so_far
  user_blocks (b ∷ bs) so_far = user_blocks bs (user_block b so_far)

  abbrev pub said_first : Bytes × List OpenAiMessage → List OpenAiMessage
  said_first (text, results) =
      if nonempty text then plain_message (codes "user") text ∷ results else results

  abbrev pub turn : Bytes → List ContentBlock × Bytes → List OpenAiMessage
  turn role (blocks, as_text) =
      if role == codes "user"
      then said_first (user_blocks blocks (as_text, []))
      else if role == codes "assistant"
      then assistant_blocks blocks (plain_message role as_text) ∷ []
      else []

  abbrev add_turn :
      Bytes
      → Option (List ContentBlock × Bytes)
      → Option (List OpenAiMessage)
      → Option (List OpenAiMessage)
  add_turn role none rest = none
  add_turn role (some parsed) none = none
  add_turn role (some parsed) (some rest) = some (turn role parsed ++ rest)

  -- The messages behind the system's; the first content that does not decode is an error.
  unfoldable pub turns : List AnthropicMsg → Option (List OpenAiMessage)
  unfolding parse_content user_blocks assistant_blocks
  turns [] = some []
  turns (m ∷ ms) = let rest = turns ms in add_turn m.role (parse_content m.content) rest

  abbrev with_system : Bytes → List OpenAiMessage → List OpenAiMessage
  with_system sys ms = if nonempty sys then plain_message (codes "system") sys ∷ ms else ms

  abbrev request :
      {F : Type 0}
      → AnthropicRequest F
      → Bytes
      → Option (List OpenAiMessage)
      → Option (OpenAiRequest F)
  request r model none = none
  request r model (some ms) = some (record {
    model = model;
    messages = with_system (flatten_text r.system) ms;
    max_tokens = r.max_tokens;
    temperature = r.temperature;
    top_p = r.top_p;
    stream = r.stream;
    tools = r.tools;
    tool_choice = r.tool_choice;
    stop = r.stop_seqs;
  })

  unfoldable pub anthropic_to_openai :
      {F : Type 0} → AnthropicRequest F → Bytes → Option (OpenAiRequest F)
  unfolding flatten_text turns
  anthropic_to_openai r model = request r model (turns r.messages)

abbrev pub text_block : Bytes → ContentBlock
text_block t = record {
  block_type = codes "text";
  block_text = t;
  id = [];
  name = [];
  input = [];
  tool_use_id = [];
  tool_content = [];
  tool_is_error = false;
}

abbrev pub tool_use_block : Bytes → Bytes → Bytes → ContentBlock
tool_use_block id name input = record {
  block_type = codes "tool_use";
  block_text = [];
  id = id;
  name = name;
  input = input;
  tool_use_id = [];
  tool_content = [];
  tool_is_error = false;
}

-- The blocks of the calls, with the ids that randID draws from the number `drawn` on.
unfoldable pub call_blocks : (ℕ → Bytes) → ℕ → List OpenAiToolCall → List ContentBlock
call_blocks rand_id drawn [] = []
call_blocks rand_id drawn (tc ∷ tcs) =
    tool_use_block (if nonempty tc.id then tc.id else codes "toolu_" ++ rand_id drawn) tc.name
      (or_object tc.arguments)
    ∷ call_blocks rand_id (if nonempty tc.id then drawn else drawn + 1) tcs

abbrev pub message_blocks : (ℕ → Bytes) → OpenAiMessage → List ContentBlock
message_blocks rand_id msg =
    if nonempty (trim_space msg.content)
    then text_block msg.content ∷ call_blocks rand_id 1 msg.tool_calls
    else call_blocks rand_id 1 msg.tool_calls

unfoldable pub openai_to_anthropic : (ℕ → Bytes) → OpenAiResponse → Bytes → AnthropicResponse
unfolding call_blocks map_finish_reason
openai_to_anthropic rand_id r model = record {
  id = codes "msg_" ++ rand_id 0;
  model = model;
  content = elim r.choices [ [] ↦ [] | ch ∷ others ↦ message_blocks rand_id ch.message ];
  stop_reason = elim r.choices [
    | [] ↦ codes "end_turn"
    | ch ∷ others ↦ map_finish_reason ch.finish_reason
  ];
  input_tokens = r.usage.prompt_tokens;
  output_tokens = r.usage.completion_tokens;
}
