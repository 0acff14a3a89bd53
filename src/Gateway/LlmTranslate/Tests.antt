-- ===== src/Gateway/LlmTranslate/Tests.antt =====
-- Runs of gateway/llm_proxy/translate.go, and instances of what is proved about it.
use opendray_v2_lab.Common.Order.{pos}
use opendray_v2_lab.Common.{
  ℕ, ◌≡◌, refl, true, List, [], ◌∷◌, ◌++◌, map, Option, none, some, Bytes, bytes_eq, codes, ◌==◌,
  if◌then◌else◌,
}
use opendray_v2_lab.Go.Strings.{is_space}
use opendray_v2_lab.Go.Trim.{trim_left, trim_right, trim_space}
use opendray_v2_lab.Gateway.LlmStream.{map_finish_reason, nonempty}
use opendray_v2_lab.Gateway.LlmTranslate.{
  ContentBlock, OpenAiToolCall, plain_message, text_lines, assistant_blocks, parse_content,
  flatten_text, tool_result_content, user_blocks, turns, anthropic_to_openai, text_block,
  tool_use_block, call_blocks, message_blocks, openai_to_anthropic,
}
use opendray_v2_lab.Gateway.LlmTranslate.Turns.{block_of, message_blocks-assistant_blocks}

abbrev decode_text : Bytes → Option Bytes
decode_text s = some (codes "hello")

abbrev result_block : ContentBlock
result_block = record (tool_use_block [] [] []) {
  block_type = codes "tool_result";
  tool_use_id = codes "c1";
  tool_content = codes "\"\"";
  tool_is_error = true;
}

abbrev call : OpenAiToolCall
call = record { id = codes "c1"; name = codes "ls"; arguments = codes "{}" }

abbrev decode_blocks : Bytes → Option (List ContentBlock)
decode_blocks s =
    if s == codes "[a]"
    then some (text_block (codes "I look") ∷ block_of call ∷ [])
    else if s == codes "[u]"
    then some (result_block ∷ text_block (codes "and now?") ∷ [])
    else none

abbrev messages : List (Bytes × Bytes)
messages =
    (codes "user", codes "\"") ∷ (codes "assistant", codes "[a]") ∷ (codes "user", codes "[u]") ∷ []

turns_test :
    turns decode_text decode_blocks
      (map (λ (m : Bytes × Bytes). record { role = m.0; content = m.1 }) messages)
    ≡ some (
        plain_message (codes "user") (codes "hello")
        ∷ record {
          role = codes "assistant";
          content = codes "I look";
          tool_calls = call ∷ [];
          tool_call_id = [];
        }
        ∷ plain_message (codes "user") (codes "and now?")
        ∷ record {
          role = codes "tool";
          content = codes "ERROR: hello";
          tool_calls = [];
          tool_call_id = codes "c1";
        }
        ∷ [])
unfolding turns parse_content user_blocks assistant_blocks tool_result_content
turns_test = refl

turns_error_test :
    turns decode_text decode_blocks (record { role = codes "user"; content = codes "[" } ∷ [])
    ≡ none
unfolding turns parse_content
turns_error_test = refl

flatten_text_test : flatten_text decode_text decode_blocks (codes "[u]") ≡ codes "and now?"
unfolding flatten_text text_lines
flatten_text_test = refl

request_test :
    anthropic_to_openai decode_text decode_blocks {F = ℕ}
      (record {
        max_tokens = pos 5;
        temperature = none;
        top_p = some 1;
        stream = true;
        system = codes "\"s";
        messages = [];
        tools = [];
        tool_choice = [];
        stop_seqs = [];
      })
      (codes "m")
    ≡ some (record {
      model = codes "m";
      messages = plain_message (codes "system") (codes "hello") ∷ [];
      max_tokens = pos 5;
      temperature = none;
      top_p = some 1;
      stream = true;
      tools = [];
      tool_choice = [];
      stop = [];
    })
unfolding anthropic_to_openai flatten_text turns
request_test = refl

abbrev rand_id : ℕ → Bytes
rand_id n = n ∷ []

response_test :
    (openai_to_anthropic rand_id
      (record {
        choices =
            record {
              message = record {
                role = codes "assistant";
                content = codes " ";
                tool_call_id = [];
                tool_calls = call ∷ record { id = []; name = codes "ls"; arguments = [] } ∷ [];
              };
              finish_reason = codes "length";
            }
            ∷ [];
        usage = record { prompt_tokens = pos 1; completion_tokens = pos 2; total_tokens = pos 3 };
      })
      (codes "m")).content
    ≡ block_of call ∷ tool_use_block (codes "toolu_" ++ 1 ∷ []) (codes "ls") (codes "{}") ∷ []
unfolding openai_to_anthropic call_blocks map_finish_reason trim_space trim_left trim_right is_space
response_test = refl

message_blocks-assistant_blocks_example :
    message_blocks rand_id (
      assistant_blocks
        (text_block (codes "ok") ∷ map block_of (call ∷ call ∷ []))
        (plain_message (codes "assistant") []))
    ≡ (if nonempty (trim_space (codes "ok"))
        then text_block (codes "ok") ∷ map block_of (call ∷ call ∷ [])
        else map block_of (call ∷ call ∷ []))
message_blocks-assistant_blocks_example =
    message_blocks-assistant_blocks rand_id (codes "ok") (call ∷ call ∷ [])
      ((refl, refl), ((refl, refl), tt))
