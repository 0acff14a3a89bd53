-- ===== src/Gateway/LlmStream/Tests.antt =====
-- Runs of the translation of gateway/llm_proxy/stream.go, and instances of what is proved about it.
use mathlib.Core.List.Permᴰ
use opendray_v2_lab.Common.Order.{ℤ, pos, int_eq}
use opendray_v2_lab.Common.Dict.{lookup, insert}
use opendray_v2_lab.Common.{
  ℕ, ◌≡◌, refl, List, [], ◌∷◌, ◌++◌, Option, none, some, Bytes, codes, bytes_eq, ◌==◌,
  if◌then◌else◌,
}
use opendray_v2_lab.Gateway.LlmStream.{
  Chunk, Event, message_start, text_start, tool_start, text_delta, json_delta, block_stop,
  message_delta, message_stop, map_finish_reason, on_content, open_tool, on_arguments, on_tool_call,
  on_tool_calls, on_choices, scan, close_tools, Range, stream, new_state,
}
use opendray_v2_lab.Gateway.LlmStream.Protocol.{nothing, whole, run}
use opendray_v2_lab.Gateway.LlmStream.Protocol.Whole.{stream-whole}
use opendray_v2_lab.Gateway.LlmStream.Text.{
  texts, chunks, said, last_reason, last_usage, stream-texts,
}

abbrev says : Bytes → Chunk
says t = record {
  choices = record { content = t; tool_calls = []; finish_reason = [] } ∷ [];
  usage = none;
}

abbrev calls : ℤ → Bytes → Bytes → Bytes → Chunk
calls i id name arguments = record {
  choices =
      record {
        content = [];
        tool_calls = record { index = i; id = id; name = name; arguments = arguments } ∷ [];
        finish_reason = [];
      }
      ∷ [];
  usage = none;
}

abbrev ends : Chunk
ends = record {
  choices = record { content = []; tool_calls = []; finish_reason = codes "tool_calls" } ∷ [];
  usage =
      some (record { prompt_tokens = pos 10; completion_tokens = pos 5; total_tokens = pos 15 });
}

-- The chunks of the runs, each under a letter.
abbrev unmarshal : Bytes → Option Chunk
unmarshal s =
    if s == codes "t"
    then some (says (codes "hi"))
    else if s == codes "a"
    then some (calls (pos 0) (codes "c") (codes "sh") (codes "x"))
    else if s == codes "b"
    then some (calls (pos 1) [] [] (codes "lost"))
    else if s == codes "n"
    then some (calls (pos 1) [] (codes "ls") (codes "y"))
    else if s == codes "e"
    then some ends
    else none

abbrev rand_id : ℕ → Bytes
rand_id n = n ∷ []

abbrev model : Bytes
model = codes "m"

abbrev lines : List Bytes
lines =
    codes "data: t"
    ∷ codes ": ping"
    ∷ codes "data: a"
    ∷ codes "data: b"
    ∷ codes "data: ?"
    ∷ codes "data: n"
    ∷ codes "data: e"
    ∷ codes "data: [DONE]"
    ∷ codes "data: t"
    ∷ []

abbrev in_order : Range
in_order m = m

-- The block of the second call starts while that of the first is open, and the arguments that came
-- before the name of the second call are nowhere.
stream_test :
    stream in_order unmarshal rand_id model lines
    ≡ message_start (codes "msg_" ++ 0 ∷ []) model
      ∷ text_start (pos 0)
      ∷ text_delta (pos 0) (codes "hi")
      ∷ block_stop (pos 0)
      ∷ tool_start (pos 1) (codes "c") (codes "sh")
      ∷ json_delta (pos 1) (codes "x")
      ∷ tool_start (pos 2) (codes "toolu_" ++ 1 ∷ []) (codes "ls")
      ∷ json_delta (pos 2) (codes "y")
      ∷ block_stop (pos 1)
      ∷ block_stop (pos 2)
      ∷ message_delta (codes "tool_use") (pos 10) (pos 5)
      ∷ message_stop
      ∷ []
unfolding stream scan on_choices on_tool_calls on_tool_call on_content open_tool on_arguments
    close_tools map_finish_reason lookup insert
stream_test = refl

-- No lines at all: an empty message.
stream_empty_test :
    stream in_order unmarshal rand_id model []
    ≡ message_start (codes "msg_" ++ 0 ∷ []) model
      ∷ message_delta (codes "end_turn") (pos 0) (pos 0)
      ∷ message_stop
      ∷ []
unfolding stream scan close_tools map_finish_reason
stream_empty_test = refl

stream-whole_example : run (stream in_order unmarshal rand_id model lines) nothing ≡ some whole
stream-whole_example = stream-whole in_order (λ m. Permᴰ.refl m) unmarshal rand_id model lines

stream-texts_example :
    (es : List Event) × (let cs = chunks unmarshal lines in
      let usage = last_usage cs new_state.usage in
      (stream in_order unmarshal rand_id model lines
        ≡ (es
            ++ message_delta
                (map_finish_reason (last_reason cs []))
                usage.prompt_tokens
                usage.completion_tokens
              ∷ [])
          ++ message_stop ∷ [])
      × (texts es ≡ said cs))
stream-texts_example = stream-texts in_order unmarshal rand_id model lines
