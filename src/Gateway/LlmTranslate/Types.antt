-- ===== src/Gateway/LlmTranslate/Types.antt =====
-- gateway/llm_proxy/translate.go: the messages of the two protocols, in what the translation reads and writes.
use opendray_v2_lab.Common.Order.{ℤ}
use opendray_v2_lab.Common.{Bool, List, Option, Bytes}
use opendray_v2_lab.Gateway.LlmStream.{OpenAiUsage}

pub record ContentBlock : Type 0 where
  pub block_type : Bytes
  pub block_text : Bytes
  pub id : Bytes
  pub name : Bytes
  pub input : Bytes
  pub tool_use_id : Bytes
  pub tool_content : Bytes
  pub tool_is_error : Bool

pub record AnthropicMsg : Type 0 where
  pub role : Bytes
  pub content : Bytes

pub record Tool : Type 0 where
  pub name : Bytes
  pub description : Bytes
  pub schema : Bytes

pub record AnthropicRequest (F : Type 0) : Type 0 where
  pub max_tokens : ℤ
  pub temperature : Option F
  pub top_p : Option F
  pub stream : Bool
  pub system : Bytes
  pub messages : List AnthropicMsg
  pub tools : List Tool
  pub tool_choice : Bytes
  pub stop_seqs : List Bytes

pub record OpenAiToolCall : Type 0 where
  pub id : Bytes
  pub name : Bytes
  pub arguments : Bytes

pub record OpenAiMessage : Type 0 where
  pub role : Bytes
  pub content : Bytes
  pub tool_calls : List OpenAiToolCall
  pub tool_call_id : Bytes

pub record OpenAiRequest (F : Type 0) : Type 0 where
  pub model : Bytes
  pub messages : List OpenAiMessage
  pub max_tokens : ℤ
  pub temperature : Option F
  pub top_p : Option F
  pub stream : Bool
  pub tools : List Tool
  pub tool_choice : Bytes
  pub stop : List Bytes

pub record OpenAiChoice : Type 0 where
  pub message : OpenAiMessage
  pub finish_reason : Bytes

pub record OpenAiResponse : Type 0 where
  pub choices : List OpenAiChoice
  pub usage : OpenAiUsage

pub record AnthropicResponse : Type 0 where
  pub id : Bytes
  pub model : Bytes
  pub content : List ContentBlock
  pub stop_reason : Bytes
  pub input_tokens : ℤ
  pub output_tokens : ℤ
