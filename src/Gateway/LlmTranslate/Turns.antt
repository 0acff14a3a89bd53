-- ===== src/Gateway/LlmTranslate/Turns.antt =====
-- gateway/llm_proxy/translate.go: what comes of the blocks of a message.
use opendray_v2_lab.Common.{
  ℕ, ◌≡◌, refl, sym, ap, ◌∙◌, Bool, true, false, List, [], ◌∷◌, ◌++◌, append_assoc, append-nil, map,
  Option, Bytes, bytes_eq, codes, ◌==◌, keep, All, if◌then◌else◌, Bool-cases, pick, inl, inr, arith,
}
use opendray_v2_lab.Go.Trim.{trim_space}
use opendray_v2_lab.Gateway.LlmStream.{nonempty}
use opendray_v2_lab.Gateway.LlmTranslate.{
  ContentBlock, OpenAiMessage, OpenAiToolCall, add_line, or_object, plain_message, assistant_blocks,
  tool_message, user_block, user_blocks, said_first, turn, image_note, text_block, tool_use_block,
  call_blocks, message_blocks,
}

abbrev pub block_of : OpenAiToolCall → ContentBlock
block_of c = tool_use_block c.id c.name c.arguments

-- A call with an id and arguments.
abbrev pub IsFull : OpenAiToolCall → Type 0
IsFull c = (nonempty c.id ≡ true) × (nonempty c.arguments ≡ true)

assistant_blocks-calls :
    (cs : List OpenAiToolCall) (msg : OpenAiMessage)
    → All IsFull cs
    → assistant_blocks (map block_of cs) msg ≡ record msg { tool_calls = msg.tool_calls ++ cs }
unfolding assistant_blocks
assistant_blocks-calls [] msg full =
    ap (λ tcs. record msg { tool_calls = tcs }) (sym (append-nil msg.tool_calls))
assistant_blocks-calls (c ∷ cs) msg full =
    let same : or_object c.arguments ≡ c.arguments = ground (arith, full.0.1) in
    ap
      (λ x. assistant_blocks (map block_of cs) (record msg {
        tool_calls = msg.tool_calls ++ record { id = c.id; name = c.name; arguments = x } ∷ [];
      }))
      same
    ∙ (assistant_blocks-calls cs (record msg { tool_calls = msg.tool_calls ++ c ∷ [] }) full.1
        ∙ ap (λ tcs. record msg { tool_calls = tcs }) (append_assoc msg.tool_calls (c ∷ []) cs))

call_blocks-calls :
    (rand_id : ℕ → Bytes) (drawn : ℕ) (cs : List OpenAiToolCall)
    → All IsFull cs
    → call_blocks rand_id drawn cs ≡ map block_of cs
unfolding call_blocks
call_blocks-calls rand_id drawn [] full = refl
call_blocks-calls rand_id drawn (c ∷ cs) full =
    ground (arith, full.0.0, full.0.1, call_blocks-calls rand_id drawn cs full.1)

-- A text and calls of tools, in a message of the assistant, go to OpenAI's form and come back from a
-- response in that form as they were: the text in front, unless it is blank, and each call with its id,
-- its name and its input, in order. Each call has an id and an input.
pub message_blocks-assistant_blocks :
    (rand_id : ℕ → Bytes) (t : Bytes) (cs : List OpenAiToolCall)
    → All IsFull cs
    → message_blocks rand_id
        (assistant_blocks (text_block t ∷ map block_of cs) (plain_message (codes "assistant") []))
      ≡ (if nonempty (trim_space t) then text_block t ∷ map block_of cs else map block_of cs)
unfolding assistant_blocks
message_blocks-assistant_blocks rand_id t cs full =
    ap (message_blocks rand_id)
      (assistant_blocks-calls cs (plain_message (codes "assistant") t) full)
    ∙ ap (λ bs. if nonempty (trim_space t) then text_block t ∷ bs else bs)
        (call_blocks-calls rand_id 1 cs full)

abbrev pub is_result : ContentBlock → Bool
is_result b = b.block_type == codes "tool_result"

module _ (decode_text : Bytes → Option Bytes)
    (decode_blocks : Bytes → Option (List ContentBlock)) where
  user_block-results :
      (b : ContentBlock) (text : Bytes) (results : List OpenAiMessage)
      → (text' : Bytes) × (user_block decode_text decode_blocks b (text, results) ≡ (
        text',
        if is_result b then results ++ tool_message decode_text decode_blocks b ∷ [] else results,
      ))
  user_block-results b text results = elim (Bool-cases (b.block_type == codes "text")) [
    | inl e ↦
        let other : is_result b ≡ false =
          ap (λ kind. kind == codes "tool_result")
            ((bytes_eq.equals_iff b.block_type (codes "text")).0 e) in
        (add_line text b.block_text, ground (arith, e, other))
    | inr e ↦ elim (Bool-cases (is_result b)) [
      | inl is ↦ (text, ground (arith, e, is))
      | inr is ↦ elim (Bool-cases (b.block_type == codes "image")) [
        | inl image ↦ (add_line text image_note, ground (arith, e, is, image))
        | inr image ↦ (text, ground (arith, e, is, image))
      ]
    ]
  ]

  user_blocks-results :
      (bs : List ContentBlock) (text : Bytes) (results : List OpenAiMessage)
      → (user_blocks decode_text decode_blocks bs (text, results)).1
        ≡ results ++ map (tool_message decode_text decode_blocks) (keep is_result bs)
  unfolding user_blocks
  user_blocks-results [] text results = sym (append-nil results)
  user_blocks-results (b ∷ bs) text results =
      let (text', e) = user_block-results b text results in
      ap (λ r. (user_blocks decode_text decode_blocks bs r).1) e
      ∙ (user_blocks-results bs text' (
            if is_result b
            then results ++ tool_message decode_text decode_blocks b ∷ []
            else results)
          ∙ pick
              (λ rs.
                rs ++ map (tool_message decode_text decode_blocks) (keep is_result bs)
                ≡ results ++ map (tool_message decode_text decode_blocks) (keep is_result (b ∷ bs)))
              (is_result b) _ _
              (λ is. rw is (
                append_assoc results (tool_message decode_text decode_blocks b ∷ [])
                  (map (tool_message decode_text decode_blocks) (keep is_result bs))))
              (λ is. rw is refl))

  -- A message of the user becomes its text, when there is any, as one message of the user, and behind it
  -- one message of a tool for each of its tool results, in their order.
  pub turn-results :
      (blocks : List ContentBlock) (as_text : Bytes)
      → (text : Bytes) × (turn decode_text decode_blocks (codes "user") (blocks, as_text)
          ≡ (if nonempty text then plain_message (codes "user") text ∷ [] else [])
            ++ map (tool_message decode_text decode_blocks) (keep is_result blocks))
  turn-results blocks as_text =
      let (text, results) = user_blocks decode_text decode_blocks blocks (as_text, []) in
      (
        text,
        split text results
            ∙ ap
                (λ rs. (if nonempty text then plain_message (codes "user") text ∷ [] else []) ++ rs)
                (user_blocks-results blocks as_text []),
      )
    where
      split :
          (text : Bytes) (results : List OpenAiMessage)
          → said_first decode_text decode_blocks (text, results)
            ≡ (if nonempty text then plain_message (codes "user") text ∷ [] else []) ++ results
      split [] results = refl
      split (c ∷ t) results = refl
