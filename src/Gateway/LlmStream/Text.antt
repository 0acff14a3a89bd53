-- ===== src/Gateway/LlmStream/Text.antt =====
-- gateway/llm_proxy/stream.go: the text, the reason and the counts that reach the client.
use opendray_v2_lab.Common.Order.{ℤ, pos, int_eq}
use opendray_v2_lab.Common.Dict.{lookup}
use opendray_v2_lab.Common.{
  ℕ, ◌≡◌, refl, sym, ap, ◌∙◌, inl, inr, not, ◌&&◌, List, [], ◌∷◌, ◌++◌, Option, none, some,
  append_assoc, append-nil, Bytes, codes, ◌==◌, bytes_eq, has_prefix, length, drop, if◌then◌else◌,
  Bool-cases, pick,
}
use opendray_v2_lab.Gateway.LlmStream.{
  State, ToolState, ToolCall, Choice, Chunk, OpenAiUsage, Event, text_delta, message_start,
  message_stop, message_delta, text_start, json_delta, block_stop, nonempty, or_else, close_text,
  open_text, on_content, entry, found_or_new, open_tool, on_arguments, on_tool_call, on_tool_calls,
  take_usage, on_choices, on_chunk, data_prefix, scan, close_tools, Range, close_blocks, new_state,
  write_event, stream, map_finish_reason,
}

-- What an event adds to the text.
abbrev pub text_of : Event → Bytes
text_of (text_delta i t) = t
text_of other = []

abbrev pub texts : List Event → Bytes
texts [] = []
texts (e ∷ es) = text_of e ++ texts es

texts-append : (es : List Event) (e : Event) → texts (es ++ e ∷ []) ≡ texts es ++ text_of e
texts-append [] e = append-nil (text_of e)
texts-append (x ∷ es) e =
    ap (λ t. text_of x ++ t) (texts-append es e)
    ∙ sym (append_assoc (text_of x) (texts es) (text_of e))

-- The chunks of a stream: what decodes of the data lines that stand before the end mark.
abbrev pub decoded : Option Chunk → List Chunk → List Chunk
decoded none rest = rest
decoded (some chunk) rest = chunk ∷ rest

unfoldable pub chunks : (Bytes → Option Chunk) → List Bytes → List Chunk
chunks unmarshal [] = []
chunks unmarshal (line ∷ lines) =
    let rest = chunks unmarshal lines in
    let content = drop (length data_prefix) line in
    if has_prefix line data_prefix
    then (if content == codes "[DONE]" then [] else decoded (unmarshal content) rest)
    else rest

abbrev pub first_content : List Choice → Bytes
first_content [] = []
first_content (ch ∷ others) = ch.content

abbrev pub first_reason : List Choice → Bytes → Bytes
first_reason [] so_far = so_far
first_reason (ch ∷ others) so_far = if nonempty ch.finish_reason then ch.finish_reason else so_far

abbrev pub given_usage : Option OpenAiUsage → OpenAiUsage → OpenAiUsage
given_usage none so_far = so_far
given_usage (some u) so_far = u

-- All text of the first choices; the last reason that one gives; the last usage.
abbrev pub said : List Chunk → Bytes
said [] = []
said (chunk ∷ rest) = first_content chunk.choices ++ said rest

abbrev pub last_reason : List Chunk → Bytes → Bytes
last_reason [] so_far = so_far
last_reason (chunk ∷ rest) so_far = last_reason rest (first_reason chunk.choices so_far)

abbrev pub last_usage : List Chunk → OpenAiUsage → OpenAiUsage
last_usage [] so_far = so_far
last_usage (chunk ∷ rest) so_far = last_usage rest (given_usage chunk.usage so_far)

-- One state tells what another does, and `t` behind it.
abbrev Tells : Bytes → State → State → Type 0
Tells t s s' =
    (texts s'.sent ≡ texts s.sent ++ t)
    × (s'.finish_reason ≡ s.finish_reason)
    × (s'.usage ≡ s.usage)

Tells-same : (s : State) → Tells [] s s
Tells-same s = (sym (append-nil (texts s.sent)), refl, refl)

Tells-then : (s s' s'' : State) (t u : Bytes) → Tells t s s' → Tells u s' s'' → Tells (t ++ u) s s''
Tells-then s s' s'' t u (a, b, c) (a', b', c') =
    (a' ∙ (ap (λ x. x ++ u) a ∙ append_assoc (texts s.sent) t u), b' ∙ b, c' ∙ c)

open_text-Tells : (s : State) → Tells [] s (open_text s)
open_text-Tells s =
    pick (Tells [] s) s.text_open s _ (λ e. Tells-same s)
      (λ e. (texts-append s.sent (text_start (pos s.next_index)), refl, refl))

close_text-Tells : (s : State) → Tells [] s (close_text s)
close_text-Tells s =
    pick (Tells [] s) s.text_open _ s
      (λ e. (texts-append s.sent (block_stop s.text_index), refl, refl)) (λ e. Tells-same s)

on_content-Tells : (t : Bytes) (s : State) → Tells t s (on_content t s)
unfolding on_content
on_content-Tells [] s = Tells-same s
on_content-Tells (c ∷ t) s =
    let s' = open_text s in
    Tells-then s s' (write_event (text_delta s'.text_index (c ∷ t)) s') [] (c ∷ t)
      (open_text-Tells s) (texts-append s'.sent (text_delta s'.text_index (c ∷ t)), refl, refl)

entry-Tells : (tc : ToolCall) (s : State) → Tells [] s (entry tc s).1
entry-Tells tc s = go (lookup tc.index s.tool_states)
  where
    go : (o : Option ToolState) → Tells [] s (found_or_new tc s o).1
    go (some st) = Tells-same s
    go none = close_text-Tells s

open_tool-Tells :
    (rand_id : ℕ → Bytes) (st : ToolState) (s : State) → Tells [] s (open_tool rand_id st s).1
unfolding open_tool
open_tool-Tells rand_id st s =
    pick (λ (x : ToolState × State). Tells [] s x.1) (not st.opened && nonempty st.name) _ (st, s)
      (λ e. (texts-append s.sent _, refl, refl)) (λ e. Tells-same s)

on_arguments-Tells :
    (arguments : Bytes) (st : ToolState) (s : State) → Tells [] s (on_arguments arguments st s).1
unfolding on_arguments
on_arguments-Tells arguments st s =
    pick (λ (x : ToolState × State). Tells [] s x.1) (nonempty arguments && st.opened) _ (st, s)
      (λ e. (texts-append s.sent (json_delta (pos st.index) arguments), refl, refl))
      (λ e. Tells-same s)

on_tool_call-Tells :
    (rand_id : ℕ → Bytes) (tc : ToolCall) (s : State) → Tells [] s (on_tool_call rand_id tc s)
unfolding on_tool_call
on_tool_call-Tells rand_id tc s =
    let (st, s1) = entry tc s in
    let named = record st { id = or_else st.id tc.id; name = or_else st.name tc.name } in
    let (st', s2) = open_tool rand_id named s1 in
    let (st'', s3) = on_arguments tc.arguments st' s2 in
    Tells-then s s1 s3 [] [] (entry-Tells tc s) (
      Tells-then s1 s2 s3 [] [] (open_tool-Tells rand_id named s1)
        (on_arguments-Tells tc.arguments st' s2))

on_tool_calls-Tells :
    (rand_id : ℕ → Bytes) (tcs : List ToolCall) (s : State)
    → Tells [] s (on_tool_calls rand_id tcs s)
unfolding on_tool_calls
on_tool_calls-Tells rand_id [] s = Tells-same s
on_tool_calls-Tells rand_id (tc ∷ tcs) s =
    let s' = on_tool_call rand_id tc s in
    Tells-then s s' (on_tool_calls rand_id tcs s') [] [] (on_tool_call-Tells rand_id tc s)
      (on_tool_calls-Tells rand_id tcs s')

close_tools-Tells : (m : List (ℤ × ToolState)) (s : State) → Tells [] s (close_tools m s)
unfolding close_tools
close_tools-Tells [] s = Tells-same s
close_tools-Tells ((k, st) ∷ m) s =
    pick (λ s'. Tells [] s (close_tools m s')) st.opened _ s
      (λ e.
        let s' = write_event (block_stop (pos st.index)) s in
        Tells-then s s' (close_tools m s') [] []
          (texts-append s.sent (block_stop (pos st.index)), refl, refl) (close_tools-Tells m s'))
      (λ e. close_tools-Tells m s)

-- The end state after chunks, told of the state before them.
abbrev After : List Chunk → State → State → Type 0
After cs s s' =
    (texts s'.sent ≡ texts s.sent ++ said cs)
    × (s'.finish_reason ≡ last_reason cs s.finish_reason)
    × (s'.usage ≡ last_usage cs s.usage)

on_choices-After :
    (rand_id : ℕ → Bytes) (chs : List Choice) (s : State)
    → (texts (on_choices rand_id chs s).sent ≡ texts s.sent ++ first_content chs)
      × ((on_choices rand_id chs s).finish_reason ≡ first_reason chs s.finish_reason)
      × ((on_choices rand_id chs s).usage ≡ s.usage)
unfolding on_choices
on_choices-After rand_id [] s = Tells-same s
on_choices-After rand_id (ch ∷ others) s =
    let s1 = record s {
      finish_reason = if nonempty ch.finish_reason then ch.finish_reason else s.finish_reason;
    } in
    let s2 = on_content ch.content s1 in
    let s3 = on_tool_calls rand_id ch.tool_calls s2 in
    let (a, b, c) =
      Tells-then s1 s2 s3 ch.content [] (on_content-Tells ch.content s1)
        (on_tool_calls-Tells rand_id ch.tool_calls s2) in
    (a ∙ ap (λ t. texts s.sent ++ t) (append-nil ch.content), b, c)

take_usage-lem :
    (u : Option OpenAiUsage) (s : State)
    → ((take_usage u s).sent ≡ s.sent)
      × ((take_usage u s).finish_reason ≡ s.finish_reason)
      × ((take_usage u s).usage ≡ given_usage u s.usage)
take_usage-lem none s = (refl, refl, refl)
take_usage-lem (some u) s = (refl, refl, refl)

on_chunk-After :
    (rand_id : ℕ → Bytes) (chunk : Chunk) (cs : List Chunk) (s s' : State)
    → After cs (on_chunk rand_id (some chunk) s) s'
    → After (chunk ∷ cs) s s'
on_chunk-After rand_id chunk cs s s' (a, b, c) =
    let (sent, reason, usage) = take_usage-lem chunk.usage s in
    let (a', b', c') = on_choices-After rand_id chunk.choices (take_usage chunk.usage s) in
    (
      a
          ∙ (ap (λ t. t ++ said cs) (a' ∙ ap (λ es. texts es ++ first_content chunk.choices) sent)
              ∙ append_assoc (texts s.sent) (first_content chunk.choices) (said cs)),
      b ∙ ap (last_reason cs) (b' ∙ ap (first_reason chunk.choices) reason),
      c ∙ ap (last_usage cs) (c' ∙ usage),
    )

scan-After :
    (unmarshal : Bytes → Option Chunk) (rand_id : ℕ → Bytes) (lines : List Bytes) (s : State)
    → After (chunks unmarshal lines) s (scan unmarshal rand_id lines s)
unfolding scan chunks
scan-After unmarshal rand_id [] s = Tells-same s
scan-After unmarshal rand_id (line ∷ lines) s = elim (Bool-cases (has_prefix line data_prefix)) [
  | inr e ↦ rw e (scan-After unmarshal rand_id lines s)
  | inl e ↦ elim (Bool-cases (drop (length data_prefix) line == codes "[DONE]")) [
    | inl done ↦ rw (e, done) (Tells-same s)
    | inr more ↦
        rw (e, more)
          (go (scan-After unmarshal rand_id lines) (unmarshal (drop (length data_prefix) line)))
  ]
]
  where
    go :
        ((from : State) → After (chunks unmarshal lines) from (scan unmarshal rand_id lines from))
        → (o : Option Chunk)
        → After
            (decoded o (chunks unmarshal lines))
            s
            (scan unmarshal rand_id lines (on_chunk rand_id o s))
    go ih none = ih s
    go ih (some chunk) =
        on_chunk-After rand_id chunk (chunks unmarshal lines) s
          (scan unmarshal rand_id lines (on_chunk rand_id (some chunk) s))
          (ih (on_chunk rand_id (some chunk) s))

close_blocks-Tells : (range : Range) (s : State) → Tells [] s (close_blocks range s)
close_blocks-Tells range s =
    pick (λ s'. Tells [] s (close_tools (range s.tool_states) s')) s.text_open _ s
      (λ e.
        let s' = write_event (block_stop s.text_index) s in
        Tells-then s s' (close_tools (range s.tool_states) s') [] []
          (texts-append s.sent (block_stop s.text_index), refl, refl)
          (close_tools-Tells (range s.tool_states) s'))
      (λ e. close_tools-Tells (range s.tool_states) s)

-- The text that the client gets, all deltas one after the other, is the text of the model: that of the
-- first choice of each chunk, in order, up to the end mark; lines that do not decode add nothing. The
-- message ends with the last reason that the model gave, in Anthropic's words, the counts of its last
-- usage, and the event that closes it.
pub stream-texts :
    (range : Range) (unmarshal : Bytes → Option Chunk) (rand_id : ℕ → Bytes) (model : Bytes)
    (lines : List Bytes)
    → (es : List Event) × (let cs = chunks unmarshal lines in
        let usage = last_usage cs new_state.usage in
        (stream range unmarshal rand_id model lines
          ≡ (es
              ++ message_delta
                  (map_finish_reason (last_reason cs []))
                  usage.prompt_tokens
                  usage.completion_tokens
                ∷ [])
            ++ message_stop ∷ [])
        × (texts es ≡ said cs))
unfolding stream
stream-texts range unmarshal rand_id model lines =
    let s0 = write_event (message_start (codes "msg_" ++ rand_id 0) model) new_state in
    let s = scan unmarshal rand_id lines s0 in
    let (a, b, c) = scan-After unmarshal rand_id lines s0 in
    let (a', b', c') = close_blocks-Tells range s in
    (
      (close_blocks range s).sent,
      (
        ap
            (λ (x : Bytes × OpenAiUsage).
              ((close_blocks range s).sent
                ++ message_delta (map_finish_reason x.0) x.1.prompt_tokens x.1.completion_tokens
                  ∷ [])
              ++ message_stop ∷ [])
            (λ i. ((b' ∙ b) i, (c' ∙ c) i)),
        a' ∙ (append-nil (texts s.sent) ∙ a),
      ),
    )
