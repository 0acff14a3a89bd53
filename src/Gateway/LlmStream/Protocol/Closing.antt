-- ===== src/Gateway/LlmStream/Protocol/Closing.antt =====
-- gateway/llm_proxy/stream.go: after the last line, what is open stops, and the message ends.
use opendray_v2_lab.Common.Order.{ℤ, pos, int_eq}
use mathlib.Core.List.{Permᴰ}
use opendray_v2_lab.Common.Dict.{reordered, lookup, Distinct}
use opendray_v2_lab.Common.{
  ℕ, ◌+◌, ◌-◌, ◌≡◌, ◌≢◌, refl, ap, subst, ◌∙◌, true, false, List, [], ◌∷◌, ◌++◌, none, some, pick,
  arith,
}
use opendray_v2_lab.Gateway.LlmStream.{
  State, ToolState, block_stop, message_delta, message_stop, write_event, close_tools, Range,
  close_blocks, close_message, map_finish_reason,
}
use opendray_v2_lab.Gateway.LlmStream.Protocol.{
  Status, closed, nothing, running, ending, whole, mark, accept, run, run-append,
}
use opendray_v2_lab.Gateway.LlmStream.Protocol.Blocks.{one_if, open_count}
use opendray_v2_lab.Gateway.LlmStream.Protocol.Kept.{
  tool_status, Runs, Running, extended, mark_other,
}
use opendray_v2_lab.Gateway.LlmStream.Protocol.Steps.{Runs-text_stop}

-- Each call stands under its own index, with the status that its entry says.
abbrev Known : (ℤ → Status) → (ℕ → ℤ) → List (ℤ × ToolState) → Type 0
Known status owner m =
    (k : ℤ) (st : ToolState)
    → lookup k m ≡ some st
    → (status (pos st.index) ≡ tool_status st.opened) × (owner st.index ≡ k)

module _ (status : ℤ → Status) (owner : ℕ → ℤ) (k : ℤ) (st : ToolState)
    (m : List (ℤ × ToolState)) where
  lookup-cons_same : lookup k ((k, st) ∷ m) ≡ some st
  unfolding lookup
  lookup-cons_same = ground (arith, int_eq.equals_iff k k)

  lookup-cons_other :
      (j : ℤ) (t : ToolState)
      → lookup k m ≡ none
      → lookup j m ≡ some t
      → (k ≢ j) × (lookup j ((k, st) ∷ m) ≡ some t)
  unfolding lookup
  lookup-cons_other j t fresh h =
      let differ : k ≢ j = (λ e. ground (arith, ap (λ i. lookup i m) e, fresh, h)) in
      (differ, ground (arith, differ, int_eq.equals_iff k j, h))

  Known-rest : Distinct ((k, st) ∷ m) → Known status owner ((k, st) ∷ m) → Known status owner m
  Known-rest d known j t h = known j t (lookup-cons_other j t d.0 h).1

  Known-stop :
      Distinct ((k, st) ∷ m)
      → Known status owner ((k, st) ∷ m)
      → Known (mark (pos st.index) closed status) owner m
  Known-stop d known j t h =
      let (differ, found) = lookup-cons_other j t d.0 h in
      let (is, own) = known j t found in
      let own_k = (known k st lookup-cons_same).1 in
      (
        mark_other (pos st.index) (pos t.index) closed status
              (λ e. ground (arith, e, own, own_k, differ))
            ∙ is,
        own,
      )

close_tools-run :
    (m : List (ℤ × ToolState)) (s : State) (status : ℤ → Status) (owner : ℕ → ℤ)
    → run s.sent nothing ≡ some (running status (open_count m))
    → Distinct m
    → Known status owner m
    → (status' : ℤ → Status) × (run (close_tools m s).sent nothing ≡ some (running status' 0))
unfolding close_tools open_count accept
close_tools-run [] s status owner h d known = (status, h)
close_tools-run ((k, st) ∷ m) s status owner h d known =
    pick
      (λ (s' : State).
        (status' : ℤ → Status) × (run (close_tools m s').sent nothing ≡ some (running status' 0)))
      st.opened (write_event (block_stop (pos st.index)) s) s
      (λ is_open.
        close_tools-run m (write_event (block_stop (pos st.index)) s)
          (mark (pos st.index) closed status) owner
          (extended s.sent (block_stop (pos st.index)) status (mark (pos st.index) closed status)
            (one_if st.opened + open_count m) ((one_if st.opened + open_count m) - 1) (open_count m)
            h (stops is_open) (omega (arith, ap one_if is_open)))
          d.1 (Known-stop status owner k st m d known))
      (λ is_shut.
        close_tools-run m s status owner (h ∙ ap (λ n. some (running status n)) (fewer is_shut)) d.1
          (Known-rest status owner k st m d known))
  where
    fewer : st.opened ≡ false → one_if st.opened + open_count m ≡ open_count m
    fewer is_shut = omega (arith, ap one_if is_shut)

    stops :
        st.opened ≡ true
        → accept (block_stop (pos st.index)) (running status (one_if st.opened + open_count m))
          ≡ some
              (running (mark (pos st.index) closed status) ((one_if st.opened + open_count m) - 1))
    stops is_open =
        rw ((known k st (lookup-cons_same status owner k st m)).0 ∙ ap tool_status is_open) refl

open_count-perm : {m n : List (ℤ × ToolState)} → Permᴰ m n → open_count m ≡ open_count n
unfolding open_count
open_count-perm Permᴰ.nil = refl
open_count-perm (Permᴰ.cons {a = a} {l₁ = l} {l₂ = r} same p) =
    subst (λ b. open_count (a ∷ l) ≡ open_count (b ∷ r)) same
      (ap (λ n. one_if a.1.opened + n) (open_count-perm p))
open_count-perm (Permᴰ.swap {a = a} {b = b} {b' = c} {l = l} same same') =
    subst (λ x. open_count (a ∷ b ∷ l) ≡ open_count (x ∷ c ∷ l)) same'
      (subst (λ x. open_count (a ∷ b ∷ l) ≡ open_count (b ∷ x ∷ l)) same (omega arith))
open_count-perm (Permᴰ.trans p q) = open_count-perm p ∙ open_count-perm q

pub close_blocks-run :
    (range : Range) (ranges : (m : List (ℤ × ToolState)) → Permᴰ m (range m)) (s : State)
    → Running s
    → (status : ℤ → Status) × (run (close_blocks range s).sent nothing ≡ some (running status 0))
close_blocks-run range ranges s r =
    pick
      (λ (s' : State).
        (status : ℤ → Status) × (run (close_tools (range s.tool_states) s').sent nothing
          ≡ some (running status 0)))
      s.text_open (write_event (block_stop s.text_index) s) s
      (λ e. closed_from (write_event (block_stop s.text_index) s) (
        Runs-text_stop s.tool_states s.next_index s.text_index s.sent
          (subst (λ b. Runs s.tool_states s.next_index b s.text_index s.sent) e r)))
      (λ e. closed_from s (subst (λ b. Runs s.tool_states s.next_index b s.text_index s.sent) e r))
  where
    closed_from :
        (s' : State)
        → Runs s.tool_states s.next_index false s.text_index s'.sent
        → (status : ℤ → Status) × (run (close_tools (range s.tool_states) s').sent nothing
            ≡ some (running status 0))
    closed_from s' r' =
        let (keys, found) = reordered (ranges s.tool_states) r'.keys in
        close_tools-run (range s.tool_states) s' r'.status r'.owner
          (r'.seen
            ∙ ap (λ n. some (running r'.status n))
                (omega (arith, open_count-perm (ranges s.tool_states))))
          keys (λ k st h. let (below, is, own) = r'.calls k st (found k ∙ h) in (is, own))

pub close_message-whole :
    (s : State) (status : ℤ → Status)
    → run s.sent nothing ≡ some (running status 0)
    → run (close_message s).sent nothing ≡ some whole
unfolding accept
close_message-whole s status h =
    let e =
      message_delta (map_finish_reason s.finish_reason) s.usage.prompt_tokens
        s.usage.completion_tokens in
    run-append (s.sent ++ e ∷ []) message_stop nothing ending
      (run-append s.sent e nothing (running status 0) h)
