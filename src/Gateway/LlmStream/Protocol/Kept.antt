-- ===== src/Gateway/LlmStream/Protocol/Kept.antt =====
-- gateway/llm_proxy/stream.go: what holds of the state while a message runs.
use opendray_v2_lab.Common.Order.{ℤ, pos, int_eq}
use opendray_v2_lab.Common.Dict.{lookup, insert, Distinct, Distinct-insert}
use opendray_v2_lab.Common.{
  ℕ, ◌+◌, ◌≤◌, ◌<◌, ◌≡◌, ◌≢◌, ap, ◌∙◌, Bool, true, false, List, [], ◌∷◌, ◌++◌, some, arith,
}
use opendray_v2_lab.Gateway.LlmStream.{State, ToolState, Event}
use opendray_v2_lab.Gateway.LlmStream.Protocol.{
  text, tool, Status, unused, opened, nothing, running, mark, accept, run, run-append,
}
use opendray_v2_lab.Gateway.LlmStream.Protocol.Blocks.{
  one_if, open_in, open_count, open_count-insert, lookup-insert_same, lookup-insert_other,
  insert_each, Distinct-insert_over,
}

abbrev pub tool_status : Bool → Status
tool_status true = opened tool
tool_status false = unused

-- An entry's index is below the next, belongs to its key, and has a block just when it is opened.
abbrev pub Fits : (ℤ → Status) → (ℕ → ℤ) → ℕ → ℤ → ToolState → Type 0
Fits status owner next k st =
    (st.index < next) × (status (pos st.index) ≡ tool_status st.opened) × (owner st.index ≡ k)

-- The calls, the next index, whether a text block is open and its index, and the events so far.
pub record Runs (m : List (ℤ × ToolState)) (next : ℕ) (text_open : Bool) (at : ℤ)
    (sent : List Event) : Type 0 where
  pub status : ℤ → Status
  pub owner : ℕ → ℤ
  pub seen : run sent nothing ≡ some (running status (one_if text_open + open_count m))
  pub written : text_open ≡ true → status at ≡ opened text
  pub calls : (k : ℤ) (st : ToolState) → lookup k m ≡ some st → Fits status owner next k st
  pub free : (i : ℕ) → next ≤ i → status (pos i) ≡ unused
  pub keys : Distinct m

abbrev pub Running : State → Type 0
Running s = Runs s.tool_states s.next_index s.text_open s.text_index s.sent

pub extended :
    (sent : List Event) (e : Event) (status status' : ℤ → Status) (n n' m : ℕ)
    → run sent nothing ≡ some (running status n)
    → accept e (running status n) ≡ some (running status' n')
    → n' ≡ m
    → run (sent ++ e ∷ []) nothing ≡ some (running status' m)
extended sent e status status' n n' m h a c =
    run-append sent e nothing (running status n) h ∙ (a ∙ ap (λ k. some (running status' k)) c)

pub mark_same : (i : ℤ) (new : Status) (status : ℤ → Status) → mark i new status i ≡ new
mark_same i new status = ground (arith, int_eq.equals_iff i i)

pub mark_other :
    (i j : ℤ) (new : Status) (status : ℤ → Status) → i ≢ j → mark i new status j ≡ status j
mark_other i j new status other = ground (arith, int_eq.equals_iff i j, other)

-- Indexes of blocks of another status are other indexes.
pub apart : (i j : ℤ) (status : ℤ → Status) → status i ≢ status j → i ≢ j
apart i j status d e = d (ap status e)

module _ (k : ℤ) (st st' : ToolState) (m : List (ℤ × ToolState)) (next : ℕ) (text_open : Bool)
    (at : ℤ) (sent : List Event) where
  -- Only the index and whether it is opened matter of an entry.
  pub Runs-insert :
      Runs (insert k st m) next text_open at sent
      → st'.index ≡ st.index
      → st'.opened ≡ st.opened
      → Runs (insert k st' m) next text_open at sent
  Runs-insert r same_index same_opened = record {
    status = r.status;
    owner = r.owner;
    seen = r.seen ∙ ap (λ n. some (running r.status (one_if text_open + n))) same_count;
    written = r.written;
    calls =
        insert_each k st' m (Fits r.status r.owner next)
          (rw (same_index, same_opened) (r.calls k st (lookup-insert_same k st m)))
          (λ j t other h. r.calls j t (lookup-insert_other k st m j other ∙ h));
    free = r.free;
    keys = Distinct-insert_over k st st' m r.keys;
  }
    where
      same_count : open_count (insert k st m) ≡ open_count (insert k st' m)
      same_count =
          omega (arith, open_count-insert k st m, open_count-insert k st' m, ap one_if same_opened)

-- Putting back what stands there changes nothing.
pub Runs-insert_again :
    (k : ℤ) (st : ToolState) (m : List (ℤ × ToolState)) (next : ℕ) (text_open : Bool) (at : ℤ)
    (sent : List Event)
    → lookup k m ≡ some st
    → Runs m next text_open at sent
    → Runs (insert k st m) next text_open at sent
Runs-insert_again k st m next text_open at sent h r = record {
  status = r.status;
  owner = r.owner;
  seen = r.seen ∙ ap (λ n. some (running r.status (one_if text_open + n))) same_count;
  written = r.written;
  calls =
      insert_each k st m (Fits r.status r.owner next) (r.calls k st h)
        (λ j t other h'. r.calls j t h');
  free = r.free;
  keys = Distinct-insert k st m r.keys;
}
  where
    same_count : open_count m ≡ open_count (insert k st m)
    same_count = omega (arith, open_count-insert k st m, ap open_in h)
