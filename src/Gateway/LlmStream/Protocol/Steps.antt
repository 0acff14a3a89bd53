-- ===== src/Gateway/LlmStream/Protocol/Steps.antt =====
-- gateway/llm_proxy/stream.go: single events, each of which a running message takes.
use opendray_v2_lab.Common.Order.{ℤ, pos, int_eq}
use opendray_v2_lab.Common.Dict.{lookup, insert, Distinct-insert}
use opendray_v2_lab.Common.{
  ℕ, suc, ◌+◌, ◌-◌, ◌≡◌, ◌≢◌, refl, sym, ap, ◌∙◌, Bool, true, false, ◌&&◌, List, [], ◌∷◌, ◌++◌,
  none, some, Bytes, ◌==◌, nat_beq, nat_beq_iff, if◌then◌else◌, arith,
}
use opendray_v2_lab.Gateway.LlmStream.{
  ToolState, Event, text_start, tool_start, text_delta, json_delta, block_stop, nonempty,
}
use opendray_v2_lab.Gateway.LlmStream.Protocol.{
  text, tool, unused, closed, opened, running, mark, accept,
}
use opendray_v2_lab.Gateway.LlmStream.Protocol.Blocks.{
  one_if, open_in, open_count, open_count-insert, lookup-insert_same, lookup-insert_other,
  insert_each, Distinct-insert_over,
}
use opendray_v2_lab.Gateway.LlmStream.Protocol.Kept.{
  tool_status, Fits, Runs, extended, mark_same, mark_other, apart,
}

module _ (m : List (ℤ × ToolState)) (next : ℕ) (text_open : Bool) (at : ℤ) (sent : List Event) where
  -- A delta to an open block.
  Runs-delta :
      (e : Event) (r : Runs m next text_open at sent)
      → accept e (running r.status (one_if text_open + open_count m))
        ≡ some (running r.status (one_if text_open + open_count m))
      → Runs m next text_open at (sent ++ e ∷ [])
  Runs-delta e r a = record {
    status = r.status;
    owner = r.owner;
    seen =
        extended sent e r.status r.status (one_if text_open + open_count m)
          (one_if text_open + open_count m) (one_if text_open + open_count m) r.seen a refl;
    written = r.written;
    calls = r.calls;
    free = r.free;
    keys = r.keys;
  }

  pub Runs-text_delta :
      (t : Bytes)
      → text_open ≡ true
      → Runs m next text_open at sent
      → Runs m next text_open at (sent ++ text_delta at t ∷ [])
  unfolding accept
  Runs-text_delta t is_open r = Runs-delta (text_delta at t) r (rw (r.written is_open) refl)

  pub Runs-json_delta :
      (k : ℤ) (st : ToolState) (t : Bytes)
      → lookup k m ≡ some st
      → st.opened ≡ true
      → Runs m next text_open at sent
      → Runs m next text_open at (sent ++ json_delta (pos st.index) t ∷ [])
  unfolding accept
  Runs-json_delta k st t h is_open r =
      let (below, is, own) = r.calls k st h in
      Runs-delta (json_delta (pos st.index) t) r (rw (is ∙ ap tool_status is_open) refl)

  -- A new call, without a block yet.
  pub Runs-new :
      (k : ℤ) (st : ToolState)
      → lookup k m ≡ none
      → st.index ≡ next
      → st.opened ≡ false
      → Runs m next text_open at sent
      → Runs (insert k st m) (next + 1) text_open at sent
  Runs-new k st h index shut r = record {
    status = r.status;
    owner = owner;
    seen = r.seen ∙ ap (λ n. some (running r.status (one_if text_open + n))) same_count;
    written = r.written;
    calls = insert_each k st m (Fits r.status owner (next + 1)) mine others;
    free = λ i above. r.free i (omega arith);
    keys = Distinct-insert k st m r.keys;
  }
    where
      owner : ℕ → ℤ
      owner i = if nat_beq i next then k else r.owner i

      same_count : open_count m ≡ open_count (insert k st m)
      same_count = omega (arith, open_count-insert k st m, ap open_in h, ap one_if shut)

      mine : Fits r.status owner (next + 1) k st
      mine = (
        omega arith,
        rw (index, shut) (r.free next (omega arith)),
        ground (arith, nat_beq_iff st.index next),
      )

      others :
          (j : ℤ) (t : ToolState)
          → (k == j ≡ false)
          → lookup j m ≡ some t
          → Fits r.status owner (next + 1) j t
      others j t other h' =
          let (below, is, own) = r.calls j t h' in
          (omega arith, is, ground (arith, nat_beq_iff t.index next, own))

-- A text block starts.
pub Runs-text_start :
    (m : List (ℤ × ToolState)) (next : ℕ) (at : ℤ) (sent : List Event)
    → Runs m next false at sent
    → Runs m (next + 1) true (pos next) (sent ++ text_start (pos next) ∷ [])
unfolding accept
Runs-text_start m next at sent r = record {
  status = mark (pos next) (opened text) r.status;
  owner = r.owner;
  seen =
      extended sent (text_start (pos next)) r.status (mark (pos next) (opened text) r.status)
        (0 + open_count m) (suc (0 + open_count m)) (1 + open_count m) r.seen
        (rw (r.free next (omega arith)) refl) (omega arith);
  written = λ _. mark_same (pos next) (opened text) r.status;
  calls = λ k st h.
      let (below, is, own) = r.calls k st h in
      (
        omega arith,
        mark_other (pos next) (pos st.index) (opened text) r.status (λ e. ground (arith, e)) ∙ is,
        own,
      );
  free = λ i above.
      mark_other (pos next) (pos i) (opened text) r.status (λ e. ground (arith, e))
      ∙ r.free i (omega arith);
  keys = r.keys;
}

-- The open text block stops.
pub Runs-text_stop :
    (m : List (ℤ × ToolState)) (next : ℕ) (at : ℤ) (sent : List Event)
    → Runs m next true at sent
    → Runs m next false at (sent ++ block_stop at ∷ [])
unfolding accept
Runs-text_stop m next at sent r = record {
  status = mark at closed r.status;
  owner = r.owner;
  seen =
      extended sent (block_stop at) r.status (mark at closed r.status) (1 + open_count m)
        ((1 + open_count m) - 1) (0 + open_count m) r.seen (rw (r.written refl) refl) (omega arith);
  written = λ e. cc;
  calls = λ k st h.
      let (below, is, own) = r.calls k st h in
      (
        below,
        mark_other at (pos st.index) closed r.status (
              apart at (pos st.index) r.status
                (λ e. tool_text st.opened (sym is ∙ (sym e ∙ r.written refl))))
            ∙ is,
        own,
      );
  free = λ i above.
      mark_other at (pos i) closed r.status
        (apart at (pos i) r.status (λ e. ground (arith, e, r.written refl, r.free i above)))
      ∙ r.free i above;
  keys = r.keys;
}
  where
    tool_text : (b : Bool) → tool_status b ≢ opened text
    tool_text true e = cc
    tool_text false e = cc

-- The block of a call starts.
pub Runs-tool_start :
    (k : ℤ) (st st' : ToolState) (m : List (ℤ × ToolState)) (next : ℕ) (text_open : Bool) (at : ℤ)
    (sent : List Event) (id name : Bytes)
    → Runs (insert k st m) next text_open at sent
    → st.opened ≡ false
    → nonempty id && nonempty name ≡ true
    → st'.index ≡ st.index
    → st'.opened ≡ true
    → Runs (insert k st' m) next text_open at (sent ++ tool_start (pos st.index) id name ∷ [])
unfolding accept
Runs-tool_start k st st' m next text_open at sent id name r shut named index is_open = record {
  status = mark (pos st.index) (opened tool) r.status;
  owner = r.owner;
  seen =
      extended sent (tool_start (pos st.index) id name) r.status
        (mark (pos st.index) (opened tool) r.status) (one_if text_open + open_count (insert k st m))
        (suc (one_if text_open + open_count (insert k st m)))
        (one_if text_open + open_count (insert k st' m)) r.seen (rw (named, is_unused) refl) more;
  written = λ e.
      mark_other (pos st.index) at (opened tool) r.status
        (apart (pos st.index) at r.status (λ same. ground (arith, same, is_unused, r.written e)))
      ∙ r.written e;
  calls =
      insert_each k st' m (Fits (mark (pos st.index) (opened tool) r.status) r.owner next) mine
        others;
  free = λ i above.
      mark_other (pos st.index) (pos i) (opened tool) r.status (λ e. ground (arith, e, fits.0))
      ∙ r.free i above;
  keys = Distinct-insert_over k st st' m r.keys;
}
  where
    fits : Fits r.status r.owner next k st
    fits = r.calls k st (lookup-insert_same k st m)

    is_unused : r.status (pos st.index) ≡ unused
    is_unused = fits.1 ∙ ap tool_status shut

    more :
        suc (one_if text_open + open_count (insert k st m))
        ≡ one_if text_open + open_count (insert k st' m)
    more = omega (
      arith,
      open_count-insert k st m,
      open_count-insert k st' m,
      ap one_if shut,
      ap one_if is_open,
    )

    mine : Fits (mark (pos st.index) (opened tool) r.status) r.owner next k st'
    mine = rw (index, is_open) (fits.0, mark_same (pos st.index) (opened tool) r.status, fits.2)

    others :
        (j : ℤ) (t : ToolState)
        → (k == j ≡ false)
        → lookup j m ≡ some t
        → Fits (mark (pos st.index) (opened tool) r.status) r.owner next j t
    others j t other h =
        let (below, is, own) = r.calls j t (lookup-insert_other k st m j other ∙ h) in
        let differs : pos st.index ≢ pos t.index =
          (λ e. ground (arith, e, own, fits.2, other, int_eq.equals_iff k j)) in
        (below, mark_other (pos st.index) (pos t.index) (opened tool) r.status differs ∙ is, own)
