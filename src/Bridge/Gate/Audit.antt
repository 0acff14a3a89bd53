-- ===== src/Bridge/Gate/Audit.antt =====
-- Every call of the gate leaves one row, and the row tells what was decided.
use opendray_v2_lab.Common.{ℕ, ◌≡◌, List, Bytes}
use opendray_v2_lab.Bridge.Gate.{
  Gate, Need, AuditEvent, Verdict, allow, deny, fail, Outcome, ok, denied, error, Message, silent,
  error_text, row, append_audit, load_failed, bad_json,
}

abbrev pub outcome_of : Verdict → Outcome
outcome_of allow = ok
outcome_of (deny msg) = denied
outcome_of (fail msg) = error

-- Of an error the text that it wraps, without the plugin's name before it.
abbrev pub message_of : Verdict → Message
message_of allow = silent
message_of (deny msg) = msg
message_of (fail (load_failed name err)) = error_text err
message_of (fail (bad_json name err)) = error_text err

-- The rows after a call that ended with a verdict: those before and one for the verdict.
abbrev pub Recorded : Gate → ℕ → Bytes → Need → List AuditEvent → Verdict × List AuditEvent → Type 0
Recorded g elapsed plugin need rows (v, rows') =
    rows' ≡ append_audit g (row plugin need elapsed (outcome_of v) (message_of v)) rows
