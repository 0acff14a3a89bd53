-- ===== src/Bridge/Gate/Decide.antt =====
-- When the gate allows a call.
use opendray_v2_lab.Common.{ℕ, ◌≡◌, ◌≢◌, ◌↔◌, refl, ap, ◌∙◌, sym, List, arith, Bytes}
use opendray_v2_lab.Bridge.Exec.{match_exec_globs}
use opendray_v2_lab.Bridge.Fs.{match_fs_path}
use opendray_v2_lab.Bridge.Http.{match_http_url}
use opendray_v2_lab.Bridge.Gate.{
  Gate, Need, Permissions, no_permissions, AuditEvent, Verdict, allow, deny, fail, conclude,
  with_parsed, with_loaded, with_permissions, parse_permissions, evaluate, check, Loaded,
  load_error, missing, found, Parsed, parsed, malformed, decide_plain, parse_globs, parse_fs_perm,
  session_allows,
}

conclude_verdict :
    (g : Gate) (elapsed : ℕ) (plugin : Bytes) (need : Need) (v : Verdict) (rows : List AuditEvent)
    → (conclude g elapsed plugin need v rows).0 ≡ v
unfolding conclude
conclude_verdict g elapsed plugin need allow rows = refl
conclude_verdict g elapsed plugin need (deny msg) rows = refl
conclude_verdict g elapsed plugin need (fail msg) rows = refl

-- The consent that a call needs: stored, well formed, and covering the call.
pub record Consented (g : Gate) (plugin : Bytes) (need : Need) : Type 0 where
  pub raw : Bytes
  pub perms : Permissions
  pub stored : g.load plugin ≡ found raw
  pub decoded : parse_permissions g.json raw ≡ parsed perms
  pub covers : evaluate g need perms ≡ allow

module _ (g : Gate) (elapsed : ℕ) (plugin : Bytes) (need : Need) (rows : List AuditEvent) where
  abbrev decide : Permissions → List AuditEvent → Verdict × List AuditEvent
  decide = decide_plain g elapsed plugin need

  parsed_sound :
      (raw : Bytes) (p : Parsed)
      → g.load plugin ≡ found raw
      → parse_permissions g.json raw ≡ p
      → (with_parsed g elapsed plugin need decide rows p).0 ≡ allow
      → Consented g plugin need
  unfolding with_parsed conclude
  parsed_sound raw (malformed err) stored e h = cc
  parsed_sound raw (parsed perms) stored e h = record {
    raw = raw;
    perms = perms;
    stored = stored;
    decoded = e;
    covers = sym (conclude_verdict g elapsed plugin need (evaluate g need perms) rows) ∙ h;
  }

  loaded_sound :
      (l : Loaded)
      → g.load plugin ≡ l
      → (with_loaded g elapsed plugin need decide rows l).0 ≡ allow
      → Consented g plugin need
  loaded_sound (load_error err) e h = unfold with_loaded conclude in cc
  loaded_sound missing e h = unfold with_loaded conclude in cc
  loaded_sound (found raw) e h =
      parsed_sound raw (parse_permissions g.json raw) e refl (unfold with_loaded in h)

  pub check-allow_iff : ((check g elapsed plugin need rows).0 ≡ allow) ↔ Consented g plugin need
  unfolding check with_permissions
  check-allow_iff = (
    λ h. loaded_sound (g.load plugin) refl h,
    λ c.
        ap (λ l. (with_loaded g elapsed plugin need decide rows l).0) c.stored
        ∙ unfold with_loaded in
          ap (λ p. (with_parsed g elapsed plugin need decide rows p).0) c.decoded
          ∙ unfold with_parsed in
            conclude_verdict g elapsed plugin need (evaluate g need c.perms) rows ∙ c.covers,
  )

-- The zero permissions, those of an empty consent text, allow nothing.
pub evaluate-no_permissions : (g : Gate) (need : Need) → evaluate g need no_permissions ≢ allow
unfolding evaluate parse_globs parse_fs_perm match_exec_globs match_fs_path match_http_url
    session_allows
evaluate-no_permissions g need h = ground (arith, h)
