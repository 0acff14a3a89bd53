-- ===== src/Bridge/Gate.antt =====
-- plugin/bridge/capabilities.go: the gate's state, its decoding of permissions, `evaluate` and `Check`.
-- A formatted message is the constructor that stands for its format, with what is put into it. The
-- reader of consents, the sink of audit rows, encoding/json, net/url and net's address parser are
-- fields of the gate; the time that a call takes is an argument. The rows are those that the sink has
-- kept, oldest first.
pub mod Expand
pub mod Decide
pub mod Audit
pub mod Sandbox
mod Tests
use opendray_v2_lab.Common.{
  ℕ, ◌≡◌, Bool, true, false, ◌||◌, List, [], ◌∷◌, ◌++◌, Bytes, codes, bytes_beq, nat_beq,
  if◌then◌else◌, Option, none, some,
}
use opendray_v2_lab.Bridge.Exec.{match_exec_globs}
use opendray_v2_lab.Bridge.Fs.{match_fs_path}
use opendray_v2_lab.Bridge.Http.{Url, match_http_url}

-- `permissionsV1Wire`; a raw field is the JSON text under its key, empty where there is none.
pub record Permissions : Type 0 where
  pub exec : Bytes
  pub http : Bytes
  pub fs : Bytes
  pub session : Bytes
  pub storage : Bool
  pub secret : Bool
  pub llm : Bool

-- The zero value.
abbrev pub no_permissions : Permissions
no_permissions = record {
  exec = [];
  http = [];
  fs = [];
  session = [];
  storage = false;
  secret = false;
  llm = false;
}

pub data Parsed : Type 0 where
  parsed : Permissions → Parsed
  malformed : Bytes → Parsed

-- json.Unmarshal into the types that the gate decodes; `none` is an error.
pub record Json : Type 0 where
  pub to_permissions : Bytes → Parsed
  pub to_bool : Bytes → Option Bool
  pub to_strings : Bytes → Option (List Bytes)
  pub to_fs : Bytes → Option (List Bytes × List Bytes)

pub record Need : Type 0 where
  pub cap : Bytes
  pub target : Bytes

pub data Message : Type 0 where
  silent : Message
  no_consent : Bytes → Message
  error_text : Bytes → Message
  not_granted : Bytes → Bytes → Message
  session_not_granted : Bytes → Message
  kind_not_granted : Bytes → Message
  unknown_capability : Bytes → Message

-- An error with the plugin that it is about: `bridge: load consent for %q: %w` and `bridge: parse consent JSON
-- for %q: %w`.
pub data Failure : Type 0 where
  load_failed : (plugin err : Bytes) → Failure
  bad_json : (plugin err : Bytes) → Failure

-- The text of the wrapped error alone.
abbrev pub cause : Failure → Message
cause (load_failed plugin err) = error_text err
cause (bad_json plugin err) = error_text err

-- The values "ok", "denied" and "error".
pub data Outcome : Type 0 where
  ok denied error : Outcome

-- `ArgsHash` is never set.
pub record AuditEvent : Type 0 where
  pub plugin_name : Bytes
  pub ns : Bytes
  pub method : Bytes
  pub caps : List Bytes
  pub result : Outcome
  pub duration_ms : ℕ
  pub message : Message

-- `ConsentReader.Load`
pub data Loaded : Type 0 where
  load_error : Bytes → Loaded
  missing : Loaded
  found : Bytes → Loaded

-- `audit` is nil, or a sink that keeps a row or fails.
pub record Gate : Type 0 where
  pub load : Bytes → Loaded
  pub audit : Option (AuditEvent → Bool)
  pub json : Json
  pub parse_url : Bytes → Option Url
  pub parse_ip : Bytes → Option Bytes

-- What `Check` returns: nil, a PermError with code EPERM, or another error.
pub data Verdict : Type 0 where
  allow : Verdict
  deny : Message → Verdict
  fail : Failure → Verdict

pub append_audit : Gate → AuditEvent → List AuditEvent → List AuditEvent
append_audit g ev rows = elim g.audit [
  | none ↦ rows
  | some keeps ↦ if keeps ev then rows ++ ev ∷ [] else rows
]

-- `parseExecGlobs` and `parseHTTPPatterns`, which are the same but for their names.
unfoldable pub parse_globs : Json → Bytes → List Bytes
parse_globs json [] = []
parse_globs json (c ∷ raw) = elim (json.to_bool (c ∷ raw)) [
  | some b ↦ if b then codes "*" ∷ [] else []
  | none ↦ elim (json.to_strings (c ∷ raw)) [ some globs ↦ globs | none ↦ [] ]
]

unfoldable pub parse_fs_perm : Json → Bytes → List Bytes × List Bytes
parse_fs_perm json [] = ([], [])
parse_fs_perm json (c ∷ raw) = elim (json.to_bool (c ∷ raw)) [
  | some b ↦ if b then (codes "/**" ∷ [], codes "/**" ∷ []) else ([], [])
  | none ↦ elim (json.to_fs (c ∷ raw)) [ some (reads, writes) ↦ (reads, writes) | none ↦ ([], []) ]
]

abbrev pub verdict_of : Bool → Message → Verdict
verdict_of true msg = allow
verdict_of false msg = deny msg

-- The grant of a session: "write" implies "read".
unfoldable pub session_allows : Bytes → Bytes → Bool
session_allows target granted =
    if bytes_beq target (codes "read")
    then bytes_beq granted (codes "read") || bytes_beq granted (codes "write")
    else if bytes_beq target (codes "write")
    then bytes_beq granted (codes "write")
    else false

-- The two results as a verdict: a denial carries the message.
unfoldable pub evaluate : Gate → Need → Permissions → Verdict
evaluate g need perms =
    if bytes_beq need.cap (codes "exec")
    then verdict_of (match_exec_globs (parse_globs g.json perms.exec) need.target)
        (not_granted (codes "exec") need.target)
    else if bytes_beq need.cap (codes "http")
    then verdict_of
        (match_http_url g.parse_url g.parse_ip (parse_globs g.json perms.http) need.target)
        (not_granted (codes "http") need.target)
    else if bytes_beq need.cap (codes "fs.read")
    then verdict_of (match_fs_path (parse_fs_perm g.json perms.fs).0 need.target)
        (not_granted (codes "fs.read") need.target)
    else if bytes_beq need.cap (codes "fs.write")
    then verdict_of (match_fs_path (parse_fs_perm g.json perms.fs).1 need.target)
        (not_granted (codes "fs.write") need.target)
    else if bytes_beq need.cap (codes "session")
    then verdict_of (session_allows need.target perms.session) (session_not_granted need.target)
    else if bytes_beq need.cap (codes "storage")
    then verdict_of perms.storage (kind_not_granted (codes "storage"))
    else if bytes_beq need.cap (codes "secret")
    then verdict_of perms.secret (kind_not_granted (codes "secret"))
    else if bytes_beq need.cap (codes "llm")
    then verdict_of perms.llm (kind_not_granted (codes "llm"))
    else deny (unknown_capability need.cap)

-- The text before the first dot.
unfoldable pub need_ns : Bytes → Bytes
need_ns [] = []
need_ns (c ∷ cap) = if nat_beq c b'.' then [] else c ∷ need_ns cap

-- The row that every path of `Check` writes, up to its result and message.
abbrev pub row : Bytes → Need → ℕ → Outcome → Message → AuditEvent
row plugin need elapsed result message = record {
  plugin_name = plugin;
  ns = need_ns need.cap;
  method = need.cap;
  caps = need.cap ∷ [];
  result = result;
  duration_ms = elapsed;
  message = message;
}

-- The permissions of a consent row; an empty text leaves the zero value.
unfoldable pub parse_permissions : Json → Bytes → Parsed
parse_permissions json [] = parsed no_permissions
parse_permissions json (c ∷ raw) = json.to_permissions (c ∷ raw)

-- What `Check` does with a decided call.
unfoldable pub conclude :
    Gate → ℕ → Bytes → Need → Verdict → List AuditEvent → Verdict × List AuditEvent
conclude g elapsed plugin need allow rows =
    (allow, append_audit g (row plugin need elapsed ok silent) rows)
conclude g elapsed plugin need (deny msg) rows =
    (deny msg, append_audit g (row plugin need elapsed denied msg) rows)
conclude g elapsed plugin need (fail why) rows =
    (fail why, append_audit g (row plugin need elapsed error (cause why)) rows)

-- Loading and parsing, as `Check` and `checkFSExpanded` begin; `decide` is what follows.
module _ (g : Gate) (elapsed : ℕ) (plugin : Bytes) (need : Need)
    (decide : Permissions → List AuditEvent → Verdict × List AuditEvent)
    (rows : List AuditEvent) where
  unfoldable pub with_parsed : Parsed → Verdict × List AuditEvent
  with_parsed (malformed err) = conclude g elapsed plugin need (fail (bad_json plugin err)) rows
  with_parsed (parsed perms) = decide perms rows

  unfoldable pub with_loaded : Loaded → Verdict × List AuditEvent
  unfolding with_parsed
  with_loaded (load_error err) = conclude g elapsed plugin need (fail (load_failed plugin err)) rows
  with_loaded missing = conclude g elapsed plugin need (deny (no_consent plugin)) rows
  with_loaded (found raw) = with_parsed (parse_permissions g.json raw)

  unfoldable pub with_permissions : Verdict × List AuditEvent
  unfolding with_loaded
  with_permissions = with_loaded (g.load plugin)

-- `Check` after the permissions are known.
abbrev pub decide_plain :
    Gate → ℕ → Bytes → Need → Permissions → List AuditEvent → Verdict × List AuditEvent
decide_plain g elapsed plugin need perms = conclude g elapsed plugin need (evaluate g need perms)

unfoldable pub check : Gate → ℕ → Bytes → Need → List AuditEvent → Verdict × List AuditEvent
check g elapsed plugin need rows =
    with_permissions g elapsed plugin need (decide_plain g elapsed plugin need) rows
