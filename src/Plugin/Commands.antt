-- ===== src/Plugin/Commands.antt =====
-- plugin/commands/dispatcher.go: Invoke, over the registry of Plugin/Contributions and the gate of Bridge/Gate. What
-- runs outside, a shell, a task or a call of a sidecar, is an argument; what was started is kept in a list. The
-- end of a shell stands for what the code reads of the contexts, of cmd.Run and of the process state.
mod Allowed
mod Tests
use opendray_v2_lab.Common.Order.{ℤ, pos}
use opendray_v2_lab.Common.{
  ℕ, Bool, true, false, not, ◌&&◌, List, [], ◌∷◌, ◌++◌, Option, none, some, Bytes, bytes_eq, codes,
  ◌==◌, leb, length, take, if◌then◌else◌,
}
use opendray_v2_lab.Bridge.Gate.{Gate, AuditEvent, Verdict, allow, deny, fail, Need, check}
use opendray_v2_lab.Go.Sort.{Sorter}
use opendray_v2_lab.Plugin.Contributions.{Registry, Command, CommandRun, is_empty}
use opendray_v2_lab.Plugin.Contributions.Flatten.{Owned, flatten}

abbrev pub max_output : ℕ
max_output = 16384

-- The bytes of "… [truncated]"
abbrev pub truncated_mark : Bytes
truncated_mark = 226 ∷ 128 ∷ 166 ∷ codes " [truncated]"

unfoldable pub truncate : Bytes → Bytes
truncate s = if leb (length s) max_output then s else take max_output s ++ truncated_mark

pub record Result : Type 0 where
  pub kind : Bytes
  pub message : Bytes
  pub url : Bytes
  pub view_id : Bytes
  pub task_id : Bytes
  pub output : Bytes
  pub exit : ℤ

abbrev pub result_of : Bytes → Result
result_of kind = record {
  kind = kind;
  message = [];
  url = [];
  view_id = [];
  task_id = [];
  output = [];
  exit = pos 0;
}

pub data Error : Type 0 where
  command_not_found run_kind_unimpl missing_view_id missing_run_spec : Error
  denied : Verdict → Error
  invalid_url timed_out cancelled spawn_failed task_failed host_failed marshal_failed : Error

pub data Invoked : Type 0 where
  invoked : Result → Invoked
  refused : Error → Invoked

-- How `sh -c` ended, with what it wrote and its exit code.
pub data ShellEnd : Type 0 where
  exited : Bytes → ℤ → ShellEnd
  ten_seconds_up caller_gone not_spawned : ShellEnd

pub data Started : Type 0 where
  shell : Bytes → Started
  task : Bytes → Started
  host_call : Bytes → Bytes → Option Bytes → Started

-- The shell, the runner of tasks and the caller of sidecars, which may be nil, and the library's functions.
pub record Outside : Type 0 where
  pub sh : Bytes → ShellEnd
  pub tasks : Option (Bytes → Option (Bytes × ℤ))
  pub host : Option (Bytes → Bytes → Option Bytes → Option Bytes)
  pub marshal : List Bytes → Option Bytes
  pub parse_request_uri : Bytes → Bool

-- What a call leaves: the audit rows and what was started.
pub record Trace : Type 0 where
  pub rows : List AuditEvent
  pub started : List Started

abbrev pub shell_result : ShellEnd → Invoked
shell_result (exited output code) =
    invoked record (result_of (codes "exec")) { output = truncate output; exit = code }
shell_result ten_seconds_up = refused timed_out
shell_result caller_gone = refused cancelled
shell_result not_spawned = refused spawn_failed

-- What follows a check of the gate; the rows are those that it leaves.
abbrev pub once_allowed : Verdict → List AuditEvent → Trace → Started → Invoked → Invoked × Trace
once_allowed allow rows t start ran =
    (ran, record { rows = rows; started = t.started ++ start ∷ [] })
once_allowed (deny msg) rows t start ran =
    (refused (denied (deny msg)), record { rows = rows; started = t.started })
once_allowed (fail msg) rows t start ran =
    (refused (denied (fail msg)), record { rows = rows; started = t.started })

abbrev pub exec_need : Bytes → Need
exec_need target = record { cap = codes "exec"; target = target }

unfoldable pub run_exec : Gate → ℕ → Outside → Bytes → CommandRun → Trace → Invoked × Trace
unfolding truncate
run_exec g elapsed o plugin_name run t =
    let (verdict, rows') = check g elapsed plugin_name (exec_need run.method) t.rows in
    if is_empty run.method
    then (refused missing_run_spec, t)
    else once_allowed verdict rows' t (shell run.method) (shell_result (o.sh run.method))

abbrev pub task_result : Bytes → Option (Bytes × ℤ) → Invoked
task_result id none = refused task_failed
task_result id (some (output, code)) =
    invoked
      record (result_of (codes "runTask")) { task_id = id; output = truncate output; exit = code }

abbrev pub task_target : Bytes → Bytes
task_target id = codes "task:" ++ id

abbrev pub run_task_with :
    Gate → ℕ → Option (Bytes → Option (Bytes × ℤ)) → Bytes → CommandRun → Trace → Invoked × Trace
run_task_with g elapsed none plugin_name run t = (refused run_kind_unimpl, t)
run_task_with g elapsed (some runner) plugin_name run t =
    let (verdict, rows') =
      check g elapsed plugin_name (exec_need (task_target run.task_id)) t.rows in
    if is_empty run.task_id
    then (refused missing_run_spec, t)
    else once_allowed verdict rows' t (task run.task_id)
        (task_result run.task_id (runner run.task_id))

unfoldable pub run_task : Gate → ℕ → Outside → Bytes → CommandRun → Trace → Invoked × Trace
unfolding truncate
run_task g elapsed o plugin_name run t = run_task_with g elapsed o.tasks plugin_name run t

abbrev pub host_result : Option Bytes → Invoked
host_result none = refused host_failed
host_result (some raw) = invoked record (result_of (codes "host")) { output = raw }

abbrev pub call_host :
    (Bytes → Bytes → Option Bytes → Option Bytes)
    → Bytes
    → Bytes
    → Option Bytes
    → Trace
    → Invoked × Trace
call_host call plugin_name method params t = (
  host_result (call plugin_name method params),
  record t { started = t.started ++ host_call plugin_name method params ∷ [] },
)

abbrev pub call_marshalled :
    (Bytes → Bytes → Option Bytes → Option Bytes)
    → Bytes
    → Bytes
    → Option Bytes
    → Trace
    → Invoked × Trace
call_marshalled call plugin_name method none t = (refused marshal_failed, t)
call_marshalled call plugin_name method (some params) t =
    call_host call plugin_name method (some params) t

abbrev pub run_host_with :
    Option (Bytes → Bytes → Option Bytes → Option Bytes)
    → (List Bytes → Option Bytes)
    → Bytes
    → CommandRun
    → Trace
    → Invoked × Trace
run_host_with none marshal plugin_name run t = (refused run_kind_unimpl, t)
run_host_with (some call) marshal plugin_name run t =
    if is_empty run.method
    then (refused missing_run_spec, t)
    else if is_empty run.args
    then call_host call plugin_name run.method none t
    else call_marshalled call plugin_name run.method (marshal run.args) t

unfoldable pub run_host : Outside → Bytes → CommandRun → Trace → Invoked × Trace
run_host o plugin_name run t = run_host_with o.host o.marshal plugin_name run t

unfoldable pub run_notify : CommandRun → Invoked
run_notify run = invoked record (result_of (codes "notify")) { message = run.message }

unfoldable pub run_open_url : Outside → CommandRun → Invoked
run_open_url o run =
    if o.parse_request_uri run.url
    then invoked record (result_of (codes "openUrl")) { url = run.url }
    else refused invalid_url

unfoldable pub run_open_view : CommandRun → Invoked
run_open_view run =
    if is_empty run.view_id
    then refused missing_view_id
    else invoked record (result_of (codes "openView")) { view_id = run.view_id }

-- The first command of the flattened view with this plugin and id.
unfoldable pub find_command : Bytes → Bytes → List (Owned Command) → Option Command
find_command plugin_name id [] = none
find_command plugin_name id (c ∷ commands) =
    if (c.plugin_name == plugin_name) && (c.item.id == id)
    then some c.item
    else find_command plugin_name id commands

unfoldable pub by_kind : Gate → ℕ → Outside → Bytes → CommandRun → Trace → Invoked × Trace
unfolding run_notify run_open_url run_open_view run_exec run_task run_host
by_kind g elapsed o plugin_name run t =
    if run.kind == codes "notify"
    then (run_notify run, t)
    else if run.kind == codes "openUrl"
    then (run_open_url o run, t)
    else if run.kind == codes "openView"
    then (run_open_view run, t)
    else if run.kind == codes "exec"
    then run_exec g elapsed o plugin_name run t
    else if run.kind == codes "runTask"
    then run_task g elapsed o plugin_name run t
    else if run.kind == codes "host"
    then run_host o plugin_name run t
    else (refused run_kind_unimpl, t)

abbrev pub invoke_run : Gate → ℕ → Outside → Bytes → Option CommandRun → Trace → Invoked × Trace
invoke_run g elapsed o plugin_name none t = (refused missing_run_spec, t)
invoke_run g elapsed o plugin_name (some run) t = by_kind g elapsed o plugin_name run t

abbrev pub invoke_found : Gate → ℕ → Outside → Bytes → Option Command → Trace → Invoked × Trace
invoke_found g elapsed o plugin_name none t = (refused command_not_found, t)
invoke_found g elapsed o plugin_name (some c) t = invoke_run g elapsed o plugin_name c.run t

unfoldable pub invoke :
    Sorter → Gate → ℕ → Outside → Registry → Bytes → Bytes → Trace → Invoked × Trace
unfolding find_command by_kind flatten
invoke s g elapsed o r plugin_name id t =
    invoke_found g elapsed o plugin_name (find_command plugin_name id (flatten s r).commands) t
