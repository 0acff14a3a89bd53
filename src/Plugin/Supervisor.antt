-- ===== src/Plugin/Supervisor.antt =====
-- plugin/host/supervisor.go: the life of the sidecar processes. A goroutine that has started a process
-- and has yet to take the lock again, or that has yet to call `shutdown`, is an entry of a list of
-- the state, so that other calls may come between; starting, exiting and the clock are inputs.
mod Tracked
mod Ensure
pub mod Launch
mod Tests
use opendray_v2_lab.Common.Dict.{lookup, insert, delete}
use opendray_v2_lab.Common.{
  ℕ, suc, ◌≡◌, Bool, true, false, not, List, [], ◌∷◌, ◌++◌, map, Option, none, some, String, ◌==◌,
  nat_eq, string_eq, if◌then◌else◌, any, keep, length,
}

-- A process. `shut` says that `shutdown` has closed its input; it may still run for a while.
pub record Sidecar : Type 0 where
  pub plugin : String
  pub last_used : ℕ
  pub exited : Bool
  pub shut : Bool

pub record Supervisor : Type 0 where
  pub sidecars : List (String × ℕ)
  pub stopped : Bool
  pub procs : List (ℕ × Sidecar)
  pub next_proc : ℕ
  pub starting : List ℕ
  pub ending : List ℕ

pub new_supervisor : Supervisor
new_supervisor = record {
  sidecars = [];
  stopped = false;
  procs = [];
  next_proc = 0;
  starting = [];
  ending = [];
}

abbrev pub one_of : ℕ → List ℕ → Bool
one_of id = any (λ other. other == id)

abbrev pub without : ℕ → List ℕ → List ℕ
without id = keep (λ other. not (other == id))

abbrev pub lives : Option Sidecar → Bool
lives none = false
lives (some p) = not p.exited

-- `isAlive`
pub is_alive : Supervisor → ℕ → Bool
is_alive s id = lives (lookup id s.procs)

abbrev pub change :
    (Sidecar → Sidecar) → ℕ → Option Sidecar → List (ℕ × Sidecar) → List (ℕ × Sidecar)
change f id none procs = procs
change f id (some p) procs = insert id (f p) procs

pub update : (Sidecar → Sidecar) → ℕ → Supervisor → Supervisor
update f id s = record s { procs = change f id (lookup id s.procs) s.procs }

pub touch : ℕ → ℕ → Supervisor → Supervisor
touch now = update (λ p. record p { last_used = now })

-- What `Ensure` knows when it gives the lock back for the first time.
pub data Checked : Type 0 where
  supervisor_stopped : Checked
  running : ℕ → Checked
  to_start : Checked

abbrev checked : Supervisor → ℕ → Option ℕ → Supervisor × Checked
checked s now none = (s, to_start)
checked s now (some id) = if is_alive s id then (touch now id s, running id) else (s, to_start)

-- `Ensure` up to that point.
pub ensure_check : Supervisor → ℕ → String → Supervisor × Checked
ensure_check s now plugin_name =
    if s.stopped then (s, supervisor_stopped) else checked s now (lookup plugin_name s.sidecars)

-- `spawn`, where the process starts.
pub spawn : Supervisor → ℕ → String → Supervisor
spawn s now plugin_name = record s {
  procs =
      insert s.next_proc
        (record { plugin = plugin_name; last_used = now; exited = false; shut = false }) s.procs;
  next_proc = suc s.next_proc;
  starting = s.next_proc ∷ s.starting;
}

-- The goroutine will call `shutdown` on its own process.
pub abandon : ℕ → Supervisor → Supervisor
abandon id s = record s { starting = without id s.starting; ending = id ∷ s.ending }

pub put : String → ℕ → Supervisor → Supervisor
put plugin_name id s = record s {
  starting = without id s.starting;
  sidecars = insert plugin_name id s.sidecars;
}

abbrev double_check : Supervisor → ℕ → String → ℕ → Option ℕ → Supervisor × Option ℕ
double_check s now plugin_name id none = (put plugin_name id s, some id)
double_check s now plugin_name id (some other) =
    if is_alive s other
    then (touch now other (abandon id s), some other)
    else (put plugin_name id s, some id)

-- The rest of `Ensure`, for the process that it has started; `none` is ErrSupervisorStopped.
pub ensure_insert : Supervisor → ℕ → String → ℕ → Supervisor × Option ℕ
ensure_insert s now plugin_name id =
    if s.stopped
    then (abandon id s, none)
    else double_check s now plugin_name id (lookup plugin_name s.sidecars)

abbrev take_out : String → Option ℕ → Supervisor → Supervisor
take_out plugin_name none s = s
take_out plugin_name (some id) s = record s {
  sidecars = delete plugin_name s.sidecars;
  ending = id ∷ s.ending;
}

-- `Kill` under the lock.
pub kill : Supervisor → String → Supervisor
kill s plugin_name = take_out plugin_name (lookup plugin_name s.sidecars) s

-- `Stop` under the lock.
pub stop : Supervisor → Supervisor
stop s = if s.stopped then s else record s {
  stopped = true;
  sidecars = [];
  ending = map (λ (e : String × ℕ). e.1) s.sidecars ++ s.ending;
}

pub active_count : Supervisor → ℕ
active_count s = length s.sidecars

-- The first half of `shutdown`, by a goroutine that is about to call it.
pub shutdown : Supervisor → ℕ → Supervisor
shutdown s id =
    update (λ p. record p { shut = true }) id (record s { ending = without id s.ending })

-- The waiter: `close(s.exited)`.
pub exit : Supervisor → ℕ → Supervisor
exit s id = update (λ p. record p { exited = true }) id s

abbrev holds : Option ℕ → ℕ → Bool
holds none id = false
holds (some other) id = other == id

-- The waiter, under the lock at its end: the entry goes if it is still this process.
pub reap : Supervisor → String → ℕ → Supervisor
reap s plugin_name id =
    if holds (lookup plugin_name s.sidecars) id
    then record s { sidecars = delete plugin_name s.sidecars }
    else s

-- What can happen next, whichever goroutine runs.
pub data Step (s : Supervisor) : Supervisor → Type 0 where
  checks : (now : ℕ) (plugin_name : String) → Step s (ensure_check s now plugin_name).0
  spawns : (now : ℕ) (plugin_name : String) → Step s (spawn s now plugin_name)
  inserts :
      (now id : ℕ) (p : Sidecar)
      → lookup id s.procs ≡ some p
      → Step s (ensure_insert s now p.plugin id).0
  kills : (plugin_name : String) → Step s (kill s plugin_name)
  stops : Step s (stop s)
  shuts : (id : ℕ) → Step s (shutdown s id)
  exits : (id : ℕ) → Step s (exit s id)
  reaps :
      (id : ℕ) (p : Sidecar)
      → lookup id s.procs ≡ some p
      → p.exited ≡ true
      → Step s (reap s p.plugin id)

pub data Reachable : Supervisor → Type 0 where
  started : Reachable new_supervisor
  then_step : {s t : Supervisor} → Reachable s → Step s t → Reachable t
