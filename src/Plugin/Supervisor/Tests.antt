-- ===== src/Plugin/Supervisor/Tests.antt =====
-- Runs of a supervisor, and its theorems there.
use opendray_v2_lab.Common.Dict.{lookup, insert, delete}
use opendray_v2_lab.Common.{◌≡◌, refl, true, false, ◌||◌, [], ◌∷◌, some, nat_eq, string_eq}
use opendray_v2_lab.Plugin.Supervisor.{
  Supervisor, Sidecar, new_supervisor, ensure_check, ensure_insert, spawn, stop, shutdown, exit,
  reap, active_count, update, put, is_alive, to_start, running, Reachable, started, then_step,
  spawns, inserts, stops, shuts,
}
use opendray_v2_lab.Plugin.Supervisor.Tracked.{tracked, Reachable-tracked, stopped_orphans}

abbrev fresh : Sidecar
fresh = record { plugin = "kanban"; last_used = 7; exited = false; shut = false }

abbrev one_started : Supervisor
one_started = record {
  sidecars = [];
  stopped = false;
  procs = (0, fresh) ∷ [];
  next_proc = 1;
  starting = 0 ∷ [];
  ending = [];
}

abbrev one_held : Supervisor
one_held = record one_started { sidecars = ("kanban", 0) ∷ []; starting = [] }

first_check : (ensure_check new_supervisor 7 "kanban").1 ≡ to_start
unfolding ensure_check new_supervisor lookup
first_check = refl

spawned : spawn new_supervisor 7 "kanban" ≡ one_started
unfolding spawn new_supervisor insert
spawned = refl

inserted : ensure_insert one_started 7 "kanban" 0 ≡ (one_held, some 0)
unfolding ensure_insert put lookup insert
inserted = refl

second_check : (ensure_check one_held 9 "kanban").1 ≡ running 0
unfolding ensure_check is_alive lookup
second_check = refl

-- The process ends before `Ensure` puts it into the map, so the waiter has no entry to remove: the
-- count includes a process that is gone.
counted_dead :
    active_count (ensure_insert (reap (exit one_started 0) "kanban" 0) 7 "kanban" 0).0 ≡ 1
unfolding active_count ensure_insert reap exit update put lookup insert delete
counted_dead = refl

abbrev told : Sidecar
told = record fresh { shut = true }

-- One process is started and put into the map, and then everything stops.
abbrev ended : Supervisor
ended = record {
  sidecars = [];
  stopped = true;
  procs = (0, told) ∷ [];
  next_proc = 1;
  starting = [];
  ending = [];
}

ended-Reachable : Reachable ended
unfolding new_supervisor spawn ensure_insert put stop shutdown update lookup insert
ended-Reachable =
    then_step
      (then_step (then_step (then_step started (spawns 7 "kanban")) (inserts 7 0 fresh refl)) stops)
      (shuts 0)

Reachable-tracked_example : tracked ended 0 told ≡ true
unfolding lookup
Reachable-tracked_example = Reachable-tracked ended 0 told ended-Reachable refl

stopped_orphans_example : told.exited || told.shut ≡ true
unfolding lookup
stopped_orphans_example = stopped_orphans ended 0 told ended-Reachable refl refl refl refl
