-- ===== src/Plugin/Commands/Allowed.antt =====
-- plugin/commands/dispatcher.go: what an invocation may start.
use opendray_v2_lab.Common.{
  ℕ, ◌≤◌, ◌<◌, ◌≡◌, ◌⊎◌, inl, inr, refl, sym, ap, ◌∙◌, true, false, ◌&&◌, List, [], ◌∷◌, ◌++◌,
  Option, none, some, Memᴰ, Bytes, bytes_eq, bytes_beq_iff, codes, ◌==◌, Bool-cases, pick,
  &&-eq-true, length, length-append, length-take, take, leb, arith,
}
use opendray_v2_lab.Common.Order.{ℤ}
use opendray_v2_lab.Bridge.Gate.{Gate, AuditEvent, Verdict, allow, deny, fail, check, Need}
use opendray_v2_lab.Bridge.Gate.Decide.{Consented, check-allow_iff}
use opendray_v2_lab.Go.Sort.{Sorter}
use opendray_v2_lab.Plugin.Contributions.{Registry, Command, CommandRun, is_empty}
use opendray_v2_lab.Plugin.Contributions.Flatten.{Owned, own, flatten}
use opendray_v2_lab.Plugin.Commands.{
  max_output, truncated_mark, truncate, Outside, Trace, Started, shell, task, host_call, Invoked,
  once_allowed, exec_need, shell_result, run_exec, task_result, task_target, run_task_with,
  run_task, call_marshalled, run_host_with, run_host, find_command, by_kind, invoke_run,
  invoke_found, invoke,
}

-- A shell runs what the command says, with consent to it, a task likewise; a sidecar is the plugin's own.
abbrev pub Justified : Gate → Bytes → CommandRun → Started → Type 0
Justified g plugin_name run (shell method) =
    (method ≡ run.method) × (run.kind ≡ codes "exec") × Consented g plugin_name (exec_need method)
Justified g plugin_name run (task id) =
    (id ≡ run.task_id)
    × (run.kind ≡ codes "runTask")
    × Consented g plugin_name (exec_need (task_target id))
Justified g plugin_name run (host_call callee method params) =
    (callee ≡ plugin_name) × (method ≡ run.method) × (run.kind ≡ codes "host")

-- Nothing was started, or one thing that is justified.
abbrev pub Starts : Gate → Bytes → CommandRun → Trace → Invoked × Trace → Type 0
Starts g plugin_name run t r =
    (r.1.started ≡ t.started)
    ⊎ ((x : Started) × (r.1.started ≡ t.started ++ x ∷ []) × Justified g plugin_name run x)

module _ (g : Gate) (elapsed : ℕ) (plugin_name : Bytes) (run : CommandRun) (t : Trace) where
  once_allowed-Starts :
      (need : Need) (start : Started) (ran : Invoked) (v : Verdict) (rows : List AuditEvent)
      → (check g elapsed plugin_name need t.rows).0 ≡ v
      → (Consented g plugin_name need → Justified g plugin_name run start)
      → Starts g plugin_name run t (once_allowed v rows t start ran)
  once_allowed-Starts need start ran allow rows e just =
      inr (start, refl, just ((check-allow_iff g elapsed plugin_name need t.rows).0 e))
  once_allowed-Starts need start ran (deny msg) rows e just = inl refl
  once_allowed-Starts need start ran (fail msg) rows e just = inl refl

  run_exec-Starts :
      (o : Outside)
      → run.kind ≡ codes "exec"
      → Starts g plugin_name run t (run_exec g elapsed o plugin_name run t)
  unfolding run_exec
  run_exec-Starts o kind =
      pick (Starts g plugin_name run t) (is_empty run.method) _ _ (λ _. inl refl)
        (λ _.
          once_allowed-Starts (exec_need run.method) (shell run.method)
            (shell_result (o.sh run.method))
            (check g elapsed plugin_name (exec_need run.method) t.rows).0
            (check g elapsed plugin_name (exec_need run.method) t.rows).1 refl
            (λ c. (refl, kind, c)))

  run_task-Starts :
      (runner : Option (Bytes → Option (Bytes × ℤ)))
      → run.kind ≡ codes "runTask"
      → Starts g plugin_name run t (run_task_with g elapsed runner plugin_name run t)
  run_task-Starts none kind = inl refl
  run_task-Starts (some runner) kind =
      let need = exec_need (task_target run.task_id) in
      pick (Starts g plugin_name run t) (is_empty run.task_id) _ _ (λ _. inl refl)
        (λ _.
          once_allowed-Starts need (task run.task_id) (task_result run.task_id (runner run.task_id))
            (check g elapsed plugin_name need t.rows).0 (check g elapsed plugin_name need t.rows).1
            refl (λ c. (refl, kind, c)))

  run_host-Starts :
      (caller : Option (Bytes → Bytes → Option Bytes → Option Bytes))
      (marshal : List Bytes → Option Bytes)
      → run.kind ≡ codes "host"
      → Starts g plugin_name run t (run_host_with caller marshal plugin_name run t)
  run_host-Starts none marshal kind = inl refl
  run_host-Starts (some call) marshal kind =
      pick (Starts g plugin_name run t) (is_empty run.method) _ _ (λ _. inl refl)
        (λ _.
          pick (Starts g plugin_name run t) (is_empty run.args) _ _
            (λ _. inr (host_call plugin_name run.method none, refl, (refl, refl, kind)))
            (λ _. marshalled (marshal run.args)))
    where
      marshalled :
          (o : Option Bytes)
          → Starts g plugin_name run t (call_marshalled call plugin_name run.method o t)
      marshalled none = inl refl
      marshalled (some params) =
          inr (host_call plugin_name run.method (some params), refl, (refl, refl, kind))

  by_kind-Starts :
      (o : Outside) → Starts g plugin_name run t (by_kind g elapsed o plugin_name run t)
  unfolding by_kind run_task run_host
  by_kind-Starts o =
      let to = Starts g plugin_name run t in
      pick to (run.kind == codes "notify") _ _ (λ _. inl refl)
        (λ _.
          pick to (run.kind == codes "openUrl") _ _ (λ _. inl refl)
            (λ _.
              pick to (run.kind == codes "openView") _ _ (λ _. inl refl)
                (λ _.
                  pick to (run.kind == codes "exec") _ _
                    (λ e. run_exec-Starts o ((bytes_beq_iff run.kind (codes "exec")).0 e))
                    (λ _.
                      pick to (run.kind == codes "runTask") _ _
                        (λ e.
                          run_task-Starts o.tasks ((bytes_beq_iff run.kind (codes "runTask")).0 e))
                        (λ _.
                          pick to (run.kind == codes "host") _ _
                            (λ e.
                              run_host-Starts o.host o.marshal
                                ((bytes_beq_iff run.kind (codes "host")).0 e))
                            (λ _. inl refl))))))

find_command_sound :
    (plugin_name id : Bytes) (commands : List (Owned Command)) (c : Command)
    → find_command plugin_name id commands ≡ some c
    → Memᴰ (own plugin_name c) commands × (c.id ≡ id)
unfolding find_command
find_command_sound plugin_name id [] c e = absurd (cc e)
find_command_sound plugin_name id (d ∷ commands) c e =
    elim (Bool-cases ((d.plugin_name == plugin_name) && (d.item.id == id))) [
      | inl hit ↦
          let (p, q) = (&&-eq-true (d.plugin_name == plugin_name) (d.item.id == id)).0 hit in
          let same : d.item ≡ c = cc (rw hit at e) in
          (
            Memᴰ.head
                (λ i. own (sym ((bytes_beq_iff d.plugin_name plugin_name).0 p) i) (sym same i)),
            sym (ap (λ x. x.id) same) ∙ (bytes_beq_iff d.item.id id).0 q,
          )
      | inr miss ↦
          let (m, f) = find_command_sound plugin_name id commands c (rw miss at e) in
          (Memᴰ.tail m, f)
    ]

-- Nothing was started, or one thing that a command of the plugin with this id says, and that is justified.
abbrev pub Commanded : Sorter → Gate → Registry → Bytes → Bytes → Trace → Invoked × Trace → Type 0
Commanded s g r plugin_name id t result =
    (result.1.started ≡ t.started)
    ⊎ ((c : Command) × (run : CommandRun) × (x : Started) × Memᴰ (own plugin_name c)
          (flatten s r).commands
        × (c.id ≡ id)
        × (c.run ≡ some run)
        × (result.1.started ≡ t.started ++ x ∷ [])
        × Justified g plugin_name run x)

-- An invocation starts at most one thing. It is what a command says that stands in the flattened view under the
-- plugin and the id asked for: a shell only with the plugin's consent to that command line, a task only with its
-- consent to that task, and a sidecar only the plugin's own.
pub invoke-Starts :
    (s : Sorter) (g : Gate) (elapsed : ℕ) (o : Outside) (r : Registry) (plugin_name id : Bytes)
    (t : Trace)
    → Commanded s g r plugin_name id t (invoke s g elapsed o r plugin_name id t)
unfolding invoke
invoke-Starts s g elapsed o r plugin_name id t =
    found (find_command plugin_name id (flatten s r).commands) refl
  where
    with_run :
        (c : Command) (run : Option CommandRun)
        → Memᴰ (own plugin_name c) (flatten s r).commands
        → c.id ≡ id
        → c.run ≡ run
        → Commanded s g r plugin_name id t (invoke_run g elapsed o plugin_name run t)
    with_run c none m e k = inl refl
    with_run c (some run) m e k = elim (by_kind-Starts g elapsed plugin_name run t o) [
      | inl still ↦ inl still
      | inr (x, started, just) ↦ inr (c, run, x, m, e, k, started, just)
    ]

    found :
        (f : Option Command)
        → find_command plugin_name id (flatten s r).commands ≡ f
        → Commanded s g r plugin_name id t (invoke_found g elapsed o plugin_name f t)
    found none e = inl refl
    found (some c) e =
        let (m, same) = find_command_sound plugin_name id (flatten s r).commands c e in
        with_run c c.run m same refl

-- What a call returns of a text is the text itself up to 16384 bytes, and else its first 16384 bytes with the
-- mark behind them: never more than 16399 bytes.
pub truncate_bounds :
    (s : Bytes)
    → (length (truncate s) ≤ 16399)
      × (length s ≤ 16384 → truncate s ≡ s)
      × (16384 < length s → truncate s ≡ take 16384 s ++ truncated_mark)
unfolding truncate
truncate_bounds s = elim (Bool-cases (leb (length s) max_output)) [
  | inl short ↦
      rw short (small (length s) short, (λ _. refl), (λ h. absurd (clash (length s) short h)))
  | inr long ↦ rw long (
    omega (arith, length-append {0} (take 16384 s) truncated_mark, length-take {0} 16384 s),
    (λ h. absurd (clash' (length s) long h)),
    (λ _. refl),
  )
]
  where
    small : (n : ℕ) → leb n 16384 ≡ true → n ≤ 16399
    small n h = ground (arith, h)

    clash : (n : ℕ) → leb n 16384 ≡ true → 16384 < n → ⊥
    clash n h k = absurd (ground (arith, h, k))

    clash' : (n : ℕ) → leb n 16384 ≡ false → n ≤ 16384 → ⊥
    clash' n h k = absurd (ground (arith, h, k))
