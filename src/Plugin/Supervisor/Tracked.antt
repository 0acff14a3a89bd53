-- ===== src/Plugin/Supervisor/Tracked.antt =====
-- plugin/host/supervisor.go: no sidecar is lost, and none is held after `Stop`.
use mathlib.Core.Option
use mathlib.Core.Option.{some-injective}
use opendray_v2_lab.Common.Dict.{lookup, delete, lookup-insert, lookup-delete}
use opendray_v2_lab.Common.{
  ℕ, ◌≡◌, ◌⊎◌, inl, inr, refl, sym, ap, subst, pick, ◌∙◌, Bool, true, false, ◌||◌, List, [], ◌∷◌,
  map, Option, none, some, String, ◌==◌, nat_eq, nat_beq, nat_beq_iff, string_eq, if◌then◌else◌,
  arith, any-append,
}
use opendray_v2_lab.Plugin.Supervisor.{
  Sidecar, Supervisor, new_supervisor, one_of, without, lives, is_alive, change, update, touch,
  checked, ensure_check, spawn, abandon, put, double_check, ensure_insert, take_out, kill, stop,
  shutdown, exit, holds, reap, Step, Checked, Reachable, checks, spawns, inserts, kills, stops,
  shuts, exits, reaps, started, then_step,
}

-- A process that has ended, or was told to, or that a goroutine is about to add to the map or to
-- tell, or that the map holds under its plugin.
abbrev pub tracked : Supervisor → ℕ → Sidecar → Bool
tracked s id p =
    p.exited
    || (p.shut
        || (one_of id s.starting || (one_of id s.ending || holds (lookup p.plugin s.sidecars) id)))

abbrev pub AllTracked : Supervisor → Type 0
AllTracked s = (id : ℕ) (p : Sidecar) → lookup id s.procs ≡ some p → tracked s id p ≡ true

without_lem :
    (q id : ℕ) (l : List ℕ) → one_of q (without id l) ≡ (if nat_beq q id then false else one_of q l)
without_lem q id [] = ground arith
without_lem q id (x ∷ l) = ground (arith, without_lem q id l)

holds-one_of :
    (k : String) (q : ℕ) (m : List (String × ℕ))
    → holds (lookup k m) q ≡ true
    → one_of q (map (λ (e : String × ℕ). e.1) m) ≡ true
unfolding lookup
holds-one_of k q [] h = h
holds-one_of k q ((j, id) ∷ m) h = ground (arith, h, holds-one_of k q m)

abandon-tracked :
    (s : Supervisor) (id q : ℕ) (p : Sidecar)
    → tracked s q p ≡ true
    → tracked (abandon id s) q p ≡ true
unfolding abandon
abandon-tracked s id q p h = ground (arith, h, without_lem q id s.starting)

-- After `Stop` the supervisor holds no sidecar.
abbrev pub Empties : Supervisor → Type 0
Empties s = s.stopped ≡ true → s.sidecars ≡ []

abbrev pub Kept : Supervisor → Type 0
Kept s = Empties s × AllTracked s

take_out-Kept :
    (s : Supervisor) (name : String) (o : Option ℕ)
    → lookup name s.sidecars ≡ o
    → Kept s
    → Kept (take_out name o s)
unfolding delete
take_out-Kept s name none e k = k
take_out-Kept s name (some id) e k = (
  λ h. ap (delete name) (k.0 h),
  λ q p at. ground (
    arith,
    k.1 q p at,
    e,
    lookup-delete name p.plugin s.sidecars,
    string_eq.equals_iff name p.plugin,
  ),
)

exited_self :
    (s : Supervisor) (id q : ℕ) (out p : Sidecar)
    → lookup id s.procs ≡ some out
    → lookup q s.procs ≡ some p
    → id ≡ q
    → out.exited ≡ p.exited
exited_self s id q out p at pat e =
    ap (λ (o : Option Sidecar). ended o) (sym at ∙ (ap (λ j. lookup j s.procs) e ∙ pat))
  where
    ended : Option Sidecar → Bool
    ended none = true
    ended (some r) = r.exited

reap-Kept :
    (s : Supervisor) (id : ℕ) (out : Sidecar)
    → lookup id s.procs ≡ some out
    → out.exited ≡ true
    → Kept s
    → Kept (reap s out.plugin id)
unfolding reap delete
reap-Kept s id out at gone k =
    pick Kept (holds (lookup out.plugin s.sidecars) id) _ _
      (λ mine. (
        λ h. ap (delete out.plugin) (k.0 h),
        λ q p pat. ground (
          arith,
          k.1 q p pat,
          mine,
          gone,
          exited_self s id q out p at pat,
          nat_beq_iff id q,
          lookup-delete out.plugin p.plugin s.sidecars,
          string_eq.equals_iff out.plugin p.plugin,
        ),
      ))
      (λ other. k)

exited_dead :
    (s : Supervisor) (q : ℕ) (p : Sidecar) (o : Option ℕ)
    → ((other : ℕ) → o ≡ some other → is_alive s other ≡ false)
    → lookup q s.procs ≡ some p
    → holds o q ≡ true
    → p.exited ≡ true
unfolding is_alive
exited_dead s q p none dead pat h = cc
exited_dead s q p (some other) dead pat h =
    let same : other ≡ q = (nat_beq_iff other q).0 h in
    let found : lives (some p) ≡ false =
      ap lives (sym pat) ∙ (ap (λ j. lives (lookup j s.procs)) (sym same) ∙ dead other refl) in
    ground (arith, found)

put-Kept :
    (s : Supervisor) (id : ℕ) (new : Sidecar) (o : Option ℕ)
    → s.stopped ≡ false
    → lookup new.plugin s.sidecars ≡ o
    → ((other : ℕ) → o ≡ some other → is_alive s other ≡ false)
    → lookup id s.procs ≡ some new
    → Kept s
    → Kept (put new.plugin id s)
unfolding put is_alive
put-Kept s id new o on e dead at k = (
  λ h. cc,
  λ q p pat. ground (
    arith,
    k.1 q p pat,
    e,
    without_lem q id s.starting,
    nat_beq_iff id q,
    exited_dead s q p o dead pat,
    lookup-insert new.plugin p.plugin id s.sidecars,
    string_eq.equals_iff new.plugin p.plugin,
  ),
)

abandon-Kept : (s : Supervisor) (id : ℕ) → Kept s → Kept (abandon id s)
unfolding abandon
abandon-Kept s id k = (k.0, λ q p at. abandon-tracked s id q p (k.1 q p at))

stop-Kept : (s : Supervisor) → Kept s → Kept (stop s)
unfolding stop
stop-Kept s k =
    pick Kept s.stopped _ _ (λ done. k)
      (λ on. (
        λ h. refl,
        λ q p at. ground (
          arith,
          k.1 q p at,
          holds-one_of p.plugin q s.sidecars,
          any-append (λ x. x == q) (map (λ (e : String × ℕ). e.1) s.sidecars) s.ending,
        ),
      ))

spawn-Kept : (s : Supervisor) (now : ℕ) (name : String) → Kept s → Kept (spawn s now name)
unfolding spawn
spawn-Kept s now name k = (
  k.0,
  λ q p at. ground (
    arith,
    k.1 q p,
    at,
    lookup-insert s.next_proc q
        (record { plugin = name; last_used = now; exited = false; shut = false }) s.procs,
  ),
)

lookup-change :
    (f : Sidecar → Sidecar) (id q : ℕ) (o : Option Sidecar) (procs : List (ℕ × Sidecar))
    → lookup id procs ≡ o
    → lookup q (change f id o procs)
      ≡ (if nat_beq id q then Option.map f (lookup q procs) else lookup q procs)
lookup-change f id q none procs e = ground (arith, e, nat_beq_iff id q)
lookup-change f id q (some p) procs e =
    lookup-insert id q (f p) procs ∙ ground (arith, e, nat_beq_iff id q)

before_change :
    (f : Sidecar → Sidecar) (b : Bool) (o : Option Sidecar) (p : Sidecar)
    → (if b then Option.map f o else o) ≡ some p
    → (r : Sidecar) × (o ≡ some r) × (((b ≡ true) × (p ≡ f r)) ⊎ ((b ≡ false) × (p ≡ r)))
before_change f true none p e = cc
before_change f false none p e = cc
before_change f true (some r) p e = (r, refl, inl (refl, sym (some-injective (f r) p e)))
before_change f false (some r) p e = (r, refl, inr (refl, sym (some-injective r p e)))

before_update :
    (f : Sidecar → Sidecar) (id q : ℕ) (s : Supervisor) (p : Sidecar)
    → lookup q (update f id s).procs ≡ some p
    → (r : Sidecar) × (lookup q s.procs ≡ some r)
      × (((nat_beq id q ≡ true) × (p ≡ f r)) ⊎ ((nat_beq id q ≡ false) × (p ≡ r)))
unfolding update
before_update f id q s p at =
    before_change f (nat_beq id q) (lookup q s.procs) p
      (sym (lookup-change f id q (lookup id s.procs) s.procs refl) ∙ at)

shutdown-Kept : (s : Supervisor) (id : ℕ) → Kept s → Kept (shutdown s id)
unfolding shutdown update
shutdown-Kept s id k = (
  k.0,
  λ q p at.
      let (r, was, how) =
        before_update (λ p. record p { shut = true }) id q
          (record s { ending = without id s.ending }) p at in
      elim how [
        | inl (b, e) ↦ subst (λ x. tracked (shutdown s id) q x ≡ true) (sym e) (ground arith)
        | inr (b, e) ↦
            subst (λ x. tracked (shutdown s id) q x ≡ true) (sym e)
              (ground (
                arith,
                k.1 q r was,
                b,
                without_lem q id s.ending,
                nat_beq_iff id q,
                nat_beq_iff q id,
              ))
      ],
)

exit-Kept : (s : Supervisor) (id : ℕ) → Kept s → Kept (exit s id)
unfolding exit update
exit-Kept s id k = (
  k.0,
  λ q p at.
      let (r, was, how) = before_update (λ p. record p { exited = true }) id q s p at in
      elim how [
        | inl (b, e) ↦ subst (λ x. tracked (exit s id) q x ≡ true) (sym e) (ground arith)
        | inr (b, e) ↦ subst (λ x. tracked (exit s id) q x ≡ true) (sym e) (k.1 q r was)
      ],
)

touch-Kept : (s : Supervisor) (now id : ℕ) → Kept s → Kept (touch now id s)
unfolding touch update
touch-Kept s now id k = (
  k.0,
  λ q p at.
      let (r, was, how) = before_update (λ p. record p { last_used = now }) id q s p at in
      elim how [
        | inl (b, e) ↦ subst (λ x. tracked (touch now id s) q x ≡ true) (sym e) (k.1 q r was)
        | inr (b, e) ↦ subst (λ x. tracked (touch now id s) q x ≡ true) (sym e) (k.1 q r was)
      ],
)

checked-Kept : (s : Supervisor) (now : ℕ) (o : Option ℕ) → Kept s → Kept (checked s now o).0
checked-Kept s now none k = k
checked-Kept s now (some id) k =
    pick (λ (x : Supervisor × Checked). Kept x.0) (is_alive s id) _ _ (λ h. touch-Kept s now id k)
      (λ h. k)

double_check-Kept :
    (s : Supervisor) (now id : ℕ) (new : Sidecar) (o : Option ℕ)
    → s.stopped ≡ false
    → lookup new.plugin s.sidecars ≡ o
    → lookup id s.procs ≡ some new
    → Kept s
    → Kept (double_check s now new.plugin id o).0
double_check-Kept s now id new none on e at k = put-Kept s id new none on e (λ other h. cc) at k
double_check-Kept s now id new (some other) on e at k =
    pick (λ (x : Supervisor × Option ℕ). Kept x.0) (is_alive s other) _ _
      (λ h. touch-Kept (abandon id s) now other (abandon-Kept s id k))
      (λ h.
        put-Kept s id new (some other) on e
          (λ x ex. ap (is_alive s) (some-injective x other (sym ex)) ∙ h) at k)

Step-Kept : {s t : Supervisor} → Step s t → Kept s → Kept t
unfolding ensure_check ensure_insert kill
Step-Kept {s} (checks now name) k =
    pick (λ (x : Supervisor × Checked). Kept x.0) s.stopped _ _ (λ h. k)
      (λ h. checked-Kept s now (lookup name s.sidecars) k)
Step-Kept {s} (spawns now name) k = spawn-Kept s now name k
Step-Kept {s} (inserts now id p at) k =
    pick (λ (x : Supervisor × Option ℕ). Kept x.0) s.stopped _ _ (λ h. abandon-Kept s id k)
      (λ h. double_check-Kept s now id p (lookup p.plugin s.sidecars) h refl at k)
Step-Kept {s} (kills name) k = take_out-Kept s name (lookup name s.sidecars) refl k
Step-Kept {s} stops k = stop-Kept s k
Step-Kept {s} (shuts id) k = shutdown-Kept s id k
Step-Kept {s} (exits id) k = exit-Kept s id k
Step-Kept {s} (reaps id p at out) k = reap-Kept s id p at out k

Reachable-Kept : {s : Supervisor} → Reachable s → Kept s
unfolding new_supervisor lookup
Reachable-Kept started = (λ h. refl, λ q p at. cc)
Reachable-Kept (then_step r step) = Step-Kept step (Reachable-Kept r)

-- Whatever the goroutines of a supervisor do and in whichever order, no process is lost: each one
-- that was started has ended, or was told to, or stands in the map under its plugin, or belongs to a
-- goroutine that is about to put it there or to shut it down.
pub Reachable-tracked :
    (s : Supervisor) (id : ℕ) (p : Sidecar)
    → Reachable s
    → lookup id s.procs ≡ some p
    → tracked s id p ≡ true
Reachable-tracked s id p r at = let (empties, all) = Reachable-Kept r in all id p at

-- Once `Stop` was called the map holds no sidecar, whatever calls of `Ensure` were under way.
pub stopped_empties : (s : Supervisor) → Reachable s → s.stopped ≡ true → s.sidecars ≡ []
stopped_empties s r stopped = let (empties, all) = Reachable-Kept r in empties stopped

-- When `Stop` was called and no goroutine of `Ensure`, `Kill` or `Stop` is left, every process that the
-- supervisor started has ended or was told to.
pub stopped_orphans :
    (s : Supervisor) (id : ℕ) (p : Sidecar)
    → Reachable s
    → s.stopped ≡ true
    → s.starting ≡ []
    → s.ending ≡ []
    → lookup id s.procs ≡ some p
    → p.exited || p.shut ≡ true
unfolding lookup
stopped_orphans s id p r stopped none_starting none_ending at =
    let kept = Reachable-Kept r in
    let full = kept.1 id p at in
    ground (
      arith,
      full,
      ap (one_of id) none_starting,
      ap (one_of id) none_ending,
      ap (λ m. holds (lookup p.plugin m) id) (kept.0 stopped),
    )
