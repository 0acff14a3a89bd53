-- ===== src/Plugin/Supervisor/Ensure.antt =====
-- plugin/host/supervisor.go, `Ensure`: what it returns.
use mathlib.Core.Option.{some-injective}
use opendray_v2_lab.Common.Dict.{lookup, lookup-insert}
use opendray_v2_lab.Common.{
  ℕ, ◌≡◌, ◌⊎◌, inl, inr, refl, sym, ap, pick, ◌∙◌, true, Option, none, some, String, nat_eq,
  string_eq, arith,
}
use opendray_v2_lab.Plugin.Supervisor.{
  Supervisor, is_alive, update, touch, abandon, put, double_check, ensure_insert,
}

-- What `Ensure` answers, against the map as it was.
abbrev Answers : Supervisor → String → ℕ → ℕ → Supervisor × Option ℕ → Type 0
Answers s name id r x =
    x.1 ≡ some r
    → (lookup name x.0.sidecars ≡ some r)
      × ((r ≡ id) ⊎ ((lookup name s.sidecars ≡ some r) × (is_alive s r ≡ true)))

put-Answers :
    (s : Supervisor) (name : String) (id r : ℕ) → Answers s name id r (put name id s, some id)
unfolding put
put-Answers s name id r h =
    let new = some-injective id r h in
    (
      lookup-insert name name id s.sidecars ∙ ground (arith, new, string_eq.equals_iff name name),
      inl (sym new),
    )

double_check-Answers :
    (s : Supervisor) (now : ℕ) (name : String) (id r : ℕ) (o : Option ℕ)
    → lookup name s.sidecars ≡ o
    → Answers s name id r (double_check s now name id o)
unfolding touch update abandon
double_check-Answers s now name id r none e = put-Answers s name id r
double_check-Answers s now name id r (some other) e =
    pick (Answers s name id r) (is_alive s other) _ _
      (λ up h.
        let same = some-injective other r h in
        (e ∙ h, inr (e ∙ h, ap (is_alive s) (sym same) ∙ up)))
      (λ down. put-Answers s name id r)

-- A successful `Ensure` that had to start a process returns the process that the map then holds for
-- the plugin: its own, or a live one that another call had put there meanwhile, which stays.
pub ensure_insert_lem :
    (s : Supervisor) (now : ℕ) (name : String) (id r : ℕ)
    → (ensure_insert s now name id).1 ≡ some r
    → (lookup name (ensure_insert s now name id).0.sidecars ≡ some r)
      × ((r ≡ id) ⊎ ((lookup name s.sidecars ≡ some r) × (is_alive s r ≡ true)))
unfolding ensure_insert
ensure_insert_lem s now name id r =
    pick (Answers s name id r) s.stopped _ _ (λ done h. cc)
      (λ on. double_check-Answers s now name id r (lookup name s.sidecars) refl)
