-- ===== src/Plugin/Install/Pending.antt =====
-- plugin/install/consent.go: what the janitor's round means to those who hold a token.
use opendray_v2_lab.Common.Dict.{lookup, Distinct}
use opendray_v2_lab.Common.{
  ℕ, ◌≡◌, ◌≤◌, refl, ap, ◌∙◌, [], ◌∷◌, Option, none, some, Bytes, bytes_eq, arith,
}
use opendray_v2_lab.Plugin.Install.{PendingInstall, PendingStore, alive, take, reap}

alive_later :
    {P : Type 0} (now later : ℕ) (o : Option (PendingInstall P))
    → now ≤ later
    → alive later (alive now o) ≡ alive later o
alive_later now later none h = refl
alive_later now later (some p) h = ground arith

-- What is left under a token.
lookup-reap :
    {P : Type 0} (now : ℕ) (token : Bytes) (s : PendingStore P)
    → Distinct s
    → lookup token (reap now s).1 ≡ alive now (lookup token s)
unfolding reap lookup
lookup-reap now token [] d = refl
lookup-reap now token ((key, p) ∷ s) d =
    ground (arith, lookup-reap now token s d.1, bytes_eq.equals_iff key token, ap (alive now) d.0)

-- A round of the janitor takes no install from anyone: a Confirm or a look at a token, at that time or
-- later, finds after the round what it would have found without it.
pub reap-take :
    {P : Type 0} (now later : ℕ) (token : Bytes) (s : PendingStore P)
    → Distinct s
    → now ≤ later
    → (take later token (reap now s).1).0 ≡ (take later token s).0
unfolding take
reap-take now later token s d h =
    ap (alive later) (lookup-reap now token s d) ∙ alive_later now later (lookup token s) h
