-- ===== src/Plugin/Install/Whole.antt =====
-- plugin/install/install.go: Confirm as a whole, from the token to the answer.
use opendray_v2_lab.Common.Dict.{lookup, delete, lookup-insert, lookup-delete}
use opendray_v2_lab.Common.{
  ℕ, ◌≡◌, ◌≢◌, refl, sym, ap, subst, ◌∙◌, ◌⊎◌, inl, inr, false, List, Option, none, some, Bytes,
  bytes_eq, ◌==◌, if◌then◌else◌, Bool-cases, arith, ltb,
}
use opendray_v2_lab.Plugin.Install.{
  PendingInstall, put, take, PluginRow, Runtime, Installer, Answers, Step, commit_tx, Confirmed,
  token_not_found, failed, manifest_of,
}
use opendray_v2_lab.Plugin.Install.Confirm.{final_dir, trash_path, with_manifest, confirm}
use opendray_v2_lab.Plugin.Install.Outcome.{Written, with_manifest-Written}

module _ {P : Type 0} {R : Type 0} (rt : Runtime R) (join : List Bytes → Bytes)
    (marshal : P → Option Bytes) (a : Answers) (now : ℕ) (i : Installer P R)
    (pend : PendingInstall P) (held : lookup pend.token i.pending ≡ some pend) where
  abbrev pub left : Installer P R
  left = record i { pending = delete pend.token i.pending }

  -- A token that is known and not out of time is taken; any other is not found.
  pub confirm_taken : confirm rt join marshal a now pend.token i ≡ (
      if ltb pend.expires_at now
      then (left, token_not_found)
      else with_manifest rt join marshal a pend left
          (manifest_of (lookup pend.staged_path i.bundles)))
  unfolding confirm take
  confirm_taken = elim (Bool-cases (ltb pend.expires_at now)) [
    | inl late ↦ rw (held, late) refl
    | inr early ↦ rw (held, early) refl
  ]

  pending_again : (path : Bytes) → lookup path (put pend left.pending) ≡ lookup path i.pending
  unfolding put
  pending_again path =
      lookup-insert pend.token path pend left.pending
      ∙ ground (
        arith,
        lookup-delete pend.token path i.pending,
        bytes_eq.equals_iff pend.token path,
        held,
      )

  module _ (apart : pend.staged_path ≢ final_dir rt join marshal i pend)
      (apart' : trash_path rt join marshal a.stamp i pend ≢ pend.staged_path) where
    confirm-Written :
        (j : Installer P R) (r : Confirmed)
        → r ≢ token_not_found
        → confirm rt join marshal a now pend.token i ≡ (j, r)
        → (ltb pend.expires_at now ≡ false) × Written rt join marshal a pend left (j, r)
    confirm-Written j r found h = elim (Bool-cases (ltb pend.expires_at now)) [
      | inl late ↦ absurd (
          found (
            ap (λ (x : Installer P R × Confirmed). x.1)
              (sym h
                ∙ (confirm_taken
                    ∙ ap
                        (λ b.
                          if b
                          then (left, token_not_found)
                          else with_manifest rt join marshal a pend left
                              (manifest_of (lookup pend.staged_path i.bundles)))
                        late))))
      | inr early ↦ (
        early,
        subst (Written rt join marshal a pend left)
            (sym (
                confirm_taken
                ∙ ap
                    (λ b.
                      if b
                      then (left, token_not_found)
                      else with_manifest rt join marshal a pend left
                          (manifest_of (lookup pend.staged_path i.bundles)))
                    early)
              ∙ h)
            (with_manifest-Written rt join marshal a pend left apart apart'),
      )
    ]

-- A Confirm that fails after its token was found leaves the database, the runtime, the audit log and
-- the watchers as they were, and every token pends as before, with the time it had; the staged
-- bundle stands where it stood, except after a failed commit behind which the move back fails too.
-- The staging directory is not the final one, and not the place in the trash.
pub confirm-failed :
    {P : Type 0} {R : Type 0} (rt : Runtime R) (join : List Bytes → Bytes)
    (marshal : P → Option Bytes) (a : Answers) (now : ℕ) (i j : Installer P R)
    (pend : PendingInstall P) (why : Step)
    → lookup pend.token i.pending ≡ some pend
    → pend.staged_path ≢ final_dir rt join marshal i pend
    → trash_path rt join marshal a.stamp i pend ≢ pend.staged_path
    → confirm rt join marshal a now pend.token i ≡ (j, failed why)
    → (j.db ≡ i.db)
      × (j.runtime ≡ i.runtime)
      × (j.audit ≡ i.audit)
      × (j.changes ≡ i.changes)
      × ((token : Bytes) → lookup token j.pending ≡ lookup token i.pending)
      × ((lookup pend.staged_path j.bundles ≡ lookup pend.staged_path i.bundles)
          ⊎ ((why ≡ commit_tx) × (a.move_back ≡ false)))
confirm-failed rt join marshal a now i j pend why held apart apart' h =
    let (early, (db, runtime, audit, changes, pending, stands)) =
      confirm-Written rt join marshal a now i pend held apart apart' j (failed why) (λ e. cc) h in
    (
      db,
      runtime,
      audit,
      changes,
      (λ token. ap (lookup token) pending ∙ pending_again rt join marshal a now i pend held token),
      stands,
    )

-- The row under a name, once a row has been written, or none.
abbrev pub written_again : Option (Bytes × PluginRow) → Bytes → Option PluginRow → Option PluginRow
written_again none name before = before
written_again (some (key, row)) name before = if key == name then some row else before
