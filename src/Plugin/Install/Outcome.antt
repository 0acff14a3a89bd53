-- ===== src/Plugin/Install/Outcome.antt =====
-- plugin/install/install.go: what Confirm leaves behind, on each of its ways out.
use opendray_v2_lab.Common.Dict.{lookup, insert, delete, lookup-insert, lookup-delete}
use opendray_v2_lab.Common.{
  ◌+◌, ◌≡◌, ◌≢◌, refl, sym, ap, ◌∙◌, ◌⊎◌, inl, inr, Bool, true, false, not, List, [], Option, none,
  some, Bytes, bytes_eq, Option-cases, pick, arith,
}
use opendray_v2_lab.Plugin.Install.{
  PendingInstall, put, Bundle, Db, Runtime, Installer, Answers, Step, commit_tx, Confirmed,
  confirmed, token_not_found, failed, manifest_of, rename, begin_tx, clear_tombstone_row,
  upsert_plugin_row, upsert_consent_row, make_final_parent, make_trash_dir, trash_final, move_final,
}
use opendray_v2_lab.Plugin.Install.Confirm.{
  with_rows, registered_rows, final_dir, trash_path, retry, moved_back, commit_moved, after_move,
  move_bundle, after_trash, clear_final, in_tx, with_perms, with_manifest,
}

module _ (works : Bool) (src dst : Bytes) (bundles bundles' : List (Bytes × Bundle)) where
  -- A directory that is moved stands at the new path, no more at the old, and no other is touched. Nothing stood at
  -- the new path.
  pub rename_moves :
      rename works src dst bundles ≡ some bundles'
      → (works ≡ true)
        × (lookup dst bundles' ≡ lookup src bundles)
        × ((path : Bytes) → src ≢ path → dst ≢ path → lookup path bundles' ≡ lookup path bundles)
        × (src ≢ dst → lookup src bundles' ≡ none)
  unfolding rename
  rename_moves h = elim (Option-cases (lookup src bundles)) [
    | inl e ↦ absurd (ground (arith, e, h))
    | inr (bundle, e) ↦ elim (Option-cases (lookup dst bundles)) [
      | inr (there, occupied) ↦ absurd (ground (arith, e, occupied, h))
      | inl free ↦
          let is : insert dst bundle (delete src bundles) ≡ bundles' = ground (arith, e, free, h) in
          (
            ground (arith, e, free, h),
            sym (ap (lookup dst) is)
                ∙ (lookup-insert dst dst bundle (delete src bundles)
                    ∙ ground (arith, bytes_eq.equals_iff dst dst, e)),
            λ path other other'.
                sym (ap (lookup path) is)
                ∙ (lookup-insert dst path bundle (delete src bundles)
                    ∙ ground (
                      arith,
                      bytes_eq.equals_iff dst path,
                      other',
                      lookup-delete src path bundles,
                      bytes_eq.equals_iff src path,
                      other,
                    )),
            λ apart.
                let apart' : dst ≢ src = λ same. apart (sym same) in
                sym (ap (lookup src) is)
                ∙ (lookup-insert dst src bundle (delete src bundles)
                    ∙ ground (
                      arith,
                      bytes_eq.equals_iff dst src,
                      apart',
                      lookup-delete src src bundles,
                      bytes_eq.equals_iff src src,
                    )),
          )
    ]
  ]

  rename_refused :
      (b : Bundle)
      → lookup src bundles ≡ some b
      → lookup dst bundles ≡ none
      → rename works src dst bundles ≡ none
      → works ≡ false
  unfolding rename
  rename_refused b has free h = ground (arith, has, free, h)

module _ {P : Type 0} {R : Type 0} (rt : Runtime R) (join : List Bytes → Bytes)
    (marshal : P → Option Bytes) (a : Answers) (pend : PendingInstall P) (i : Installer P R) where
  -- A failure changes neither the database nor what the rest of the program sees; the install pends
  -- again, and its directory stands where it stood, unless it could not be moved back.
  abbrev pub Failed : Step → Installer P R → Type 0
  Failed why j =
      (j.db ≡ i.db)
      × (j.runtime ≡ i.runtime)
      × (j.audit ≡ i.audit)
      × (j.changes ≡ i.changes)
      × (j.pending ≡ put pend i.pending)
      × ((lookup pend.staged_path j.bundles ≡ lookup pend.staged_path i.bundles)
          ⊎ ((why ≡ commit_tx) × (a.move_back ≡ false)))

  -- What was staged stands in the final directory and is registered, and the rows are written.
  abbrev pub Done : Db → Installer P R → Type 0
  Done db j =
      (j.db ≡ registered_rows rt join marshal (lookup pend.staged_path i.bundles) db)
      × (j.runtime ≡ rt.register (lookup pend.staged_path i.bundles) i.runtime)
      × (j.changes ≡ i.changes + 1)
      × (j.pending ≡ i.pending)
      × (lookup (final_dir rt join marshal i pend) j.bundles ≡ lookup pend.staged_path i.bundles)

  abbrev pub Good : Db → Installer P R × Confirmed → Type 0
  Good db (j, confirmed) = Done db j
  Good db (j, token_not_found) = ⊥
  Good db (j, failed why) = Failed why j

  module _ (db : Db) (apart : pend.staged_path ≢ final_dir rt join marshal i pend) where
    retry-Good :
        (why : Step) (bundles : List (Bytes × Bundle))
        → lookup pend.staged_path bundles ≡ lookup pend.staged_path i.bundles
        → Good db (retry rt join marshal pend why (record i { bundles = bundles }))
    retry-Good why bundles stands = (refl, refl, refl, refl, refl, inl stands)

    -- The bundle has been moved; the commit may fail.
    commit_moved-Good :
        (bundles : List (Bytes × Bundle))
        → lookup (final_dir rt join marshal i pend) bundles ≡ lookup pend.staged_path i.bundles
        → lookup pend.staged_path bundles ≡ none
        → (b : Bundle) → lookup pend.staged_path i.bundles ≡ some b
        → Good db (commit_moved rt join marshal a pend db (record i { bundles = bundles }))
    commit_moved-Good bundles stands gone b has =
        pick (Good db) a.commit _ _
          (λ e. (
            ap (λ o. registered_rows rt join marshal o db) stands,
            ap (λ o. rt.register o i.runtime) stands,
            refl,
            refl,
            stands,
          ))
          (λ e.
            go (rename a.move_back (final_dir rt join marshal i pend) pend.staged_path bundles)
              refl)
      where
        go :
            (o : Option (List (Bytes × Bundle)))
            → rename a.move_back (final_dir rt join marshal i pend) pend.staged_path bundles ≡ o
            → Good db (
                retry rt join marshal pend commit_tx
                  (moved_back rt join marshal a pend (record i { bundles = bundles }) o))
        go none e = (
          refl,
          refl,
          refl,
          refl,
          refl,
          inr (
            refl,
            rename_refused a.move_back (final_dir rt join marshal i pend) pend.staged_path bundles
                [] b (stands ∙ has) gone e,
          ),
        )
        go (some bundles') e =
            let (works, moved, others, left_free) =
              rename_moves a.move_back (final_dir rt join marshal i pend) pend.staged_path bundles
                bundles' e in
            (refl, refl, refl, refl, refl, inl (moved ∙ stands))

    move_bundle-Good :
        (bundles : List (Bytes × Bundle))
        → lookup pend.staged_path bundles ≡ lookup pend.staged_path i.bundles
        → (b : Bundle) → lookup pend.staged_path i.bundles ≡ some b
        → Good db (move_bundle rt join marshal a pend db (record i { bundles = bundles }))
    move_bundle-Good bundles stands b has =
        go (rename a.move_staged pend.staged_path (final_dir rt join marshal i pend) bundles) refl
      where
        go :
            (o : Option (List (Bytes × Bundle)))
            → rename a.move_staged pend.staged_path (final_dir rt join marshal i pend) bundles ≡ o
            → Good db (after_move rt join marshal a pend db (record i { bundles = bundles }) o)
        go none e = retry-Good move_final bundles stands
        go (some bundles') e =
            let (works, moved, others, left_free) =
              rename_moves a.move_staged pend.staged_path (final_dir rt join marshal i pend) bundles
                bundles' e in
            commit_moved-Good bundles' (moved ∙ stands) (left_free apart) b has

    clear_final-Good :
        (b : Bundle)
        → lookup pend.staged_path i.bundles ≡ some b
        → (trash_path rt join marshal a.stamp i pend ≢ pend.staged_path)
        → Good db (
            clear_final rt join marshal a pend db i
              (lookup (final_dir rt join marshal i pend) i.bundles))
    clear_final-Good b has apart' = go (lookup (final_dir rt join marshal i pend) i.bundles)
      where
        after :
            (o : Option (List (Bytes × Bundle)))
            → rename a.move_to_trash
                (final_dir rt join marshal i pend)
                (trash_path rt join marshal a.stamp i pend)
                i.bundles
              ≡ o
            → Good db (after_trash rt join marshal a pend db i o)
        after none e = retry-Good trash_final i.bundles refl
        after (some bundles') e =
            let (works, moved, others, left_free) =
              rename_moves a.move_to_trash (final_dir rt join marshal i pend)
                (trash_path rt join marshal a.stamp i pend) i.bundles bundles' e in
            move_bundle-Good bundles' (others pend.staged_path (λ same. apart (sym same)) apart') b
              has

        go : (o : Option Bundle) → Good db (clear_final rt join marshal a pend db i o)
        go none = move_bundle-Good i.bundles refl b has
        go (some old) =
            pick (Good db) (not a.stat) _ _ (λ e. move_bundle-Good i.bundles refl b has)
              (λ e.
                pick (Good db) (not a.make_trash) _ _
                  (λ e'. retry-Good make_trash_dir i.bundles refl)
                  (λ e'.
                    after
                      (rename a.move_to_trash (final_dir rt join marshal i pend)
                        (trash_path rt join marshal a.stamp i pend) i.bundles)
                      refl))

    in_tx-Good :
        (b : Bundle)
        → lookup pend.staged_path i.bundles ≡ some b
        → (trash_path rt join marshal a.stamp i pend ≢ pend.staged_path)
        → Good db (in_tx rt join marshal a pend db i)
    in_tx-Good b has apart' =
        pick (Good db) (not a.begin) _ _ (λ e. retry-Good begin_tx i.bundles refl)
          (λ e.
            pick (Good db) (not a.clear_tombstone) _ _
              (λ e'. retry-Good clear_tombstone_row i.bundles refl)
              (λ e'.
                pick (Good db) (not a.upsert_plugin) _ _
                  (λ e''. retry-Good upsert_plugin_row i.bundles refl)
                  (λ e''.
                    pick (Good db) (not a.upsert_consent) _ _
                      (λ f. retry-Good upsert_consent_row i.bundles refl)
                      (λ f.
                        pick (Good db) (not a.make_parent) _ _
                          (λ f'. retry-Good make_final_parent i.bundles refl)
                          (λ f'. clear_final-Good b has apart')))))

  -- The rows that a Confirm writes are those of what was staged.
  abbrev pub Written : Installer P R × Confirmed → Type 0
  Written (j, confirmed) =
      (b : Bundle) × (manifest : Bytes) × (perms_json : Bytes) × (lookup pend.staged_path i.bundles
        ≡ some b)
      × (b.manifest_json ≡ some manifest)
      × (marshal pend.perms ≡ some perms_json)
      × Done (with_rows pend manifest perms_json i.db) j
  Written (j, token_not_found) = ⊥
  Written (j, failed why) = Failed why j

  module _ (apart : pend.staged_path ≢ final_dir rt join marshal i pend)
      (apart' : trash_path rt join marshal a.stamp i pend ≢ pend.staged_path) where
    Good-Written :
        (b : Bundle) (manifest perms_json : Bytes)
        → lookup pend.staged_path i.bundles ≡ some b
        → b.manifest_json ≡ some manifest
        → marshal pend.perms ≡ some perms_json
        → (r : Installer P R × Confirmed) → Good (with_rows pend manifest perms_json i.db) r
        → Written r
    Good-Written b manifest perms_json has readable encoded (j, confirmed) g =
        (b, manifest, perms_json, has, readable, encoded, g)
    Good-Written b manifest perms_json has readable encoded (j, token_not_found) g = g
    Good-Written b manifest perms_json has readable encoded (j, failed why) g = g

    pub with_manifest-Written :
        Written
          (with_manifest rt join marshal a pend i (manifest_of (lookup pend.staged_path i.bundles)))
    with_manifest-Written = find (lookup pend.staged_path i.bundles) refl
      where
        encode :
            (b : Bundle) (manifest : Bytes)
            → lookup pend.staged_path i.bundles ≡ some b
            → b.manifest_json ≡ some manifest
            → (o : Option Bytes) → marshal pend.perms ≡ o
            → Written (with_perms rt join marshal a pend i manifest o)
        encode b manifest has readable none e = (refl, refl, refl, refl, refl, inl refl)
        encode b manifest has readable (some perms_json) e =
            Good-Written b manifest perms_json has readable e
              (in_tx rt join marshal a pend (with_rows pend manifest perms_json i.db) i)
              (in_tx-Good (with_rows pend manifest perms_json i.db) apart b has apart')

        read :
            (b : Bundle)
            → lookup pend.staged_path i.bundles ≡ some b
            → (o : Option Bytes) → b.manifest_json ≡ o
            → Written (with_manifest rt join marshal a pend i o)
        read b has none e = (refl, refl, refl, refl, refl, inl refl)
        read b has (some manifest) e = encode b manifest has e (marshal pend.perms) refl

        find :
            (o : Option Bundle)
            → lookup pend.staged_path i.bundles ≡ o
            → Written (with_manifest rt join marshal a pend i (manifest_of o))
        find none e = (refl, refl, refl, refl, refl, inl refl)
        find (some b) e = read b e b.manifest_json refl
