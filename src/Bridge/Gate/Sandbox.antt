-- ===== src/Bridge/Gate/Sandbox.antt =====
-- What a grant under a path variable comes to.
use opendray_v2_lab.Go.Strings.{contains, has_suffix, replace_all, replace_from}
use opendray_v2_lab.Go.Glob.Literal.{path_match-first}
use opendray_v2_lab.Go.Path.{slash, clean, is_abs, is_abs-clean, or_root, rooted, IsPlainPart}
use mathlib.Core.List.Memᴰ
use opendray_v2_lab.Common.{
  ℕ, suc, ◌+◌, ◌-◌, length, ◌≡◌, ◌≢◌, refl, ap, ◌∙◌, sym, Bool, true, false, List, [], ◌∷◌, ◌++◌,
  arith, Bytes, codes, Bool-cases, inl, inr, Memᴰ, All,
}
use opendray_v2_lab.Bridge.Fs.{match_fs_path, match_fs_pattern, descendants}
use opendray_v2_lab.Bridge.Fs.Confined.{below, match_cons, match_fs_path-below}
use opendray_v2_lab.Bridge.Gate.Expand.{PathVarCtx, expand_path_vars, expand_glob_list, substitute}

abbrev pub workspace_var : Bytes
workspace_var = codes "${workspace}"

-- Only the workspace is known.
abbrev pub in_workspace : Bytes → PathVarCtx
in_workspace w = record { workspace = w; home = []; data_dir = []; tmp = [] }

expand_workspace :
    (c : ℕ) (w : Bytes)
    → expand_path_vars (workspace_var ++ descendants) (in_workspace (c ∷ w)) ≡ below (c ∷ w)
unfolding expand_path_vars contains replace_all
expand_workspace c w = refl

-- A plugin that is granted everything below its workspace, and no more, is admitted to a path of
-- that workspace only: the cleaned target begins with the workspace and a slash, and it is
-- built of components none of which holds a slash or is empty, `.` or `..`.
pub workspace_sandbox :
    (w target : Bytes)
    → w ≢ []
    → match_fs_path
        (expand_glob_list ((workspace_var ++ descendants) ∷ []) (in_workspace w))
        (expand_path_vars target (in_workspace w))
      ≡ true
    → (rest : Bytes) × (parts : List Bytes) × (clean (expand_path_vars target (in_workspace w))
        ≡ (w ++ codes "/") ++ rest)
      × (clean (expand_path_vars target (in_workspace w)) ≡ or_root (rooted parts))
      × All IsPlainPart parts
workspace_sandbox [] target ne h = absurd (ne refl)
workspace_sandbox (c ∷ w) target ne h =
    let at : Bytes = expand_path_vars target (in_workspace (c ∷ w)) in
    let (base, rest, parts, member, absolute, continues, plain, all_plain) =
      match_fs_path-below ((c ∷ w) ∷ []) at
        (sym (ap (λ g. match_fs_path (g ∷ []) at) (expand_workspace c w)) ∙ one_grant at h) in
    (rest, parts, continues ∙ ap (λ b. (b ++ codes "/") ++ rest) (only member), plain, all_plain)
  where
    one_grant :
        (p : Bytes)
        → match_fs_path
            (expand_glob_list ((workspace_var ++ descendants) ∷ []) (in_workspace (c ∷ w)))
            p
          ≡ true
        → match_fs_path
            (expand_path_vars (workspace_var ++ descendants) (in_workspace (c ∷ w)) ∷ [])
            p
          ≡ true
    one_grant p e = unfold expand_glob_list in e

    only : {b : Bytes} → Memᴰ b ((c ∷ w) ∷ []) → b ≡ c ∷ w
    only (Memᴰ.head e) = e
    only (Memᴰ.tail m) = absurd (Memᴰ.not-nil m)

-- Substituting another variable leaves a leading workspace variable where it is.
keeps_home :
    (r v : Bytes)
    → (r' : Bytes) × (substitute (workspace_var ++ r) (codes "${home}") v ≡ workspace_var ++ r')
unfolding substitute replace_all
keeps_home r [] = (r, refl)
keeps_home r (c ∷ v) = (replace_from (codes "${home}") (c ∷ v) 0 r, refl)

keeps_data_dir :
    (r v : Bytes)
    → (r' : Bytes) × (substitute (workspace_var ++ r) (codes "${dataDir}") v ≡ workspace_var ++ r')
unfolding substitute replace_all
keeps_data_dir r [] = (r, refl)
keeps_data_dir r (c ∷ v) = (replace_from (codes "${dataDir}") (c ∷ v) 0 r, refl)

keeps_tmp :
    (r v : Bytes)
    → (r' : Bytes) × (substitute (workspace_var ++ r) (codes "${tmp}") v ≡ workspace_var ++ r')
unfolding substitute replace_all
keeps_tmp r [] = (r, refl)
keeps_tmp r (c ∷ v) = (replace_from (codes "${tmp}") (c ∷ v) 0 r, refl)

expand_unset :
    (r : Bytes) (vars : PathVarCtx)
    → vars.workspace ≡ []
    → (r' : Bytes) × (expand_path_vars (workspace_var ++ r) vars ≡ workspace_var ++ r')
expand_unset r vars e =
    let (r1, e1) = keeps_home r vars.home in
    let (r2, e2) = keeps_data_dir r1 vars.data_dir in
    let (r3, e3) = keeps_tmp r2 vars.tmp in
    (
      r3,
      unset
          ∙ ap
              (λ s.
                substitute (substitute s (codes "${dataDir}") vars.data_dir) (codes "${tmp}")
                  vars.tmp)
              e1
          ∙ ap (λ s. substitute s (codes "${tmp}") vars.tmp) e2
          ∙ e3,
    )
  where
    unset :
        expand_path_vars (workspace_var ++ r) vars
        ≡ substitute
            (substitute
              (substitute (workspace_var ++ r) (codes "${home}") vars.home)
              (codes "${dataDir}")
              vars.data_dir)
            (codes "${tmp}")
            vars.tmp
    unset =
        unfold expand_path_vars contains substitute in
        ap
          (λ w.
            substitute
              (substitute
                (substitute (substitute (workspace_var ++ r) workspace_var w) (codes "${home}")
                  vars.home)
                (codes "${dataDir}") vars.data_dir)
              (codes "${tmp}") vars.tmp)
          e

-- A pattern that begins with the variable's dollar sign matches no absolute path.
dollar_pattern : (r p : Bytes) → is_abs p ≡ true → match_fs_pattern (workspace_var ++ r) p ≡ false
unfolding is_abs match_fs_pattern
dollar_pattern r [] e = cc
dollar_pattern r (b ∷ p) e =
    let pattern : Bytes = workspace_var ++ r in
    let is_slash : b ≡ slash = ground arith in
    elim (Bool-cases (has_suffix pattern descendants)) [
      | inl tree ↦
          let size : length pattern - 3 ≡ suc (length r + 8) = omega arith in
          rw (tree, size) (ground (arith, is_slash))
      | inr single ↦ rw single (path_match-first b'$' b _ p (omega arith) (omega (arith, is_slash)))
    ]

-- A grant under the workspace variable admits no path at all while no workspace is known, whatever
-- the other variables hold: the expansion fails closed.
pub workspace_unset :
    (rest target : Bytes) (vars : PathVarCtx)
    → vars.workspace ≡ []
    → match_fs_path (expand_glob_list ((workspace_var ++ rest) ∷ []) vars) target ≡ false
workspace_unset rest target vars e =
    let (rest', same) = expand_unset rest vars e in
    unfold expand_glob_list in
    (ap (λ g. match_fs_path (g ∷ []) target) same
      ∙ no_match rest' (match_fs_path ((workspace_var ++ rest') ∷ []) target) refl)
  where
    no_match :
        (r' : Bytes) (b : Bool) → match_fs_path ((workspace_var ++ r') ∷ []) target ≡ b → b ≡ false
    no_match r' false h = refl
    no_match r' true h =
        let (absolute, hit) = (match_cons ((workspace_var ++ r') ∷ []) target).0 h in
        ground (arith, hit, dollar_pattern r' (clean target) (is_abs-clean target))
