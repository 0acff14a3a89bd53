-- ===== src/Bridge/Gate/Expand.antt =====
-- plugin/bridge/capabilities_expand.go: path variables in grants and targets.
use opendray_v2_lab.Go.Strings.{contains, replace_all}
use opendray_v2_lab.Common.{
  ℕ, Bool, not, ◌&&◌, List, [], ◌∷◌, Bytes, codes, bytes_beq, if◌then◌else◌, has_prefix, map,
}
use opendray_v2_lab.Bridge.Fs.{match_fs_path}
use opendray_v2_lab.Bridge.Gate.{
  Gate, Need, Permissions, AuditEvent, Verdict, verdict_of, not_granted, parse_fs_perm, conclude,
  with_permissions, check,
}

pub record PathVarCtx : Type 0 where
  pub workspace : Bytes
  pub home : Bytes
  pub data_dir : Bytes
  pub tmp : Bytes

-- One variable, if it has a value.
unfoldable pub substitute : Bytes → Bytes → Bytes → Bytes
substitute pattern var [] = pattern
substitute pattern var (c ∷ value) = replace_all pattern var (c ∷ value)

unfoldable pub expand_path_vars : Bytes → PathVarCtx → Bytes
unfolding substitute
expand_path_vars pattern ctx =
    if not (contains pattern (codes "${"))
    then pattern
    else substitute
        (substitute
          (substitute (substitute pattern (codes "${workspace}") ctx.workspace) (codes "${home}")
            ctx.home)
          (codes "${dataDir}") ctx.data_dir)
        (codes "${tmp}") ctx.tmp

unfoldable pub expand_glob_list : List Bytes → PathVarCtx → List Bytes
expand_glob_list src vars = map (λ glob. expand_path_vars glob vars) src

abbrev pub no_vars : PathVarCtx → Bool
no_vars vars =
    bytes_beq vars.workspace []
    && (bytes_beq vars.home [] && (bytes_beq vars.data_dir [] && bytes_beq vars.tmp []))

-- The decision of `checkFSExpanded` once the permissions are known.
unfoldable pub decide_expanded :
    Gate → ℕ → Bytes → Need → PathVarCtx → Permissions → List AuditEvent → Verdict × List AuditEvent
decide_expanded g elapsed plugin need vars perms rows =
    let (reads, writes) = parse_fs_perm g.json perms.fs in
    let target = expand_path_vars need.target vars in
    if bytes_beq need.cap (codes "fs.read")
    then conclude g elapsed plugin need
        (verdict_of (match_fs_path (expand_glob_list reads vars) target)
          (not_granted (codes "fs.read") target))
        rows
    else if bytes_beq need.cap (codes "fs.write")
    then conclude g elapsed plugin need
        (verdict_of (match_fs_path (expand_glob_list writes vars) target)
          (not_granted (codes "fs.write") target))
        rows
    else check g elapsed plugin (record { cap = need.cap; target = target }) rows

unfoldable pub check_fs_expanded :
    Gate → ℕ → Bytes → Need → PathVarCtx → List AuditEvent → Verdict × List AuditEvent
check_fs_expanded g elapsed plugin need vars rows =
    with_permissions g elapsed plugin need (decide_expanded g elapsed plugin need vars) rows

unfoldable pub check_expanded :
    Gate → ℕ → Bytes → Need → PathVarCtx → List AuditEvent → Verdict × List AuditEvent
check_expanded g elapsed plugin need vars rows =
    if not (has_prefix need.cap (codes "fs."))
    then check g elapsed plugin need rows
    else if no_vars vars
    then check g elapsed plugin need rows
    else check_fs_expanded g elapsed plugin need vars rows
