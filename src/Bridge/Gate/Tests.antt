-- ===== src/Bridge/Gate/Tests.antt =====
-- The gate on concrete calls, and its theorems there.
use opendray_v2_lab.Go.Strings.{fields, has_suffix, equal_fold, cut_at, contains, replace_all}
use opendray_v2_lab.Go.Glob.{path_match}
use opendray_v2_lab.Go.Net.{to4, v4_prefix}
use opendray_v2_lab.Go.Path.{clean, is_abs, or_root, rooted, IsPlainPart}
use opendray_v2_lab.Common.{
  ℕ, ◌≡◌, ◌≢◌, ◌↔◌, refl, true, false, List, [], ◌∷◌, ◌++◌, arith, Bytes, codes, Option, none, some,
  Memᴰ, All, map,
}
use opendray_v2_lab.Bridge.Exec.{match_exec_globs, star}
use opendray_v2_lab.Bridge.Exec.Tokens.{Grants, match_exec_globs-tokens}
use opendray_v2_lab.Bridge.Fs.{match_fs_path, descendants}
use opendray_v2_lab.Bridge.Fs.Confined.{below, match_fs_path-below}
use opendray_v2_lab.Bridge.Http.{
  Url, is_private_host, match_http_url, match_http_pattern, match_named, split_rest, match_url_path,
}
use opendray_v2_lab.Bridge.Http.Private.{match_http_url-private}
use opendray_v2_lab.Bridge.Gate.{Gate, Json, Need, Permissions, no_permissions, found, parsed}
use opendray_v2_lab.Bridge.Gate.Expand.{expand_path_vars, expand_glob_list}
use opendray_v2_lab.Bridge.Gate.Sandbox.{workspace_var, in_workspace, workspace_sandbox}

git_log : match_exec_globs (codes "git *" ∷ []) (codes "git log -1") ≡ true
unfolding match_exec_globs fields path_match
git_log = refl

match_exec_globs-tokens_example :
    (match_exec_globs (codes "git *" ∷ []) (b'g' ∷ codes "it log -1") ≡ true) ↔ (
      ◌≢◌ {A = ℕ} b'g' b' '
      × ◌≢◌ {A = ℕ} b'g' 9
      × Grants (codes "git" ∷ []) star (fields (b'g' ∷ codes "it log -1")))
unfolding fields
match_exec_globs-tokens_example =
    match_exec_globs-tokens (codes "git *") (codes "git") [] star b'g' (codes "it log -1") refl

traversal : match_fs_path (below (codes "/w") ∷ []) (codes "/w/../etc/passwd") ≡ false
unfolding match_fs_path clean is_abs has_suffix
traversal = refl

inside : match_fs_path (map below (codes "/w" ∷ [])) (codes "/w/x/../a") ≡ true
unfolding match_fs_path clean is_abs has_suffix
inside = refl

match_fs_path-below_example :
    (base rest : Bytes) × (parts : List Bytes) × Memᴰ base (codes "/w" ∷ [])
    × (is_abs (codes "/w/x/../a") ≡ true)
    × (clean (codes "/w/x/../a") ≡ (base ++ codes "/") ++ rest)
    × (clean (codes "/w/x/../a") ≡ or_root (rooted parts))
    × All IsPlainPart parts
match_fs_path-below_example = match_fs_path-below (codes "/w" ∷ []) (codes "/w/x/../a") inside

-- A parser that knows two URLs' hosts.
abbrev metadata_url : Url
metadata_url = record {
  scheme = codes "https";
  host = codes "169.254.169.254";
  hostname = codes "169.254.169.254";
  path = codes "/latest";
}

abbrev api_url : Url
api_url = record {
  scheme = codes "https";
  host = codes "api.github.com";
  hostname = codes "api.github.com";
  path = codes "/user";
}

abbrev metadata_ip : Bytes
metadata_ip = v4_prefix ++ 169 ∷ 254 ∷ 169 ∷ 254 ∷ []

abbrev parse_metadata : Bytes → Option Url
parse_metadata raw = some metadata_url

abbrev parse_api : Bytes → Option Url
parse_api raw = some api_url

abbrev parse_metadata_ip : Bytes → Option Bytes
parse_metadata_ip host = some metadata_ip

abbrev parse_no_ip : Bytes → Option Bytes
parse_no_ip host = none

match_http_url-private_example :
    match_http_url parse_metadata parse_metadata_ip (codes "*" ∷ []) (codes "https://x") ≡ false
unfolding to4
match_http_url-private_example =
    match_http_url-private parse_metadata parse_metadata_ip (codes "*" ∷ []) (codes "https://x")
      metadata_url metadata_ip 169 254 169 254 refl refl refl (omega arith) (omega arith)
      (omega arith) (omega arith) refl

api_admitted :
    match_http_url parse_api parse_no_ip (codes "https://*.github.com/*" ∷ []) (codes "https://y")
    ≡ true
unfolding match_http_url is_private_host equal_fold match_http_pattern cut_at match_named path_match
    split_rest match_url_path
api_admitted = refl

-- A plugin with storage alone; a sink that keeps every row.
abbrev storage_only : Permissions
storage_only = record no_permissions { storage = true }

abbrev plain_json : Json
plain_json = record {
  to_permissions = λ raw. parsed storage_only;
  to_bool = λ raw. none;
  to_strings = λ raw. none;
  to_fs = λ raw. none;
}

abbrev gate : Gate
gate = record {
  load = λ plugin. found (codes "{}");
  audit = some (λ ev. true);
  json = plain_json;
  parse_url = parse_api;
  parse_ip = parse_no_ip;
}

abbrev wants_storage : Need
wants_storage = record { cap = codes "storage"; target = [] }

abbrev wants_watch : Need
wants_watch = record { cap = codes "fs.watch"; target = codes "${workspace}/a" }

expanded_inside :
    match_fs_path
      (expand_glob_list ((workspace_var ++ descendants) ∷ []) (in_workspace (codes "/w")))
      (expand_path_vars (codes "${workspace}/a") (in_workspace (codes "/w")))
    ≡ true
unfolding match_fs_path expand_glob_list expand_path_vars contains replace_all is_abs clean
    has_suffix
expanded_inside = refl

workspace_sandbox_example :
    (rest : Bytes) × (parts : List Bytes) × (clean
        (expand_path_vars (codes "${workspace}/a") (in_workspace (codes "/w")))
      ≡ (codes "/w" ++ codes "/") ++ rest)
    × (clean (expand_path_vars (codes "${workspace}/a") (in_workspace (codes "/w")))
        ≡ or_root (rooted parts))
    × All IsPlainPart parts
workspace_sandbox_example =
    workspace_sandbox (codes "/w") (codes "${workspace}/a") (λ e. cc) expanded_inside
