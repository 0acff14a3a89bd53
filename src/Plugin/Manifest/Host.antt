-- ===== src/Plugin/Manifest/Host.antt =====
-- plugin/manifest_validate.go: validatePermissions and validateHostV1. Whether the build allows host plugins
-- (HostFormAllowed of plugin/host_os_ios.go and plugin/host_os_other.go) is an argument.
use opendray_v2_lab.Common.Order.{ℤ, pos, negsuc}
use opendray_v2_lab.Common.{
  ℕ, Bool, true, false, not, ◌||◌, List, [], ◌∷◌, ◌++◌, Option, none, some, Bytes, bytes_eq, codes,
  nat_beq, if◌then◌else◌,
}
use opendray_v2_lab.Go.Strings.{contains}
use opendray_v2_lab.Go.Decimal.{is_digit}
use opendray_v2_lab.Go.Regexp.{Regex, one, many, seq, alt, literal, match_string}
use opendray_v2_lab.Plugin.Contributions.{is_empty}
use opendray_v2_lab.Plugin.Manifest.{PermissionsV1, HostV1}
use opendray_v2_lab.Plugin.Manifest.Contributed.{one_of}
use opendray_v2_lab.Plugin.Manifest.Errors.{
  must_match, required, dots, negative, unsupported, ValidationError, report,
}
use opendray_v2_lab.Plugin.Manifest.Grammar.{is_upper}

abbrev pub read_write : List Bytes
read_write = codes "read" ∷ codes "write" ∷ []

abbrev pub clipboard_modes : List Bytes
clipboard_modes = codes "read" ∷ codes "write" ∷ codes "readwrite" ∷ []

unfoldable pub validate_permissions : PermissionsV1 → List ValidationError
validate_permissions p =
    one_of read_write (codes "permissions.session") p.session
    ++ (one_of clipboard_modes (codes "permissions.clipboard") p.clipboard
        ++ one_of read_write (codes "permissions.git") p.git)

-- ^(linux|darwin|windows)-(x64|arm64)$
abbrev pub re_platform_key : Regex
re_platform_key =
    seq (alt (literal (codes "linux")) (alt (literal (codes "darwin")) (literal (codes "windows"))))
      (seq (one (nat_beq b'-')) (alt (literal (codes "x64")) (literal (codes "arm64"))))

-- [A-Z_] and [A-Z0-9_]
abbrev pub is_env_start : ℕ → Bool
is_env_start c = is_upper c || nat_beq c b'_'

abbrev pub is_env_byte : ℕ → Bool
is_env_byte c = is_env_start c || is_digit c

-- ^[A-Z_][A-Z0-9_]*$
abbrev pub re_env_key : Regex
re_env_key = seq (one is_env_start) (many is_env_byte)

abbrev pub runtimes : List Bytes
runtimes =
    codes "binary"
    ∷ codes "node"
    ∷ codes "deno"
    ∷ codes "python3"
    ∷ codes "bun"
    ∷ codes "custom"
    ∷ []

abbrev pub restarts : List Bytes
restarts = codes "on-failure" ∷ codes "always" ∷ codes "never" ∷ []

abbrev pub protocols : List Bytes
protocols = codes "jsonrpc-stdio" ∷ []

-- The keys of a map that a pattern refuses; `quoted` is fmt's %q.
abbrev pub key_errors :
    (Bytes → Bytes) → Regex → Bytes → List (Bytes × Bytes) → List ValidationError
key_errors quoted re path [] = []
key_errors quoted re path ((k, v) ∷ rest) =
    report (not (match_string re k)) (path ++ (codes "[" ++ (quoted k ++ codes "]"))) must_match
    ++ key_errors quoted re path rest

abbrev pub is_negative : ℤ → Bool
is_negative (pos n) = false
is_negative (negsuc n) = true

abbrev pub host_entry_errors : Bytes → List ValidationError
host_entry_errors entry =
    if is_empty entry
    then record { path = codes "host.entry"; rule = required } ∷ []
    else report (contains entry (codes "..")) (codes "host.entry") dots

unfoldable pub host_errors : (Bytes → Bytes) → HostV1 → List ValidationError
unfolding contains
host_errors quoted h =
    host_entry_errors h.entry
    ++ (one_of runtimes (codes "host.runtime") h.runtime
        ++ (one_of protocols (codes "host.protocol") h.protocol
            ++ (one_of restarts (codes "host.restart") h.restart
                ++ (key_errors quoted re_platform_key (codes "host.platforms") h.platforms
                    ++ (key_errors quoted re_env_key (codes "host.env") h.env
                        ++ (report (contains h.cwd (codes "..")) (codes "host.cwd") dots
                            ++ report (is_negative h.idle_shutdown_minutes)
                                (codes "host.idleShutdownMinutes") negative))))))

abbrev pub host_errors_of : (Bytes → Bytes) → Option HostV1 → List ValidationError
host_errors_of quoted none = record { path = codes "host"; rule = required } ∷ []
host_errors_of quoted (some h) = host_errors quoted h

unfoldable pub validate_host_v1 : (Bytes → Bytes) → Bool → Option HostV1 → List ValidationError
unfolding host_errors
validate_host_v1 quoted host_form_allowed h =
    if not host_form_allowed
    then record { path = codes "host"; rule = unsupported } ∷ []
    else host_errors_of quoted h
