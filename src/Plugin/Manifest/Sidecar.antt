-- ===== src/Plugin/Manifest/Sidecar.antt =====
-- plugin/manifest_validate.go: which permissions and which sidecars pass.
use opendray_v2_lab.Common.{
  every, ◌≡◌, ◌≢◌, ◌↔◌, ◌⊎◌, inl, inr, refl, sym, ap, ◌∙◌, subst, Bool, true, false, not, List, [],
  ◌∷◌, ◌++◌, Option, none, some, Bytes, bytes_eq, codes, Bool-cases, nat_beq_iff, arith,
}
use opendray_v2_lab.Go.Regexp.{Regex, match_string}
use opendray_v2_lab.Go.Regexp.Classes.{Lang-literal}
use opendray_v2_lab.Go.Regexp.Language.{Lang, match_string_iff}
use opendray_v2_lab.Go.Strings.{contains}
use opendray_v2_lab.Go.Strings.Contains.{Has, contains_iff}
use opendray_v2_lab.Plugin.Manifest.{PermissionsV1, HostV1}
use opendray_v2_lab.Plugin.Manifest.Contributed.{one_of}
use opendray_v2_lab.Plugin.Manifest.Empty.{both, report_empty, IsOneOf, one_of_empty}
use opendray_v2_lab.Plugin.Manifest.Errors.{dots, negative, must_match, report}
use opendray_v2_lab.Plugin.Manifest.Host.{
  read_write, clipboard_modes, validate_permissions, re_platform_key, is_env_start, is_env_byte,
  re_env_key, runtimes, restarts, protocols, key_errors, is_negative, host_entry_errors,
  host_errors, validate_host_v1,
}

pub record IsPermissions (p : PermissionsV1) : Type 0 where
  pub session : IsOneOf read_write p.session
  pub clipboard : IsOneOf clipboard_modes p.clipboard
  pub git : IsOneOf read_write p.git

pub validate_permissions-IsPermissions :
    (p : PermissionsV1) → (validate_permissions p ≡ []) ↔ IsPermissions p
unfolding validate_permissions
validate_permissions-IsPermissions p =
    let s = one_of read_write (codes "permissions.session") p.session in
    let c = one_of clipboard_modes (codes "permissions.clipboard") p.clipboard in
    let g = one_of read_write (codes "permissions.git") p.git in
    let parts = both s (c ++ g) (one_of_empty read_write (codes "permissions.session") p.session) (
      both c g (one_of_empty clipboard_modes (codes "permissions.clipboard") p.clipboard)
        (one_of_empty read_write (codes "permissions.git") p.git)) in
    (
      λ h. let (a, (b, d)) = parts.0 h in record { session = a; clipboard = b; git = d },
      λ h. parts.1 (h.session, (h.clipboard, h.git)),
    )

-- linux, darwin or windows, a dash, and x64 or arm64
abbrev pub IsPlatformKey : Bytes → Type 0
IsPlatformKey s =
    (os : Bytes) × (arch : Bytes) × (s ≡ os ++ b'-' ∷ arch)
    × ((os ≡ codes "linux") ⊎ ((os ≡ codes "darwin") ⊎ (os ≡ codes "windows")))
    × ((arch ≡ codes "x64") ⊎ (arch ≡ codes "arm64"))

platform_sound : (s : Bytes) → Lang re_platform_key s → IsPlatformKey s
platform_sound s (u, v, e, os, (d, arch, f, (c, g, hit), which)) =
    let dash : b'-' ≡ c = (nat_beq_iff b'-' c).0 hit in
    let tail : v ≡ b'-' ∷ arch = f ∙ rw (g, dash) refl in
    (
      u,
      arch,
      e ∙ ap (λ t. u ++ t) tail,
      elim os [
        | inl h ↦ inl ((Lang-literal (codes "linux") u).0 h)
        | inr (inl h) ↦ inr (inl ((Lang-literal (codes "darwin") u).0 h))
        | inr (inr h) ↦ inr (inr ((Lang-literal (codes "windows") u).0 h))
      ],
      elim which [
        | inl h ↦ inl ((Lang-literal (codes "x64") arch).0 h)
        | inr h ↦ inr ((Lang-literal (codes "arm64") arch).0 h)
      ],
    )

platform_complete : (s : Bytes) → IsPlatformKey s → Lang re_platform_key s
platform_complete s (os, arch, e, which_os, which_arch) = (
  os,
  b'-' ∷ arch,
  e,
  elim which_os [
    | inl h ↦ inl ((Lang-literal (codes "linux") os).1 h)
    | inr (inl h) ↦ inr (inl ((Lang-literal (codes "darwin") os).1 h))
    | inr (inr h) ↦ inr (inr ((Lang-literal (codes "windows") os).1 h))
  ],
  (
    b'-' ∷ [],
    arch,
    refl,
    (b'-', refl, refl),
    elim which_arch [
      | inl h ↦ inl ((Lang-literal (codes "x64") arch).1 h)
      | inr h ↦ inr ((Lang-literal (codes "arm64") arch).1 h)
    ],
  ),
)

-- A capital or `_`, then capitals, digits and `_`.
abbrev pub IsEnvKey : Bytes → Type 0
IsEnvKey [] = ⊥
IsEnvKey (c ∷ s) = (is_env_start c ≡ true) × (every is_env_byte s ≡ true)

env_sound : (s : Bytes) → Lang re_env_key s → IsEnvKey s
env_sound s (u, v, e, (c, f, hit), rest) =
    let shape : s ≡ c ∷ v = e ∙ rw f refl in subst IsEnvKey (sym shape) (hit, rest)

env_complete : (s : Bytes) → IsEnvKey s → Lang re_env_key s
env_complete [] h = absurd h
env_complete (c ∷ s) h = (c ∷ [], s, refl, (c, refl, h.0), h.1)

-- Every key of the map satisfies `P`.
abbrev pub AllKeys : (Bytes → Type 0) → List (Bytes × Bytes) → Type 0
AllKeys P [] = Unit
AllKeys P ((k, v) ∷ rest) = P k × AllKeys P rest

key_errors_empty :
    (quoted : Bytes → Bytes) (re : Regex) (P : Bytes → Type 0)
    → ((s : Bytes) → (match_string re s ≡ true) ↔ P s)
    → (path : Bytes) (m : List (Bytes × Bytes)) → (key_errors quoted re path m ≡ []) ↔ AllKeys P m
key_errors_empty quoted re P h path [] = (λ e. tt, λ e. refl)
key_errors_empty quoted re P h path ((k, v) ∷ rest) =
    let at = path ++ (codes "[" ++ (quoted k ++ codes "]")) in
    let r = report_empty (not (match_string re k)) at must_match in
    both (report (not (match_string re k)) at must_match) (key_errors quoted re path rest)
      (λ e. (h k).0 (ground (arith, r.0 e)), λ e. r.1 (ap not ((h k).1 e)))
      (key_errors_empty quoted re P h path rest)

pub IsPlatformKey-iff : (s : Bytes) → (match_string re_platform_key s ≡ true) ↔ IsPlatformKey s
IsPlatformKey-iff s =
    let m = match_string_iff s re_platform_key in
    (λ h. platform_sound s (m.0 h), λ h. m.1 (platform_complete s h))

IsEnvKey-iff : (s : Bytes) → (match_string re_env_key s ≡ true) ↔ IsEnvKey s
IsEnvKey-iff s =
    let m = match_string_iff s re_env_key in (λ h. env_sound s (m.0 h), λ h. m.1 (env_complete s h))

pub record IsHost (h : HostV1) : Type 0 where
  pub has_entry : h.entry ≢ []
  pub entry : Has h.entry (codes "..") → ⊥
  pub runtime : IsOneOf runtimes h.runtime
  pub protocol : IsOneOf protocols h.protocol
  pub restart : IsOneOf restarts h.restart
  pub platforms : AllKeys IsPlatformKey h.platforms
  pub env : AllKeys IsEnvKey h.env
  pub cwd : Has h.cwd (codes "..") → ⊥
  pub idle : is_negative h.idle_shutdown_minutes ≡ false

dots_empty :
    (path s : Bytes) → (report (contains s (codes "..")) path dots ≡ []) ↔ (Has s (codes "..") → ⊥)
dots_empty path s =
    let r = report_empty (contains s (codes "..")) path dots in
    let c = contains_iff s (codes "..") in
    (
      λ h has. cc (r.0 h, c.1 has),
      λ h. elim (Bool-cases (contains s (codes ".."))) [
        | inl hit ↦ absurd (h (c.0 hit))
        | inr miss ↦ r.1 miss
      ],
    )

host_entry_errors_empty :
    (entry : Bytes) → (host_entry_errors entry ≡ []) ↔ ((entry ≢ []) × (Has entry (codes "..") → ⊥))
host_entry_errors_empty [] = (λ h. absurd (cc h), λ h. absurd (h.0 refl))
host_entry_errors_empty (c ∷ entry) =
    let d = dots_empty (codes "host.entry") (c ∷ entry) in (λ h. ((λ e. cc e), d.0 h), λ h. d.1 h.1)

pub host_errors-IsHost :
    (quoted : Bytes → Bytes) (h : HostV1) → (host_errors quoted h ≡ []) ↔ IsHost h
unfolding host_errors
host_errors-IsHost quoted h =
    let a = host_entry_errors h.entry in
    let b = one_of runtimes (codes "host.runtime") h.runtime in
    let c = one_of protocols (codes "host.protocol") h.protocol in
    let d = one_of restarts (codes "host.restart") h.restart in
    let e = key_errors quoted re_platform_key (codes "host.platforms") h.platforms in
    let f = key_errors quoted re_env_key (codes "host.env") h.env in
    let g = report (contains h.cwd (codes "..")) (codes "host.cwd") dots in
    let idle =
      report (is_negative h.idle_shutdown_minutes) (codes "host.idleShutdownMinutes") negative in
    let parts =
      both a (b ++ (c ++ (d ++ (e ++ (f ++ (g ++ idle)))))) (host_entry_errors_empty h.entry) (
        both b (c ++ (d ++ (e ++ (f ++ (g ++ idle)))))
          (one_of_empty runtimes (codes "host.runtime") h.runtime)
          (both c (d ++ (e ++ (f ++ (g ++ idle))))
            (one_of_empty protocols (codes "host.protocol") h.protocol)
            (both d (e ++ (f ++ (g ++ idle)))
              (one_of_empty restarts (codes "host.restart") h.restart)
              (both e (f ++ (g ++ idle))
                (key_errors_empty quoted re_platform_key IsPlatformKey IsPlatformKey-iff
                  (codes "host.platforms") h.platforms)
                (both f (g ++ idle)
                  (key_errors_empty quoted re_env_key IsEnvKey IsEnvKey-iff (codes "host.env")
                    h.env)
                  (both g idle (dots_empty (codes "host.cwd") h.cwd) (
                    report_empty (is_negative h.idle_shutdown_minutes)
                      (codes "host.idleShutdownMinutes") negative))))))) in
    (
      λ x.
          let (a, (b, (c, (d, (e, (f, (g, i))))))) = parts.0 x in
          record {
            has_entry = a.0;
            entry = a.1;
            runtime = b;
            protocol = c;
            restart = d;
            platforms = e;
            env = f;
            cwd = g;
            idle = i;
          },
      λ x. parts.1 (
        (x.has_entry, x.entry),
        (x.runtime, (x.protocol, (x.restart, (x.platforms, (x.env, (x.cwd, x.idle)))))),
      ),
    )

-- A sidecar that must be there, on a platform that allows one.
abbrev pub IsSidecar : Bool → Option HostV1 → Type 0
IsSidecar allowed none = ⊥
IsSidecar allowed (some h) = (allowed ≡ true) × IsHost h

pub validate_host_v1-IsSidecar :
    (quoted : Bytes → Bytes) (allowed : Bool) (h : Option HostV1)
    → (validate_host_v1 quoted allowed h ≡ []) ↔ IsSidecar allowed h
unfolding validate_host_v1
validate_host_v1-IsSidecar quoted true none = (λ h. absurd (cc h), λ h. absurd h)
validate_host_v1-IsSidecar quoted false none = (λ h. absurd (cc h), λ h. absurd h)
validate_host_v1-IsSidecar quoted true (some host) =
    let i = host_errors-IsHost quoted host in (λ h. (refl, i.0 h), λ h. i.1 h.1)
validate_host_v1-IsSidecar quoted false (some host) = (λ h. absurd (cc h), λ h. absurd (cc h.0))
