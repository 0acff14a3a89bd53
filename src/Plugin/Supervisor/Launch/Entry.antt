-- ===== src/Plugin/Supervisor/Launch/Entry.antt =====
-- plugin/host/supervisor.go: what is started for a sidecar that plugin/manifest_validate.go accepts.
use opendray_v2_lab.Common.Dict.{lookup}
use opendray_v2_lab.Common.{
  ◌≡◌, ◌⊎◌, inl, inr, refl, sym, ap, ◌∙◌, subst, append_assoc, Bool, true, false, ◌||◌, List, [],
  ◌∷◌, ◌++◌, Option, none, some, Bytes, bytes_eq, bytes_beq_iff, codes, ◌==◌, Bool-cases, pick,
  String, length, length-append, arith, if◌then◌else◌,
}
use opendray_v2_lab.Go.Path.{is_abs}
use opendray_v2_lab.Go.Path.Below.{IsWithin, join_below}
use opendray_v2_lab.Plugin.ConfigSchema.{among}
use opendray_v2_lab.Plugin.Contributions.{is_empty}
use opendray_v2_lab.Plugin.Manifest.{HostV1}
use opendray_v2_lab.Plugin.Manifest.Host.{runtimes, host_errors}
use opendray_v2_lab.Plugin.Manifest.Sidecar.{AllKeys, IsPlatformKey, host_errors-IsHost}
use opendray_v2_lab.Plugin.Supervisor.Launch.{
  platform_key, entry_or, entry_of, runtime_not_found, Resolved, resolved, refused, found_as,
  entry_path, resolve_runtime,
}

same_tail : (a b u v : Bytes) → a ++ u ≡ b ++ v → length u ≡ length v → u ≡ v
same_tail [] [] u v e h = e
same_tail [] (c ∷ b) u v e h = absurd (omega (arith, ap length e, length-append {0} b v))
same_tail (c ∷ a) [] u v e h = absurd (omega (arith, ap length e, length-append {0} a u))
same_tail (c ∷ a) (d ∷ b) u v e h = same_tail a b u v (cc e) h

differ : (u v : Bytes) → (u == v) ≡ false → u ≡ v → ⊥
differ u v apart e = cc ((bytes_beq_iff u v).1 e, apart)

-- No accepted key names the architecture that Go calls amd64.
not_amd64 : (goos : Bytes) → IsPlatformKey (platform_key goos (codes "amd64")) → ⊥
not_amd64 goos (os, arch, e, _, inl x) =
    let split : (goos ++ codes "-am") ++ codes "d64" ≡ (os ++ codes "-") ++ codes "x64" =
      append_assoc goos (codes "-am") (codes "d64")
      ∙ (e ∙ (ap (λ t. os ++ b'-' ∷ t) x ∙ sym (append_assoc os (codes "-") (codes "x64")))) in
    differ (codes "d64") (codes "x64") refl
      (same_tail (goos ++ codes "-am") (os ++ codes "-") (codes "d64") (codes "x64") split refl)
not_amd64 goos (os, arch, e, _, inr x) =
    differ (codes "-amd64") (codes "-arm64") refl
      (same_tail goos os (codes "-amd64") (codes "-arm64") (e ∙ ap (λ t. os ++ b'-' ∷ t) x) refl)

lookup-AllKeys :
    (P : Bytes → Type 0) (k : Bytes) (m : List (Bytes × Bytes))
    → AllKeys P m
    → (P k → ⊥)
    → lookup k m ≡ none
unfolding lookup
lookup-AllKeys P k [] h never = refl
lookup-AllKeys P k ((j, v) ∷ m) h never = elim (Bool-cases (j == k)) [
  | inl same ↦ absurd (never (subst P ((bytes_beq_iff j k).0 same) h.0))
  | inr other ↦ rw other (lookup-AllKeys P k m h.1 never)
]

-- Where Go's architecture is amd64, the entry of an accepted sidecar is always the general one: no entry of
-- `platforms` is ever taken, whatever the operating system.
pub entry_of_amd64 :
    (quoted : Bytes → Bytes) (goos : Bytes) (h : HostV1)
    → host_errors quoted h ≡ []
    → entry_of goos (codes "amd64") h ≡ h.entry
unfolding entry_of
entry_of_amd64 quoted goos h ok = ap (entry_or h.entry) (
    lookup-AllKeys IsPlatformKey (platform_key goos (codes "amd64")) h.platforms
      ((host_errors-IsHost quoted h).0 ok).platforms (not_amd64 goos))

-- The command is in the runtime's place or is the file itself, the arguments end in the file or are none, and
-- only a runtime that is missing from the path is refused.
abbrev pub Runs : (Bytes → Option Bytes) → Bytes → Resolved → Type 0
Runs look_path file (resolved command args) =
    ((command ≡ file) × (args ≡ []))
    ⊎ ((kind : Bytes) × (before : List Bytes) × (look_path kind ≡ some command)
        × (args ≡ before ++ file ∷ []))
Runs look_path file (refused e) =
    (kind : Bytes) × (e ≡ runtime_not_found kind) × (look_path kind ≡ none)

Runs-found :
    (look_path : Bytes → Option Bytes) (file kind : Bytes) (before : List Bytes)
    → (o : Option Bytes) → look_path kind ≡ o
    → Runs look_path file (found_as kind (before ++ file ∷ []) o)
Runs-found look_path file kind before none e = (kind, refl, e)
Runs-found look_path file kind before (some bin) e = inr (kind, before, e, refl)

equals_comm : (a b : Bytes) → (a == b) ≡ (b == a)
equals_comm a b = elim (Bool-cases (a == b)) [
  | inl hit ↦ hit ∙ sym ((bytes_beq_iff b a).1 (sym ((bytes_beq_iff a b).0 hit)))
  | inr miss ↦ elim (Bool-cases (b == a)) [
    | inl hit ↦ absurd (differ a b miss (sym ((bytes_beq_iff b a).0 hit)))
    | inr other ↦ miss ∙ sym other
  ]
]

no_runtime :
    (a b c d e f : Bool)
    → a || (b || c) ≡ false
    → d ≡ false
    → e ≡ false
    → f ≡ false
    → (g : Bool) → g ≡ false
    → (if a
        then true
        else if d
        then true
        else if e
        then true
        else if f
        then true
        else if g
        then true
        else if b
        then true
        else false)
      ≡ true
    → ⊥
no_runtime a b c d e f h p q r g s t = absurd (ground (arith, h, p, q, r, s, t))

-- Every accepted runtime is known to resolveRuntime.
resolve_runtime-Runs :
    (look_path : Bytes → Option Bytes) (kind entry dir : Bytes)
    → (kind ≡ []) ⊎ (among kind runtimes ≡ true)
    → Runs look_path (entry_path dir entry) (resolve_runtime look_path kind entry dir)
unfolding resolve_runtime
resolve_runtime-Runs look_path kind entry dir known =
    let file = entry_path dir entry in
    pick (Runs look_path file)
      ((kind == codes "binary") || ((kind == codes "custom") || is_empty kind)) _ _
      (λ e. inl (refl, refl))
      (λ plain.
        pick (Runs look_path file) (kind == codes "node") _ _ (λ e. named "node" e [])
          (λ a.
            pick (Runs look_path file) (kind == codes "deno") _ _
              (λ e. named "deno" e (codes "run" ∷ codes "-A" ∷ []))
              (λ b.
                pick (Runs look_path file) (kind == codes "python3") _ _ (λ e. named "python3" e [])
                  (λ c.
                    pick (Runs look_path file) (kind == codes "bun") _ _
                      (λ e. named "bun" e (codes "run" ∷ []))
                      (λ d. absurd (impossible plain a b c d))))))
  where
    named :
        (word : String)
        → kind == codes word ≡ true
        → (before : List Bytes)
        → Runs look_path
            (entry_path dir entry)
            (found_as kind (before ++ entry_path dir entry ∷ []) (look_path (codes word)))
    named word e before =
        subst
          (λ k.
            Runs look_path (entry_path dir entry)
              (found_as k (before ++ entry_path dir entry ∷ []) (look_path (codes word))))
          (sym ((bytes_beq_iff kind (codes word)).0 e))
          (Runs-found look_path (entry_path dir entry) (codes word) before (look_path (codes word))
            refl)

    impossible :
        (kind == codes "binary") || ((kind == codes "custom") || is_empty kind) ≡ false
        → (kind == codes "node") ≡ false
        → (kind == codes "deno") ≡ false
        → (kind == codes "python3") ≡ false
        → (kind == codes "bun") ≡ false
        → ⊥
    impossible plain a b c d = elim known [
      | inl none_given ↦ absurd (ground (arith, plain, ap is_empty none_given))
      | inr listed ↦
          no_runtime (kind == codes "binary") (kind == codes "custom") (is_empty kind)
            (kind == codes "node") (kind == codes "deno") (kind == codes "python3") plain a b c
            (kind == codes "bun") d
            (rw
              (
                equals_comm kind (codes "binary"),
                equals_comm kind (codes "custom"),
                equals_comm kind (codes "node"),
                equals_comm kind (codes "deno"),
                equals_comm kind (codes "python3"),
                equals_comm kind (codes "bun"),
              )
              listed)
    ]

-- An accepted sidecar whose entry is relative and is not replaced for the platform runs a path within its
-- install directory, when that is absolute: the directory, cleaned, and components none of which holds a slash or
-- is empty, `.` or `..`. It runs it as the command itself, or as the last argument of a
-- runtime found on the path. The one thing that is refused is a runtime that is not there.
pub resolve_runtime_below :
    (quoted : Bytes → Bytes) (look_path : Bytes → Option Bytes) (goos goarch dir : Bytes)
    (h : HostV1)
    → host_errors quoted h ≡ []
    → is_abs dir ≡ true
    → is_abs h.entry ≡ false
    → entry_of goos goarch h ≡ h.entry
    → (file : Bytes) × IsWithin dir file
      × Runs look_path file (resolve_runtime look_path h.runtime (entry_of goos goarch h) dir)
resolve_runtime_below quoted look_path goos goarch dir h ok full relative general =
    let host = (host_errors-IsHost quoted h).0 ok in
    (
      entry_path dir h.entry,
      rw relative (join_below dir h.entry full host.has_entry host.entry),
      subst
          (λ x. Runs look_path (entry_path dir h.entry) (resolve_runtime look_path h.runtime x dir))
          (sym general) (resolve_runtime-Runs look_path h.runtime h.entry dir host.runtime),
    )
