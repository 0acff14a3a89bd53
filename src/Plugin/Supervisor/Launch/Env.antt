-- ===== src/Plugin/Supervisor/Launch/Env.antt =====
-- plugin/host/supervisor.go: the environment of a sidecar.
use opendray_v2_lab.Common.{
  ◌≡◌, ◌≢◌, ◌⊎◌, inl, inr, refl, subst, append_assoc, false, List, [], ◌∷◌, ◌++◌, Memᴰ,
  mem-append_right, Bytes, bytes_eq, Bool-cases, All, All-append,
}
use opendray_v2_lab.Plugin.Contributions.{is_empty}
use opendray_v2_lab.Plugin.Manifest.{HostV1}
use opendray_v2_lab.Plugin.Manifest.Host.{host_errors}
use opendray_v2_lab.Plugin.Manifest.Sidecar.{AllKeys, IsEnvKey, host_errors-IsHost}
use opendray_v2_lab.Plugin.Supervisor.Launch.{
  inherited, setting, from_host, from_manifest, build_env,
}

-- A variable of the host that sidecars may see, with its value there, or one that the manifest sets, under
-- a key of capitals, digits and `_`.
abbrev pub IsSetting : (Bytes → Bytes) → List Bytes → List (Bytes × Bytes) → Bytes → Type 0
IsSetting getenv keys extra s =
    (key : Bytes) × (val : Bytes) × (s ≡ setting key val)
    × ((Memᴰ key keys × (val ≡ getenv key) × (val ≢ [])) ⊎ (Memᴰ (key, val) extra × IsEnvKey key))

set_value : (s : Bytes) → is_empty s ≡ false → s ≢ []
set_value [] h = cc h
set_value (c ∷ s) h = λ e. cc e

more_keys :
    (getenv : Bytes → Bytes) (key : Bytes) (keys : List Bytes) (extra : List (Bytes × Bytes))
    (s : Bytes)
    → IsSetting getenv keys extra s
    → IsSetting getenv (key ∷ keys) extra s
more_keys getenv key keys extra s (k, v, e, inl (m, same, full)) =
    (k, v, e, inl (Memᴰ.tail m, same, full))
more_keys getenv key keys extra s (k, v, e, inr x) = (k, v, e, inr x)

All-map {ℓ} :
    {A : Type ℓ} (P Q : A → Type 0) → ((x : A) → P x → Q x) → (xs : List A) → All P xs → All Q xs
All-map P Q f [] h = tt
All-map P Q f (x ∷ xs) h = (f x h.0, All-map P Q f xs h.1)

from_host-All :
    (getenv : Bytes → Bytes) (extra : List (Bytes × Bytes)) (keys : List Bytes)
    → All (IsSetting getenv keys extra) (from_host getenv keys)
from_host-All getenv extra [] = tt
from_host-All getenv extra (key ∷ keys) =
    let rest =
      All-map (IsSetting getenv keys extra) (IsSetting getenv (key ∷ keys) extra)
        (more_keys getenv key keys extra) (from_host getenv keys)
        (from_host-All getenv extra keys) in
    elim (Bool-cases (is_empty (getenv key))) [
      | inl unset ↦ rw unset rest
      | inr has ↦
          rw has
            ((key, getenv key, refl, inl (Memᴰ.head refl, refl, set_value (getenv key) has)), rest)
    ]

from_manifest-All :
    (getenv : Bytes → Bytes) (keys : List Bytes) (before rest : List (Bytes × Bytes))
    → AllKeys IsEnvKey rest
    → All (IsSetting getenv keys (before ++ rest)) (from_manifest rest)
from_manifest-All getenv keys before [] h = tt
from_manifest-All getenv keys before ((k, v) ∷ rest) h = (
  (k, v, refl, inr (mem-append_right before (Memᴰ.head refl), h.0)),
  subst (λ all. All (IsSetting getenv keys all) (from_manifest rest))
      (append_assoc before ((k, v) ∷ []) rest)
      (from_manifest-All getenv keys (before ++ (k, v) ∷ []) rest h.1),
)

-- An accepted sidecar sees no variable of the host but PATH, HOME, USER, LANG and TMPDIR, those that are set,
-- and beside them what its manifest sets under well-formed keys.
pub build_env-All :
    (quoted : Bytes → Bytes) (getenv : Bytes → Bytes) (h : HostV1)
    → host_errors quoted h ≡ []
    → All (IsSetting getenv inherited h.env) (build_env getenv h.env)
unfolding build_env
build_env-All quoted getenv h ok =
    All-append (IsSetting getenv inherited h.env) (from_host getenv inherited) (from_manifest h.env)
      (from_host-All getenv h.env inherited)
      (from_manifest-All getenv inherited [] h.env ((host_errors-IsHost quoted h).0 ok).env)
