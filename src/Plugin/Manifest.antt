-- ===== src/Plugin/Manifest.antt =====
-- plugin/manifest.go: the manifest of a plugin and what it says of the plugin's form. Raw JSON is a text.
-- The contributions are those of Plugin/Contributions, the fields of the configuration those of
-- Plugin/ConfigSchema.
pub mod Grammar
pub mod Errors
pub mod Contributed
pub mod Host
pub mod Validate
pub mod Strict
pub mod Component
pub mod Empty
pub mod Accepted
pub mod Slots
pub mod Places
pub mod Sidecar
pub mod Whole
pub mod Known
mod Tests
pub mod Labels
use opendray_v2_lab.Common.Order.{ℤ}
use opendray_v2_lab.Common.{
  Bool, true, false, not, ◌&&◌, ◌||◌, List, Option, none, some, Bytes, bytes_eq, codes, ◌==◌,
  if◌then◌else◌,
}
use opendray_v2_lab.Plugin.Contributions.{Contributes, is_empty, is_some}
use opendray_v2_lab.Plugin.ConfigSchema.{ConfigField}

pub record EnginesV1 : Type 0 where
  pub opendray : Bytes
  pub node : Bytes
  pub deno : Bytes

pub record PermissionsV1 : Type 0 where
  pub fs : Bytes
  pub exec : Bytes
  pub http : Bytes
  pub session : Bytes
  pub storage : Bool
  pub secret : Bool
  pub clipboard : Bytes
  pub telegram : Bool
  pub git : Bytes
  pub llm : Bool
  pub events : List Bytes

pub record HostV1 : Type 0 where
  pub entry : Bytes
  pub runtime : Bytes
  pub platforms : List (Bytes × Bytes)
  pub protocol : Bytes
  pub restart : Bytes
  pub env : List (Bytes × Bytes)
  pub cwd : Bytes
  pub idle_shutdown_minutes : ℤ

pub record CliSpec : Type 0 where
  pub command : Bytes
  pub default_args : List Bytes
  pub detect_cmd : Bytes

pub record ModelDef : Type 0 where
  pub id : Bytes
  pub name : Bytes
  pub description : Bytes

pub record Capabilities : Type 0 where
  pub models : List ModelDef
  pub supports_resume : Bool
  pub supports_stream : Bool
  pub supports_images : Bool
  pub supports_mcp : Bool
  pub dynamic_models : Bool

pub record Provider : Type 0 where
  pub name : Bytes
  pub display_name : Bytes
  pub description : Bytes
  pub icon : Bytes
  pub version : Bytes
  pub provider_type : Bytes
  pub category : Bytes
  pub display_name_zh : Bytes
  pub description_zh : Bytes
  pub cli : Option CliSpec
  pub capabilities : Capabilities
  pub config_schema : List ConfigField
  pub required : Bool
  pub publisher : Bytes
  pub engines : Option EnginesV1
  pub form : Bytes
  pub activation : List Bytes
  pub contributes : Option Contributes
  pub permissions : Option PermissionsV1
  pub host : Option HostV1
  pub v2_reserved : Bytes

abbrev pub form_declarative : Bytes
form_declarative = codes "declarative"

abbrev pub form_webview : Bytes
form_webview = codes "webview"

abbrev pub form_host : Bytes
form_host = codes "host"

abbrev pub names_engine : Option EnginesV1 → Bool
names_engine none = false
names_engine (some e) = not (is_empty e.opendray)

unfoldable pub is_v1 : Provider → Bool
is_v1 p = not (is_empty p.publisher) && names_engine p.engines

-- The form that a legacy `type` stands for.
abbrev pub form_of_type : Bytes → Bytes
form_of_type t =
    if (t == codes "cli") || ((t == codes "local") || (t == codes "shell"))
    then form_host
    else form_declarative

unfoldable pub effective_form : Provider → Bytes
effective_form p = if is_empty p.form then form_of_type p.provider_type else p.form

unfoldable pub has_host_backend : Provider → Bool
unfolding effective_form
has_host_backend p =
    is_some p.host && ((effective_form p == form_host) || (effective_form p == form_webview))
