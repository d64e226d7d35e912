-- ===== src/Tools/Types.antt =====
-- crates/claw-tools/src/types.rs, crates/claw-tools/src/traits.rs and crates/claw-tools/src/error.rs:
-- the values of the tool registry. A JSON value is of type `J`; a set of texts is a list, of which
-- only membership is asked; a duration is a number of milliseconds.
use claw_kernel.Prelude.{
  ℕ, Bool, true, false, Option, none, some, List, [], ◌∷◌, String, Result, ok, err, if◌then◌else◌,
  str_eq, ◌==◌,
}
use claw_kernel.Prelude.Membership.{any}

pub data ToolErrorCode : Type 0 where
  invalid_parameter execution_failed timeout permission_denied resource_not_found rate_limited
        internal_error :
      ToolErrorCode

pub record ToolError : Type 0 where
  pub code : ToolErrorCode
  pub message : String

abbrev pub timeout_error : ToolError
timeout_error = record { code = timeout; message = "execution timed out" }

abbrev pub internal : String → ToolError
internal msg = record { code = internal_error; message = msg }

pub record ToolResult (J : Type 0) : Type 0 where
  pub success : Bool
  pub output : Option J
  pub error : Option ToolError
  pub duration_ms : ℕ

abbrev pub tool_ok : {J : Type 0} → J → ℕ → ToolResult J
tool_ok output duration_ms = record {
  success = true;
  output = some output;
  error = none;
  duration_ms = duration_ms;
}

abbrev pub tool_err : {J : Type 0} → ToolError → ℕ → ToolResult J
tool_err error duration_ms = record {
  success = false;
  output = none;
  error = some error;
  duration_ms = duration_ms;
}

pub record ToolSchema (J : Type 0) : Type 0 where
  pub name : String
  pub description : String
  pub parameters : J

pub record FsPermissions : Type 0 where
  pub read_paths : List String
  pub write_paths : List String

pub record NetworkPermissions : Type 0 where
  pub allowed_domains : List String
  pub allowed_ports : List ℕ
  pub allow_localhost : Bool
  pub allow_private_ips : Bool

pub data SubprocessPolicy : Type 0 where
  denied allowed : SubprocessPolicy

pub record PermissionSet : Type 0 where
  pub filesystem : FsPermissions
  pub network : NetworkPermissions
  pub subprocess : SubprocessPolicy

abbrev pub no_filesystem : FsPermissions
no_filesystem = record { read_paths = []; write_paths = [] }

abbrev pub no_network : NetworkPermissions
no_network = record {
  allowed_domains = [];
  allowed_ports = 443 ∷ 80 ∷ [];
  allow_localhost = true;
  allow_private_ips = false;
}

abbrev pub minimal : PermissionSet
minimal = record { filesystem = no_filesystem; network = no_network; subprocess = denied }

pub data ScriptLanguage : Type 0 where
  lua type_script python : ScriptLanguage

pub data ToolSource : Type 0 where
  native : ToolSource
  script : (path : String) (language : ScriptLanguage) → ToolSource
  dynamic : (id : String) → ToolSource

-- What a tool tells of itself.
pub record Tool (J : Type 0) : Type 0 where
  pub name : String
  pub schema : ToolSchema J
  pub permissions : PermissionSet
  pub timeout_ms : ℕ

pub record ToolMeta (J : Type 0) : Type 0 where
  pub schema : ToolSchema J
  pub permissions : PermissionSet
  pub timeout_ms : ℕ
  pub source : ToolSource

pub record LoadedToolMeta : Type 0 where
  pub name : String
  pub source : ToolSource
  pub loaded_at : ℕ

pub data RegistryExecutionMode : Type 0 where
  safe power : RegistryExecutionMode

pub record ToolContext : Type 0 where
  pub agent_id : String
  pub permissions : PermissionSet
  pub execution_mode : RegistryExecutionMode

pub record LogEntry : Type 0 where
  pub timestamp_ms : ℕ
  pub agent_id : String
  pub tool_name : String
  pub success : Bool
  pub duration_ms : ℕ

pub data RegistryError : Type 0 where
  tool_not_found : String → RegistryError
  already_exists : String → RegistryError
  permission_denied_for : (tool permission : String) → RegistryError
  timed_out_after : ℕ → RegistryError
  execution_error : String → RegistryError

pub data LoadError : Type 0 where
  io_error : String → LoadError
  parse_error : (path message : String) → LoadError
  invalid_schema : String → LoadError
  permission_validation_failed : String → LoadError

pub record HotLoadingConfig : Type 0 where
  pub watch_dirs : List String
  pub extensions : List String
  pub debounce_ms : ℕ
  pub default_timeout_secs : ℕ
  pub compile_timeout_secs : ℕ
  pub keep_previous_secs : ℕ
  pub auto_enable : Bool

abbrev pub default_hot_loading : HotLoadingConfig
default_hot_loading = record {
  watch_dirs = "tools" ∷ [];
  extensions = "lua" ∷ [];
  debounce_ms = 50;
  default_timeout_secs = 30;
  compile_timeout_secs = 10;
  keep_previous_secs = 300;
  auto_enable = true;
}

abbrev pub is_empty {ℓ} : {A : Type ℓ} → List A → Bool
is_empty [] = true
is_empty (x ∷ xs) = false

unfoldable pub validate : HotLoadingConfig → Result String (Unit {0})
validate c =
    if is_empty c.watch_dirs
    then err "watch_dirs cannot be empty"
    else if is_empty c.extensions
    then err "extensions cannot be empty"
    else if c.debounce_ms == 0
    then err "debounce_ms must be > 0"
    else if c.default_timeout_secs == 0
    then err "default_timeout_secs must be > 0"
    else if c.compile_timeout_secs == 0
    then err "compile_timeout_secs must be > 0"
    else if any c.extensions (str_eq "")
    then err "extensions cannot contain empty strings"
    else ok tt

unfoldable pub is_watched_extension : HotLoadingConfig → String → Bool
is_watched_extension c ext = any c.extensions (λ e. str_eq e ext)
