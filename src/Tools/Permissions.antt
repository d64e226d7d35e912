-- ===== src/Tools/Permissions.antt =====
-- crates/claw-tools/src/registry.rs: the permission checks of `ToolRegistry::execute` and
-- `fs_path_covered`. The glob patterns of the `glob` library are a parameter.
pub mod Permitted
use claw_kernel.Prelude.{
  Bool, true, false, not, ◌&&◌, ◌||◌, Option, none, some, List, String, if◌then◌else◌, str_eq,
  Result, ok, err,
}
use claw_kernel.Prelude.Membership.{any, all}
use claw_kernel.Tools.Types.{
  SubprocessPolicy, denied, allowed, PermissionSet, RegistryError, permission_denied_for, is_empty,
}

-- `Pattern::new(pat)`, and the match of a path when the pattern is well formed.
abbrev pub Glob : Type 0
Glob = String → Option (String → Bool)

unfoldable pub glob_match : Option (String → Bool) → String → Bool
glob_match none path = false
glob_match (some matches) path = matches path

unfoldable pub fs_path_covered : Glob → String → List String → Bool
unfolding glob_match
fs_path_covered glob tool_path ctx_patterns =
    any ctx_patterns (λ pat. str_eq pat tool_path || glob_match (glob pat) tool_path)

abbrev pub is_allowed : SubprocessPolicy → Bool
is_allowed allowed = true
is_allowed denied = false

-- The checks 2a to 2c of `execute`.
unfoldable pub check_permissions :
    Glob → String → PermissionSet → PermissionSet → Result RegistryError (Unit {0})
unfolding fs_path_covered
check_permissions glob name tool ctx =
    if is_allowed tool.subprocess && not (is_allowed ctx.subprocess)
    then err (permission_denied_for name "subprocess")
    else if not (is_empty tool.filesystem.read_paths)
        && not
            (all tool.filesystem.read_paths (λ p. fs_path_covered glob p ctx.filesystem.read_paths))
    then err (permission_denied_for name "filesystem:read")
    else if not (is_empty tool.filesystem.write_paths)
        && not (
            all tool.filesystem.write_paths
              (λ p. fs_path_covered glob p ctx.filesystem.write_paths))
    then err (permission_denied_for name "filesystem:write")
    else if not (is_empty tool.network.allowed_domains)
        && not (
            all tool.network.allowed_domains
              (λ d. any ctx.network.allowed_domains (λ c. str_eq c d)))
    then err (permission_denied_for name "network")
    else ok tt
