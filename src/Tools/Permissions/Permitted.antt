-- ===== src/Tools/Permissions/Permitted.antt =====
-- What the permissions of a tool ask of the permissions of a call, said without the order of the
-- checks, and that the checks decide it.
use claw_kernel.Prelude.{
  ◌≡◌, Bool, true, not, ◌&&◌, some, List, String, if◌then◌else◌, str_eq, Result, ok, err, ◌⊎◌,
}
use mathlib.Core.List.{Memᴰ}
use claw_kernel.Prelude.Membership.{any, all}
use claw_kernel.Tools.Types.{allowed, PermissionSet, RegistryError, is_empty}
use claw_kernel.Tools.Permissions.{Glob, fs_path_covered}

module _ (glob : Glob) where
  -- A pattern of the call is the path, or a well-formed glob that matches it.
  abbrev pub Covers : String → String → Type 0
  Covers pat path =
      (pat ≡ path) ⊎ ((matches : String → Bool) × (glob pat ≡ some matches) × (matches path ≡ true))

  abbrev pub CoveredBy : List String → String → Type 0
  CoveredBy patterns path = (pat : String) × Memᴰ pat patterns × Covers pat path

  pub record Permitted (tool ctx : PermissionSet) : Type 0 where
    pub subprocess : tool.subprocess ≡ allowed → ctx.subprocess ≡ allowed
    pub reads :
        (p : String) → Memᴰ p tool.filesystem.read_paths → CoveredBy ctx.filesystem.read_paths p
    pub writes :
        (p : String) → Memᴰ p tool.filesystem.write_paths → CoveredBy ctx.filesystem.write_paths p
    pub domains :
        (d : String) → Memᴰ d tool.network.allowed_domains → Memᴰ d ctx.network.allowed_domains

abbrev lacks_paths : Glob → List String → List String → Bool
lacks_paths glob xs patterns =
    not (is_empty xs) && not (all xs (λ p. fs_path_covered glob p patterns))

abbrev lacks_domains : List String → List String → Bool
lacks_domains xs domains = not (is_empty xs) && not (all xs (λ d. any domains (λ c. str_eq c d)))

abbrev first_failure :
    (a b c d : Bool) (ea eb ec ed : RegistryError) → Result RegistryError (Unit {0})
first_failure a b c d ea eb ec ed =
    if a then err ea else if b then err eb else if c then err ec else if d then err ed else ok tt
