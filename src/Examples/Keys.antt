-- ===== src/Examples/Keys.antt =====
-- Power keys at concrete inputs.
use claw_kernel.Prelude.{◌≡◌, ◌≤◌, refl, ◌↔◌, Bool, String, Result, ok, str_eq}
use Prim.Native.String.{len}
use claw_kernel.Security.{
  Argon2, PowerKeyHash, validate, new_hash, verify, enter_power_mode, found_types,
}
use claw_kernel.Security.Keys.{Mixed, validate-Mixed}
use claw_kernel.Security.Sessions.{Opens, Verified, new_hash-enter_power_mode}

validate-Mixed_example :
    (validate "correct-horse" ≡ ok tt) ↔ ((12 ≤ len "correct-horse") × Mixed "correct-horse")
validate-Mixed_example = validate-Mixed "correct-horse"

abbrev keep_text : (key salt : String) → Result String String
keep_text key salt = ok key

abbrev compare_text : (hash key : String) → Result String Bool
compare_text hash key = ok (str_eq hash key)

-- A hash that keeps the key.
abbrev plain : Argon2
plain = record { hash_encoded = keep_text; verify_encoded = compare_text }

abbrev stored : PowerKeyHash
stored = record { hash = "correct-horse" }

stored_is_hash : new_hash plain "salt" "correct-horse" ≡ ok stored
unfolding new_hash validate found_types
stored_is_hash = refl

new_hash-enter_power_mode_example : Opens plain "salt" "correct-horse" "guess" ↔ (
    (12 ≤ len "correct-horse")
    × Mixed "correct-horse"
    × Verified plain "salt" "correct-horse" "guess")
new_hash-enter_power_mode_example = new_hash-enter_power_mode plain "salt" "correct-horse" "guess"

own_key-Opens : Opens plain "salt" "correct-horse" "correct-horse"
unfolding new_hash validate found_types enter_power_mode verify
own_key-Opens = (stored, refl, refl)
