-- ===== src/Security.antt =====
-- crates/claw-pal/src/security.rs: the validation of power keys, their hashes and the transition of
-- modes. The password hash of the `argon2` library is a parameter, and so is the random salt.
pub mod Keys
pub mod Sessions
use claw_kernel.Prelude.{
  ℕ, zero, suc, ◌+◌, Bool, true, false, not, ◌&&◌, ◌||◌, Option, none, some, String, if◌then◌else◌,
  ltb, leb, str_eq, Result, ok, err, ◌>>=◌,
}
use Prim.Native.Char.{Char, code}
use Prim.Native.String.{[] as end, ◌∷◌ as ◌∷ₛ◌, len}

abbrev pub min_key_length : ℕ
min_key_length = 12

abbrev pub min_char_types : ℕ
min_char_types = 2

pub data ExecutionMode : Type 0 where
  safe power : ExecutionMode

pub data SecurityError : Type 0 where
  key_too_short : (length minimum : ℕ) → SecurityError
  insufficient_complexity : (found_types required : ℕ) → SecurityError
  invalid_power_key : SecurityError
  mode_transition_denied : (source target : ExecutionMode) → SecurityError
  hash_error : String → SecurityError

abbrev pub within : ℕ → ℕ → Char → Bool
within low high c = leb low (code c) && leb (code c) high

abbrev pub is_ascii_uppercase : Char → Bool
is_ascii_uppercase c = within 65 90 c

abbrev pub is_ascii_lowercase : Char → Bool
is_ascii_lowercase c = within 97 122 c

abbrev pub is_ascii_digit : Char → Bool
is_ascii_digit c = within 48 57 c

abbrev pub is_special : Char → Bool
is_special c =
    not (is_ascii_uppercase c || is_ascii_lowercase c || is_ascii_digit c) && ltb (code c) 128

-- `chars().any`.
abbrev pub any_char : (Char → Bool) → String → Bool
any_char p end = false
any_char p (c ∷ₛ s) = p c || any_char p s

abbrev pub as_usize : Bool → ℕ
as_usize true = 1
as_usize false = 0

unfoldable pub found_types : String → ℕ
found_types key =
    as_usize (any_char is_ascii_uppercase key)
    + as_usize (any_char is_ascii_lowercase key)
    + as_usize (any_char is_ascii_digit key)
    + as_usize (any_char is_special key)

unfoldable pub validate : String → Result SecurityError (Unit {0})
unfolding found_types
validate key =
    if ltb (len key) min_key_length
    then err (key_too_short (len key) min_key_length)
    else if ltb (found_types key) min_char_types
    then err (insufficient_complexity (found_types key) min_char_types)
    else ok tt

-- The functions of `argon2` that the code calls.
pub record Argon2 : Type 0 where
  pub hash_encoded : (key salt : String) → Result String String
  pub verify_encoded : (hash key : String) → Result String Bool

pub record PowerKeyHash : Type 0 where
  pub hash : String

abbrev pub hashed : Result String String → Result SecurityError PowerKeyHash
hashed (ok hash) = ok (record { hash = hash })
hashed (err e) = err (hash_error e)

abbrev pub unwrap_or_false : Result String Bool → Bool
unwrap_or_false (ok b) = b
unwrap_or_false (err e) = false

module _ (argon2 : Argon2) where
  unfoldable pub new_hash : (salt key : String) → Result SecurityError PowerKeyHash
  unfolding validate
  new_hash salt key = validate key >>= λ u. hashed (argon2.hash_encoded key salt)

  unfoldable pub verify : PowerKeyHash → String → Bool
  verify h candidate = unwrap_or_false (argon2.verify_encoded h.hash candidate)

  unfoldable pub from_string : String → Result SecurityError PowerKeyHash
  from_string hash =
      if str_eq hash "" then err (hash_error "Empty hash string") else ok (record { hash = hash })

  -- `ModeTransitionGuard`.
  unfoldable pub enter_power_mode : String → PowerKeyHash → Result SecurityError ExecutionMode
  unfolding verify
  enter_power_mode key stored = if verify stored key then ok power else err invalid_power_key

  unfoldable pub exit_power_mode : Result SecurityError ExecutionMode
  exit_power_mode = err (mode_transition_denied power safe)
