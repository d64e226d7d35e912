-- ===== src/Security/Sessions.antt =====
-- Which keys enter power mode against the hash of a key.
use claw_kernel.Prelude.{
  ◌≡◌, ◌≤◌, ◌↔◌, refl, sym, subst, Bool, true, false, inl, inr, String, Result, ok, err,
  Result-cases, if◌then◌else◌, arith,
}
use Prim.Native.String.{len}
use claw_kernel.Security.{
  Argon2, PowerKeyHash, power, hashed, validate, new_hash, verify, enter_power_mode,
  invalid_power_key,
}
use claw_kernel.Security.Keys.{Mixed, validate-Mixed}

ok-inj : {E A : Type 0} {a b : A} → ◌≡◌ {A = Result E A} (ok a) (ok b) → a ≡ b
ok-inj h = cc

module _ (argon2 : Argon2) where
  -- The hash of the key opens for the candidate.
  abbrev pub Opens : (salt key candidate : String) → Type 0
  Opens salt key candidate =
      (h : PowerKeyHash) × (new_hash argon2 salt key ≡ ok h)
      × (enter_power_mode argon2 candidate h ≡ ok power)

  -- The library makes a hash of the key and verifies the candidate against it.
  abbrev pub Verified : (salt key candidate : String) → Type 0
  Verified salt key candidate =
      (hash : String) × (argon2.hash_encoded key salt ≡ ok hash)
      × (argon2.verify_encoded hash candidate ≡ ok true)

  by_answer :
      (b : Bool)
      → ((if b then ok power else err invalid_power_key) ≡ ok power)
        ↔ (◌≡◌ {A = Result String Bool} (ok b) (ok true))
  by_answer true = (λ h. refl, λ h. refl)
  by_answer false = (λ h. absurd (ground arith), λ h. absurd (ground arith))

  opens_iff :
      (h : PowerKeyHash) (candidate : String)
      → (enter_power_mode argon2 candidate h ≡ ok power)
        ↔ (argon2.verify_encoded h.hash candidate ≡ ok true)
  unfolding enter_power_mode verify
  opens_iff h candidate = elim (Result-cases (argon2.verify_encoded h.hash candidate)) [
    | inl (b, answered) ↦ rw answered (by_answer b)
    | inr (e, failed) ↦ rw failed (λ h. absurd (ground arith), λ h. absurd (ground arith))
  ]

  by_hash :
      (candidate : String) (r : Result String String)
      → ((h : PowerKeyHash) × (hashed r ≡ ok h) × (enter_power_mode argon2 candidate h ≡ ok power))
        ↔ ((hash : String) × (r ≡ ok hash) × (argon2.verify_encoded hash candidate ≡ ok true))
  by_hash candidate (ok hash) = (
    λ (h, made, entered). (
      hash,
      refl,
      (opens_iff (record { hash = hash }) candidate).0
          (subst (λ g. enter_power_mode argon2 candidate g ≡ ok power) (sym (ok-inj made)) entered),
    ),
    λ (hash', made, verified). (
      record { hash = hash },
      refl,
      (opens_iff (record { hash = hash }) candidate).1
          (subst (λ g. argon2.verify_encoded g candidate ≡ ok true) (sym (ok-inj made)) verified),
    ),
  )
  by_hash candidate (err e) =
      (λ (h, made, entered). absurd (ground arith), λ (hash, made, v). absurd (ground arith))

  -- A candidate enters power mode against the hash of a key exactly when the key has twelve bytes and
  -- two kinds of characters, the library makes a hash of it, and verifies the candidate against that.
  pub new_hash-enter_power_mode :
      (salt key candidate : String)
      → Opens salt key candidate ↔ ((12 ≤ len key) × Mixed key × Verified salt key candidate)
  unfolding new_hash
  new_hash-enter_power_mode salt key candidate = (
    λ (h, made, entered). elim (Result-cases (validate key)) [
      | inl (tt, valid) ↦
          let (long, mixed) = (validate-Mixed key).0 valid in
          (long, mixed, (by_hash candidate _).0 (h, rw valid at made, entered))
      | inr (e, refused) ↦ absurd (grind (arith, rw refused at made))
    ],
    λ (long, mixed, verified).
        let (h, made, entered) = (by_hash candidate (argon2.hash_encoded key salt)).1 verified in
        (h, rw ((validate-Mixed key).1 (long, mixed)) made, entered),
  )
