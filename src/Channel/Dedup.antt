-- ===== src/Channel/Dedup.antt =====
-- What deduplication promises: a message identifier is a duplicate exactly when it was let through
-- less than the time to live ago. A history is a list of calls, each with its time.
use claw_kernel.Prelude.{
  ℕ, ◌-◌, ◌≤◌, ◌≡◌, refl, sym, ◌∙◌, Bool, true, false, Option, none, some, List, [], ◌∷◌, String,
  arith, if◌then◌else◌, ltb, str_eq, is_some, Bool-cases, inl, inr,
}
use claw_kernel.Prelude.KeyedMap.{KeyedMap}

-- When each identifier was last let through.
abbrev pub Accepted : Type 0
Accepted = String → Option ℕ

-- `now.duration_since(t) < ttl`.
abbrev pub is_fresh : ℕ → ℕ → ℕ → Bool
is_fresh ttl now t = ltb (now - t) ttl

-- A time that still counts.
abbrev pub live : ℕ → ℕ → Option ℕ → Option ℕ
live ttl now none = none
live ttl now (some t) = if is_fresh ttl now t then some t else none

abbrev pub accept : Accepted → String → ℕ → Accepted
accept f id now j = if str_eq id j then some now else f j

unfoldable pub spec_step : ℕ → Accepted → String → ℕ → Accepted × Bool
spec_step ttl f id now =
    if is_some (live ttl now (f id)) then (f, true) else (accept f id now, false)

unfoldable pub spec_run : ℕ → Accepted → List (String × ℕ) → List Bool
spec_run ttl f [] = []
spec_run ttl f ((id, now) ∷ calls) =
    let (f', duplicate) = spec_step ttl f id now in duplicate ∷ spec_run ttl f' calls

-- The calls come at times that do not fall, none before `start`.
abbrev pub InOrder : ℕ → List (String × ℕ) → Type 0
InOrder start [] = Unit {0}
InOrder start ((id, now) ∷ calls) = (start ≤ now) × InOrder now calls

live_idem : (ttl now : ℕ) (o : Option ℕ) → live ttl now (live ttl now o) ≡ live ttl now o
live_idem ttl now none = refl
live_idem ttl now (some t) = ground arith

live_later :
    (ttl now later : ℕ) (o : Option ℕ)
    → now ≤ later
    → live ttl later (live ttl now o) ≡ live ttl later o
live_later ttl now later none h = refl
live_later ttl now later (some t) h = ground arith

module _ {M : Type 0} (map_ops : KeyedMap M ℕ) (ttl : ℕ) where
  -- A table agrees with the accepted identifiers on all that still counts.
  abbrev pub Agrees : ℕ → M → Accepted → Type 0
  Agrees now m f = (j : String) → live ttl now (map_ops.get j m) ≡ live ttl now (f j)

  pub Agrees-later :
      (now later : ℕ) (m : M) (f : Accepted) → now ≤ later → Agrees now m f → Agrees later m f
  Agrees-later now later m f h agrees j =
      sym (live_later ttl now later (map_ops.get j m) h)
      ∙ (rw (agrees j) (live_later ttl now later (f j) h))

  pub Agrees-retain :
      (now : ℕ) (m : M) (f : Accepted)
      → Agrees now m f
      → Agrees now (map_ops.retain (is_fresh ttl now) m) f
  Agrees-retain now m f agrees j =
      rw (map_ops.get-retain (is_fresh ttl now) j m) (by_entry (map_ops.get j m) (agrees j))
    where
      by_entry :
          (o : Option ℕ)
          → live ttl now o ≡ live ttl now (f j)
          → live ttl now
              (elim o [ none ↦ none | some v ↦ if is_fresh ttl now v then some v else none ])
            ≡ live ttl now (f j)
      by_entry none h = h
      by_entry (some t) h = live_idem ttl now (some t) ∙ h

  pub Agrees-insert :
      (now : ℕ) (id : String) (m : M) (f : Accepted)
      → Agrees now m f
      → Agrees now (map_ops.insert id now m) (accept f id now)
  Agrees-insert now id m f agrees j =
      rw (map_ops.get-insert id j now m)
        (elim (Bool-cases (str_eq id j)) [ inl same ↦ rw same | inr other ↦ rw other (agrees j) ])
