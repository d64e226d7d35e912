-- ===== src/Server/ChannelRegistry/Laws.antt =====
-- Registering channels, and the deduplication cache of crates/claw-server/src/channel_registry.rs.
use claw_kernel.Prelude.{
  ℕ, ◌≤◌, ◌≡◌, refl, sym, ap, ◌∙◌, Bool, true, false, Option, none, some, List, [], ◌∷◌, String,
  if◌then◌else◌, str_eq, str_eq_refl, str_eq_iff, is_some, Bool-cases, Option-cases, ◌⊎◌, inl, inr,
  ok, err,
}
use mathlib.Core.Path.{subst}
use claw_kernel.Prelude.KeyedMap.{KeyedMap}
use claw_kernel.Channel.Dedup.{
  Accepted, live, is_fresh, spec_step, spec_run, InOrder, Agrees, Agrees-later, Agrees-retain,
  Agrees-insert,
}
use claw_kernel.Server.ChannelRegistry.{
  RegisteredChannel, ChannelRegistry, already_registered, seen_ttl, new, register, unregister,
  is_duplicate,
}

module _ {C S T J X : Type 0} (channel_ops : KeyedMap C (RegisteredChannel J X))
    (seen_ops : KeyedMap S ℕ) (thread_ops : KeyedMap T String) where
  -- The answers of a history of deduplication calls.
  pub run_checks : ChannelRegistry C S T → List (String × ℕ) → List Bool
  run_checks r [] = []
  run_checks r ((id, now) ∷ calls) =
      let (r', duplicate) = is_duplicate channel_ops seen_ops thread_ops id now r in
      duplicate ∷ run_checks r' calls

  -- After the eviction an entry is there exactly if it is live.
  is_some-retain :
      (now : ℕ) (id : String) (m : S)
      → is_some (seen_ops.get id (seen_ops.retain (is_fresh seen_ttl now) m))
        ≡ is_some (live seen_ttl now (seen_ops.get id m))
  is_some-retain now id m =
      rw (seen_ops.get-retain (is_fresh seen_ttl now) id m) (by_entry (seen_ops.get id m))
    where
      by_entry :
          (o : Option ℕ)
          → is_some
              (elim o [ none ↦ none | some v ↦ if is_fresh seen_ttl now v then some v else none ])
            ≡ is_some (live seen_ttl now o)
      by_entry none = refl
      by_entry (some t) = refl

  step-Agrees :
      (start now : ℕ) (id : String) (r : ChannelRegistry C S T) (f : Accepted)
      → start ≤ now
      → Agrees seen_ops seen_ttl start r.seen_ids f
      → let (r', duplicate) = is_duplicate channel_ops seen_ops thread_ops id now r in
        let (f', expected) = spec_step seen_ttl f id now in
        (duplicate ≡ expected) × Agrees seen_ops seen_ttl now r'.seen_ids f'
  unfolding is_duplicate spec_step
  step-Agrees start now id r f h agrees = elim (Bool-cases (is_some (live seen_ttl now (f id)))) [
    | inl seen ↦ rw (test ∙ seen) (rw seen (refl, swept))
    | inr unseen ↦
        rw (test ∙ unseen) (rw unseen (refl, Agrees-insert seen_ops seen_ttl now id _ f swept))
  ]
    where
      moved : Agrees seen_ops seen_ttl now r.seen_ids f
      moved = Agrees-later seen_ops seen_ttl start now r.seen_ids f h agrees

      swept : Agrees seen_ops seen_ttl now (seen_ops.retain (is_fresh seen_ttl now) r.seen_ids) f
      swept = Agrees-retain seen_ops seen_ttl now r.seen_ids f moved

      test :
          is_some (seen_ops.get id (seen_ops.retain (is_fresh seen_ttl now) r.seen_ids))
          ≡ is_some (live seen_ttl now (f id))
      test = is_some-retain now id r.seen_ids ∙ ap is_some (moved id)

  run_checks-Agrees :
      (start : ℕ) (calls : List (String × ℕ)) (r : ChannelRegistry C S T) (f : Accepted)
      → InOrder start calls
      → Agrees seen_ops seen_ttl start r.seen_ids f
      → run_checks r calls ≡ spec_run seen_ttl f calls
  unfolding run_checks spec_run
  run_checks-Agrees start [] r f order agrees = refl
  run_checks-Agrees start ((id, now) ∷ calls) r f (h, order) agrees =
      let (same, after) = step-Agrees start now id r f h agrees in
      rw
        (run_checks-Agrees now calls (is_duplicate channel_ops seen_ops thread_ops id now r).0
          (spec_step seen_ttl f id now).0 order after)
        (ap (λ b. b ∷ spec_run seen_ttl (spec_step seen_ttl f id now).0 calls) same)

  -- The cache of a new registry calls a message a duplicate exactly when the specification does,
  -- for a time to live of a minute, on every history of calls at times that do not fall.
  pub run_checks-spec_run :
      (calls : List (String × ℕ))
      → InOrder 0 calls
      → run_checks (new channel_ops seen_ops thread_ops) calls ≡ spec_run seen_ttl (λ j. none) calls
  unfolding new
  run_checks-spec_run calls order =
      run_checks-Agrees 0 calls (new channel_ops seen_ops thread_ops) (λ j. none) order
        (λ j. rw (seen_ops.get-empty j))

  -- Registering a channel under an identifier that is taken is refused and changes nothing. Under a
  -- free one it succeeds: the channel is found as it was given, every other identifier leads to
  -- what it led to, and unregistering it afterwards succeeds and restores what every identifier
  -- leads to.
  register_then_unregister :
      (kind id : String) (config : J) (tx : Option X) (now : ℕ) (r : ChannelRegistry C S T)
      → let (r', result) = register channel_ops seen_ops thread_ops kind id config tx now r in
        let (r'', removed) = unregister channel_ops seen_ops thread_ops id r' in
        let channel : RegisteredChannel J X = record {
          channel_id = id;
          channel_type = kind;
          config = config;
          registered_at = now;
          outbound_tx = tx;
        } in
        ((is_some (channel_ops.get id r.channels) ≡ true)
          × (result ≡ err (already_registered id))
          × (r' ≡ r))
        ⊎ ((channel_ops.get id r.channels ≡ none)
            × (result ≡ ok tt)
            × (channel_ops.get id r'.channels ≡ some channel)
            × ((j : String)
                → str_eq id j ≡ false
                → channel_ops.get j r'.channels ≡ channel_ops.get j r.channels)
            × (removed ≡ true)
            × ((j : String) → channel_ops.get j r''.channels ≡ channel_ops.get j r.channels))
  unfolding register unregister
  register_then_unregister kind id config tx now r =
      elim (Option-cases (channel_ops.get id r.channels)) [
        | inl free ↦ inr (
          free,
          rw free,
          rw free (rw (found id, str_eq_refl id)),
          λ j other. rw free (rw (found j, other)),
          rw free (rw (found id, str_eq_refl id)),
          λ j. rw free (restored j free),
        )
        | inr (c, taken) ↦ inl (rw taken, rw taken, rw taken)
      ]
    where
      channel : RegisteredChannel J X
      channel = record {
        channel_id = id;
        channel_type = kind;
        config = config;
        registered_at = now;
        outbound_tx = tx;
      }

      found :
          (j : String)
          → channel_ops.get j (channel_ops.insert id channel r.channels)
            ≡ (if str_eq id j then some channel else channel_ops.get j r.channels)
      found j = channel_ops.get-insert id j channel r.channels

      restored :
          (j : String)
          → channel_ops.get id r.channels ≡ none
          → channel_ops.get j (channel_ops.remove id (channel_ops.insert id channel r.channels))
            ≡ channel_ops.get j r.channels
      restored j free =
          rw (channel_ops.get-remove id j (channel_ops.insert id channel r.channels), found j)
            (elim (Bool-cases (str_eq id j)) [
              | inl same ↦ rw same (
                  sym (
                    subst (λ k. channel_ops.get k r.channels ≡ none) ((str_eq_iff id j).0 same)
                      free))
              | inr other ↦ rw other
            ])
