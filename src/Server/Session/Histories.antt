-- ===== src/Server/Session/Histories.antt =====
-- The sessions and the index over every history of calls of `SessionManager`.
use claw_kernel.Prelude.{
  ℕ, suc, ◌≤◌, ◌≡◌, refl, inl, inr, none, String, arith, leb, Bool-cases, Option-cases,
}
use claw_kernel.Prelude.KeyedMap.{KeyedMap}
use claw_kernel.Server.Session.{
  Session, SessionManager, new_session, new_for_agent, new, insert_session, create, create_with_id,
  create_for_agent, get, remove, remove_by_agent, clear,
}
use claw_kernel.Server.Session.Index.{
  Linked, insert-Linked, link-Linked, unlink-Linked, unagent-Linked,
}

module _ {S A P : Type 0} (session_ops : KeyedMap S (Session P))
    (agent_ops : KeyedMap A String) where
  -- One call of the manager; a new session comes under an identifier that no session has.
  pub data Step (m : SessionManager S A) : SessionManager S A → Type 0 where
    creates :
        (id : String) (p : P)
        → get session_ops agent_ops id m ≡ none
        → Step m (create session_ops agent_ops id p m).0
    creates_with_id :
        (id : String) (p : P)
        → get session_ops agent_ops id m ≡ none
        → Step m (create_with_id session_ops agent_ops id p m).0
    creates_for_agent :
        (agent id : String) (p : P)
        → get session_ops agent_ops id m ≡ none
        → Step m (create_for_agent session_ops agent_ops agent id p m).0
    removes : (id : String) → Step m (remove session_ops agent_ops id m).0
    removes_by_agent : (agent : String) → Step m (remove_by_agent session_ops agent_ops agent m).0
    clears : Step m (clear session_ops agent_ops m)

  pub data Reach (max : ℕ) : SessionManager S A → Type 0 where
    started : Reach max (new session_ops agent_ops max)
    next : {m m' : SessionManager S A} → Reach max m → Step m m' → Reach max m'

  pub record IsValid (max : ℕ) (m : SessionManager S A) : Type 0 where
    pub linked : Linked session_ops agent_ops m.sessions m.agent_to_session
    pub within : session_ops.len m.sessions ≤ max
    pub same_max : m.max_sessions ≡ max

  pub len-insert-le :
      (id : String) (s : Session P) (sessions : S)
      → session_ops.len (session_ops.insert id s sessions) ≤ suc (session_ops.len sessions)
  len-insert-le id s sessions = ground (arith, session_ops.len-insert id s sessions)

  len-remove-le :
      (id : String) (sessions : S)
      → session_ops.len (session_ops.remove id sessions) ≤ session_ops.len sessions
  len-remove-le id sessions = ground (arith, session_ops.len-remove id sessions)

  insert_session-IsValid :
      (max : ℕ) (m : SessionManager S A) (s : Session P)
      → session_ops.get s.id m.sessions ≡ none
      → IsValid max m
      → IsValid max (insert_session session_ops agent_ops s m).0
  unfolding insert_session
  insert_session-IsValid max m s fresh v =
      elim (Bool-cases (leb m.max_sessions (session_ops.len m.sessions))) [
        | inl full ↦ rw full v
        | inr room ↦ rw room (record {
          linked =
              insert-Linked session_ops agent_ops s.id s m.sessions m.agent_to_session fresh
                v.linked;
          within = ground (arith, len-insert-le s.id s m.sessions, v.same_max);
          same_max = v.same_max;
        })
      ]

  create_for_agent-IsValid :
      (max : ℕ) (m : SessionManager S A) (agent id : String) (p : P)
      → session_ops.get id m.sessions ≡ none
      → IsValid max m
      → IsValid max (create_for_agent session_ops agent_ops agent id p m).0
  unfolding create_for_agent
  create_for_agent-IsValid max m agent id p fresh v =
      elim (Bool-cases (leb m.max_sessions (session_ops.len m.sessions))) [
        | inl full ↦ rw full v
        | inr room ↦ rw room (record {
          linked =
              link-Linked session_ops agent_ops agent id p m.sessions m.agent_to_session fresh
                v.linked;
          within =
              ground (arith, len-insert-le id (new_for_agent id agent p) m.sessions, v.same_max);
          same_max = v.same_max;
        })
      ]

  remove-IsValid :
      (max : ℕ) (m : SessionManager S A) (id : String)
      → IsValid max m
      → IsValid max (remove session_ops agent_ops id m).0
  unfolding remove
  remove-IsValid max m id v = elim (Option-cases (session_ops.get id m.sessions)) [
    | inl missing ↦ rw (missing, remove) v
    | inr (s, there) ↦
        rw (there, remove)
          (record {
            linked =
                unlink-Linked session_ops agent_ops id s m.sessions m.agent_to_session there
                  v.linked s.agent_id refl;
            within = omega (arith, len-remove-le id m.sessions, v.within);
            same_max = v.same_max;
          })
  ]

  remove_by_agent-IsValid :
      (max : ℕ) (m : SessionManager S A) (agent : String)
      → IsValid max m
      → IsValid max (remove_by_agent session_ops agent_ops agent m).0
  unfolding remove_by_agent
  remove_by_agent-IsValid max m agent v =
      elim (Option-cases (agent_ops.get agent m.agent_to_session)) [
        | inl missing ↦ rw (missing, remove_by_agent) v
        | inr (id, named) ↦
            rw (named, remove_by_agent)
              (record {
                linked =
                    unagent-Linked session_ops agent_ops agent id m.sessions m.agent_to_session
                      named v.linked;
                within = omega (arith, len-remove-le id m.sessions, v.within);
                same_max = v.same_max;
              })
      ]

  empty-IsValid :
      (max : ℕ) (m : SessionManager S A)
      → m.max_sessions ≡ max
      → m.sessions ≡ session_ops.empty
      → m.agent_to_session ≡ agent_ops.empty
      → IsValid max m
  empty-IsValid max m same s a = record {
    linked = λ agent id e. absurd (cc (rw (a, agent_ops.get-empty agent) at e));
    within = rw s (omega (arith, session_ops.len-empty));
    same_max = same;
  }

  Step-IsValid : {max : ℕ} {m m' : SessionManager S A} → Step m m' → IsValid max m → IsValid max m'
  unfolding create create_with_id get clear
  Step-IsValid {max} {m} (creates id p f) v = insert_session-IsValid max m (new_session id p) f v
  Step-IsValid {max} {m} (creates_with_id id p f) v =
      insert_session-IsValid max m (new_session id p) f v
  Step-IsValid {max} {m} (creates_for_agent a id p f) v = create_for_agent-IsValid max m a id p f v
  Step-IsValid {max} {m} (removes id) v = remove-IsValid max m id v
  Step-IsValid {max} {m} (removes_by_agent a) v = remove_by_agent-IsValid max m a v
  Step-IsValid {max} {m} clears v =
      empty-IsValid max (clear session_ops agent_ops m) v.same_max refl refl

  -- After any calls of a new manager, in which new sessions come under identifiers that no session
  -- has, there are at most `max` sessions, and every agent of the index leads to a session that
  -- exists and is bound to that agent.
  pub Reach-IsValid : {max : ℕ} {m : SessionManager S A} → Reach max m → IsValid max m
  unfolding new
  Reach-IsValid {max} started = empty-IsValid max (new session_ops agent_ops max) refl refl refl
  Reach-IsValid (next r s) = Step-IsValid s (Reach-IsValid r)
