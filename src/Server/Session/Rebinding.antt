-- ===== src/Server/Session/Rebinding.antt =====
-- An agent that is given a second session, in crates/claw-server/src/session.rs.
use claw_kernel.Prelude.{
  suc, ◌≤◌, ◌<◌, ◌≡◌, ◌≢◌, refl, sym, true, false, none, some, String, arith, str_eq, str_eq_iff,
  str_eq_refl, leb,
}
use claw_kernel.Prelude.KeyedMap.{KeyedMap}
use claw_kernel.Server.Session.{
  Session, SessionManager, new_for_agent, create_for_agent, session_for_agent, get, unlink, remove,
}
use claw_kernel.Server.Session.Histories.{len-insert-le}

str_eq-false : (s t : String) → s ≢ t → str_eq s t ≡ false
str_eq-false s t ne = ground (arith, str_eq_iff s t)

module _ {S A P : Type 0} (session_ops : KeyedMap S (Session P))
    (agent_ops : KeyedMap A String) where
  made :
      (m : SessionManager S A) (agent id : String) (p : P)
      → session_ops.len m.sessions < m.max_sessions
      → (create_for_agent session_ops agent_ops agent id p m).0 ≡ record m {
        sessions = session_ops.insert id (new_for_agent id agent p) m.sessions;
        agent_to_session = agent_ops.insert agent id m.agent_to_session;
      }
  unfolding create_for_agent
  made m agent id p room = rw has_room
    where
      has_room : leb m.max_sessions (session_ops.len m.sessions) ≡ false
      has_room = ground arith

  removed_known :
      (m : SessionManager S A) (id : String) (s : Session P)
      → session_ops.get id m.sessions ≡ some s
      → remove session_ops agent_ops id m ≡ (
        record m {
          sessions = session_ops.remove id m.sessions;
          agent_to_session = unlink session_ops agent_ops s.agent_id m.agent_to_session;
        },
        true,
      )
  unfolding remove
  removed_known m id s e = rw (e, remove)

  -- If an agent is given a second session while it has one, under identifiers that differ, and the
  -- first session is then removed, the agent is no longer found although its second session stays.
  pub remove_loses_agent :
      (m : SessionManager S A) (agent id newer : String) (p q : P)
      → id ≢ newer
      → suc (suc (session_ops.len m.sessions)) ≤ m.max_sessions
      → let m1 = (create_for_agent session_ops agent_ops agent id p m).0 in
        let m2 = (create_for_agent session_ops agent_ops agent newer q m1).0 in
        let (m3, removed) = remove session_ops agent_ops id m2 in
        (removed ≡ true)
        × (session_for_agent session_ops agent_ops agent m2 ≡ some newer)
        × (session_for_agent session_ops agent_ops agent m3 ≡ none)
        × (get session_ops agent_ops newer m3 ≡ some (new_for_agent newer agent q))
  unfolding session_for_agent get unlink
  remove_loses_agent m agent id newer p q ne room =
      rw
        (
          made m agent id p (omega arith),
          made m1 agent newer q (
              omega (
                arith,
                len-insert-le session_ops agent_ops id (new_for_agent id agent p) m.sessions,
              )),
          removed_known m2 id (new_for_agent id agent p) older_there,
        )
        (
          refl,
          rw (agent_ops.get-insert agent agent newer m1.agent_to_session, str_eq_refl agent),
          rw (agent_ops.get-remove agent agent m2.agent_to_session, str_eq_refl agent),
          newer_there,
        )
    where
      m1 : SessionManager S A
      m1 = record m {
        sessions = session_ops.insert id (new_for_agent id agent p) m.sessions;
        agent_to_session = agent_ops.insert agent id m.agent_to_session;
      }

      m2 : SessionManager S A
      m2 = record m1 {
        sessions = session_ops.insert newer (new_for_agent newer agent q) m1.sessions;
        agent_to_session = agent_ops.insert agent newer m1.agent_to_session;
      }

      differ : str_eq newer id ≡ false
      differ = str_eq-false newer id (λ e. ne (sym e))

      older_there : session_ops.get id m2.sessions ≡ some (new_for_agent id agent p)
      older_there =
          rw (session_ops.get-insert newer id (new_for_agent newer agent q) m1.sessions, differ)
            (rw
              (session_ops.get-insert id id (new_for_agent id agent p) m.sessions, str_eq_refl id))

      newer_there :
          session_ops.get newer (session_ops.remove id m2.sessions)
          ≡ some (new_for_agent newer agent q)
      newer_there =
          rw (session_ops.get-remove id newer m2.sessions, str_eq-false id newer ne)
            (rw (
              session_ops.get-insert newer newer (new_for_agent newer agent q) m1.sessions,
              str_eq_refl newer,
            ))
