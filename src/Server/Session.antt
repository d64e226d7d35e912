-- ===== src/Server/Session.antt =====
-- crates/claw-server/src/session.rs: `SessionManager`. The two tables are `KeyedMap`s; what a
-- session holds besides its identifiers (the notification channel, the agent loop, the pending
-- tool calls) is of type `P`. The identifier that `Uuid::new_v4` gives is an argument.
pub mod Index
pub mod Histories
pub mod Rebinding
use claw_kernel.Prelude.{
  ℕ, Bool, true, false, Option, none, some, List, [], ◌∷◌, String, if◌then◌else◌, leb, is_some,
  Result, ok, err,
}
use claw_kernel.Prelude.KeyedMap.{KeyedMap}

pub record Session (P : Type 0) : Type 0 where
  pub id : String
  pub agent_id : Option String
  pub payload : P

pub data ServerError : Type 0 where
  max_sessions_reached : ℕ → ServerError

pub record SessionManager (S A : Type 0) : Type 0 where
  pub sessions : S
  pub agent_to_session : A
  pub max_sessions : ℕ

abbrev pub new_session : {P : Type 0} → String → P → Session P
new_session id payload = record { id = id; agent_id = none; payload = payload }

abbrev pub new_for_agent : {P : Type 0} → String → String → P → Session P
new_for_agent id agent_id payload = record { id = id; agent_id = some agent_id; payload = payload }

module _ {S A P : Type 0} (session_ops : KeyedMap S (Session P))
    (agent_ops : KeyedMap A String) where
  unfoldable pub new : ℕ → SessionManager S A
  new max_sessions = record {
    sessions = session_ops.empty;
    agent_to_session = agent_ops.empty;
    max_sessions = max_sessions;
  }

  unfoldable pub count : SessionManager S A → ℕ
  count m = session_ops.len m.sessions

  -- The check of the limit, and the session put into the table.
  unfoldable pub insert_session :
      Session P → SessionManager S A → SessionManager S A × Result ServerError (Session P)
  insert_session session m =
      if leb m.max_sessions (session_ops.len m.sessions)
      then (m, err (max_sessions_reached m.max_sessions))
      else (record m { sessions = session_ops.insert session.id session m.sessions }, ok session)

  unfoldable pub create :
      String → P → SessionManager S A → SessionManager S A × Result ServerError (Session P)
  unfolding insert_session
  create uuid payload m = insert_session (new_session uuid payload) m

  unfoldable pub create_with_id :
      String → P → SessionManager S A → SessionManager S A × Result ServerError (Session P)
  unfolding insert_session
  create_with_id id payload m = insert_session (new_session id payload) m

  unfoldable pub create_for_agent :
      String → String → P → SessionManager S A → SessionManager S A × Result ServerError (Session P)
  create_for_agent agent_id uuid payload m =
      let session = new_for_agent uuid agent_id payload in
      if leb m.max_sessions (session_ops.len m.sessions)
      then (m, err (max_sessions_reached m.max_sessions))
      else (
        record m {
          sessions = session_ops.insert uuid session m.sessions;
          agent_to_session = agent_ops.insert agent_id uuid m.agent_to_session;
        },
        ok session,
      )

  unfoldable pub session_for_agent : String → SessionManager S A → Option String
  session_for_agent agent_id m = agent_ops.get agent_id m.agent_to_session

  unfoldable pub get : String → SessionManager S A → Option (Session P)
  get id m = session_ops.get id m.sessions

  pub unlink : Option String → A → A
  unlink none index = index
  unlink (some agent_id) index = agent_ops.remove agent_id index

  unfoldable pub remove : String → SessionManager S A → SessionManager S A × Bool
  unfolding unlink
  remove id m = elim (session_ops.get id m.sessions) [
    | none ↦ (m, false)
    | some session ↦ (
      record m {
        sessions = session_ops.remove id m.sessions;
        agent_to_session = unlink session.agent_id m.agent_to_session;
      },
      true,
    )
  ]

  unfoldable pub remove_by_agent : String → SessionManager S A → SessionManager S A × Option String
  remove_by_agent agent_id m = elim (agent_ops.get agent_id m.agent_to_session) [
    | none ↦ (m, none)
    | some session_id ↦ (
      record m {
        sessions = session_ops.remove session_id m.sessions;
        agent_to_session = agent_ops.remove agent_id m.agent_to_session;
      },
      some session_id,
    )
  ]

  unfoldable pub clear : SessionManager S A → SessionManager S A
  clear m = record m { sessions = session_ops.empty; agent_to_session = agent_ops.empty }
