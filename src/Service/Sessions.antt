-- ===== src/Service/Sessions.antt =====
-- The operations on sessions: crates/agent-core/src/service.rs.
use ipa_rs_agent_controller.Common.{Bool, true, false, Option, none, some, List, [], ◌∷◌, ◌++◌}
use ipa_rs_agent_controller.Common.{
  Result, ok, err, panic, contains, list_eq, nat_eq, ◌==◌, if◌then◌else◌,
}
use ipa_rs_agent_controller.Common.Text.{Text, text, is_empty}
use ipa_rs_agent_controller.Path.{FilePath, parent}
use ipa_rs_agent_controller.Host.{Host, create_dir_all}
use ipa_rs_agent_controller.Host.Effect.{
  M, pure, bail, lift, ◌>>=◌, ◌>>◌, attempt, try_exists, perform, read_if_found,
}
use ipa_rs_agent_controller.Model.{
  EnvState, env_state_eq, SessionState, session_state_eq, Env, Session,
}
use ipa_rs_agent_controller.Storage.Ids.{validate_id}
use ipa_rs_agent_controller.Storage.Layout.{session_logs}
use ipa_rs_agent_controller.Storage.Files.{write_text_file}
use ipa_rs_agent_controller.Storage.Records.{
  write_env, read_env, write_session, read_session, list_sessions, session_meta,
}
use ipa_rs_agent_controller.Session
use ipa_rs_agent_controller.Service.Lifecycle.{
  ensure_running_env, should_reject_session_create, sync_env_session_index, add_session,
  default_shell_command,
}
use ipa_rs_agent_controller.Service.Logs.{
  Service, layout, log_daemon, log_lifecycle, mark_env_active,
}

module _ {H : Host} (s : Service) where
  unfoldable pub running_from : Env → Text → Bool → Text → Result Session → M H Bool
  running_from env session_id metadata_exists about (ok _) = Session.is_running env session_id
  running_from env session_id false about (err e) = pure false
  running_from env session_id true about (err e) = bail (about ++ (text ": " ++ e))
  running_from env session_id metadata_exists about (panic e) = lift (panic e)

  -- Whether a session has metadata and runs; unreadable metadata is an error.
  unfoldable pub session_running : Env → Text → Text → Bool → Text → M H Bool
  unfolding running_from
  session_running env env_id session_id metadata_exists about = do
    stored ← attempt (read_session (layout s) env_id session_id)
    running_from env session_id metadata_exists about stored

  unfoldable pub session_create : Text → Text → List Text → M H (Unit {0})
  unfolding session_running
  session_create env_id session_id command = do
    lift (validate_id session_id)
    (if is_empty command then bail (text "session command cannot be empty") else pure tt)
    env ← read_env (layout s) env_id
    lift (ensure_running_env env)
    metadata_exists ← try_exists (session_meta (layout s) env_id session_id)
    running ←
        session_running env env_id session_id metadata_exists
          (text "session " ++ (session_id ++ text " metadata exists but could not be read"))
    (if should_reject_session_create metadata_exists running
        then bail
            (text "session " ++ (session_id ++ (text " is already running in env " ++ env_id)))
        else pure tt)
    session ←
        Session.create env session_id command
          (Session.session_log_path (session_logs (layout s) env_id) session_id)
    active ← mark_env_active (add_session env session_id)
    write_session (layout s) session
    write_env (layout s) active
    log_daemon s env_id (text "session " ++ (session_id ++ text " created"))
    log_lifecycle s env_id (text "session " ++ (session_id ++ text " created"))

  unfoldable pub shell_attach_target : Text → M H (Text × Text)
  unfolding session_running
  shell_attach_target env_id = do
    env ← read_env (layout s) env_id
    lift (ensure_running_env env)
    metadata_exists ← try_exists (session_meta (layout s) env_id (text "shell"))
    running ←
        session_running env env_id (text "shell") metadata_exists
          (text "shell session metadata exists but could not be read")
    current ← if running then pure env else (do
      session_create env_id (text "shell") default_shell_command
      read_env (layout s) env_id)
    active ← mark_env_active current
    write_env (layout s) active
    pure (active.machine_name, text "shell")

  unfoldable pub not_running : Text → Text → Session → M H (Unit {0})
  not_running env_id session_id session = do
    write_session (layout s) (record session { state = SessionState.stopped })
    bail
        (text "session " ++ (session_id ++ (text " in env " ++ (env_id ++ text " is not running"))))

  unfoldable pub session_attach_target : Text → Text → M H Env
  unfolding not_running
  session_attach_target env_id session_id = do
    env ← read_env (layout s) env_id
    lift (ensure_running_env env)
    session ← read_session (layout s) env_id session_id
    running ← Session.is_running env session_id
    (if running then pure tt else not_running env_id session_id session)
    (if session.state == SessionState.running
        then pure tt
        else write_session (layout s) (record session { state = SessionState.running }))
    active ← mark_env_active env
    write_env (layout s) active
    pure active

  unfoldable pub or_empty : Option Text → M H Text
  or_empty none = pure []
  or_empty (some contents) = pure contents

  unfoldable pub make_parent : Option FilePath → M H (Unit {0})
  make_parent none = pure tt
  make_parent (some dir) = perform (create_dir_all dir)

  unfoldable pub offline_from : FilePath → Option Text → M H Text
  unfolding make_parent or_empty
  offline_from log none = do old ← read_if_found (λ o. H.read_to_string o log); or_empty old
  offline_from log (some contents) = do
    make_parent (parent log)
    write_text_file log contents
    pure contents

  -- `read_offline_session_log`
  unfoldable pub read_offline_session_log : FilePath → FilePath → M H Text
  unfolding offline_from
  read_offline_session_log child_transcript agentfs_log = do
    transcript ← read_if_found (λ o. H.read_to_string o child_transcript)
    offline_from agentfs_log transcript

  unfoldable pub session_logs_text : Text → Text → M H Text
  session_logs_text env_id session_id = do
    env ← read_env (layout s) env_id
    session ← read_session (layout s) env_id session_id
    logs ←
        if env.state == EnvState.running
        then Session.logs env session_id session.log_path
        else read_offline_session_log (Session.host_transcript_path env session_id) session.log_path
    log_daemon s env_id (text "session " ++ (session_id ++ text " logs synced"))
    log_lifecycle s env_id (text "session " ++ (session_id ++ text " logs synced"))
    active ← mark_env_active env
    write_env (layout s) active
    pure logs

  unfoldable pub session_detach : Text → Text → M H (Unit {0})
  unfolding not_running
  session_detach env_id session_id = do
    env ← read_env (layout s) env_id
    lift (ensure_running_env env)
    session ← read_session (layout s) env_id session_id
    running ← Session.is_running env session.id
    (if running then pure tt else not_running env_id session_id session)
    Session.detach env session.id
    active ← mark_env_active env
    write_env (layout s) active
    log_daemon s env_id (text "session " ++ (session_id ++ text " detached"))
    log_lifecycle s env_id (text "session " ++ (session_id ++ text " detached"))

  unfoldable pub session_kill : Text → Text → M H (Unit {0})
  session_kill env_id session_id = do
    env ← read_env (layout s) env_id
    lift (ensure_running_env env)
    session ← read_session (layout s) env_id session_id
    Session.kill env session.id
    write_session (layout s) (record session { state = SessionState.stopped })
    active ← mark_env_active env
    write_env (layout s) active
    log_daemon s env_id (text "session " ++ (session_id ++ text " killed"))
    log_lifecycle s env_id (text "session " ++ (session_id ++ text " killed"))

  unfoldable pub refresh_sessions : List Text → List Session → M H (List Session)
  refresh_sessions live [] = pure []
  refresh_sessions live (session ∷ sessions) = do
    fresh ← pure (record session {
      state = if contains live session.id then SessionState.running else SessionState.stopped;
    })
    write_session (layout s) fresh
    rest ← refresh_sessions live sessions
    pure (fresh ∷ rest)

  unfoldable pub write_synced : Option Env → M H (Unit {0})
  write_synced none = pure tt
  write_synced (some env) = write_env (layout s) env

  unfoldable pub session_list : Text → M H (List Session)
  unfolding refresh_sessions write_synced
  session_list env_id = do
    env ← read_env (layout s) env_id
    live ← if env.state == EnvState.running then Session.list env else pure []
    stored ← list_sessions (layout s) env_id
    sessions ← refresh_sessions live stored
    write_synced (sync_env_session_index env sessions)
    pure sessions
