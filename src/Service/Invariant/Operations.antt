-- ===== src/Service/Invariant/Operations.antt =====
-- The operations on the sessions of an environment keep the stored metadata valid.
use ipa_rs_agent_controller.Common.{Bool, true, false, List}
use ipa_rs_agent_controller.Common.{Result, ok, err, panic}
use ipa_rs_agent_controller.Common.Text.{Text}
use ipa_rs_agent_controller.Path.{FilePath}
use ipa_rs_agent_controller.Model.{Env, Session}
use ipa_rs_agent_controller.Host.{Host}
use ipa_rs_agent_controller.Host.Effect.{M}
use ipa_rs_agent_controller.Host.Keeps.{
  Keeps, Keeps-bind_lift, Keeps-bail, Keeps-pure, Keeps-lift, keeps_rules,
}
use ipa_rs_agent_controller.Storage.Ids.{validate_id}
use ipa_rs_agent_controller.Storage.Files.Keeps.{Keeps-read_json}
use ipa_rs_agent_controller.Storage.Records.{read_session}
use ipa_rs_agent_controller.Session
use ipa_rs_agent_controller.Session.{session_log_path}
use ipa_rs_agent_controller.Service.Logs.{Service, layout}
use ipa_rs_agent_controller.Service.Guards.{read_env-Keeps}
use ipa_rs_agent_controller.Service.Sessions.{
  running_from, session_running, session_create, shell_attach_target, not_running,
  session_attach_target, session_detach, session_kill,
}
use ipa_rs_agent_controller.Service.Invariant.{Trusted, StoredValid}
use ipa_rs_agent_controller.Service.Invariant.Files.{Other}
use ipa_rs_agent_controller.Service.Invariant.Actions.{
  Keeps-append_to_file, Keeps-run, Keeps-run_checked,
}
use ipa_rs_agent_controller.Service.Invariant.Stored.{Keeps-write_env, validate_id-valid}
use ipa_rs_agent_controller.Service.Invariant.Sessions.{
  session_log-Other, write_session-Keeps, mark_env_active-Keeps, Keeps-log_daemon,
  Keeps-log_lifecycle,
}

module _ {H : Host} (s : Service) (trusted : Trusted H (layout s)) where
  abbrev Safe : {X : Type 0} → M H X → Type 0
  Safe m = Keeps {H = H} (StoredValid (layout s)) m

  pub read_session-Safe : (env_id id : Text) → Safe (read_session (layout s) env_id id)
  unfolding read_session
  read_session-Safe env_id id = search (keeps_rules, Keeps-read_json) depth 12

  is_running-Safe : (env : Env) (id : Text) → Safe (Session.is_running env id)
  unfolding Session.is_running
  is_running-Safe env id = search (keeps_rules, Keeps-run) depth 12

  detach-Safe : (env : Env) (id : Text) → Safe (Session.detach env id)
  unfolding Session.detach
  detach-Safe env id = search (keeps_rules, Keeps-run) depth 12

  kill-Safe : (env : Env) (id : Text) → Safe (Session.kill env id)
  unfolding Session.kill
  kill-Safe env id = search (keeps_rules, Keeps-run_checked) depth 12

  create-Safe :
      (env : Env) (id : Text) (command : List Text) (log : FilePath)
      → Other (layout s) log
      → Safe (Session.create env id command log)
  unfolding Session.create
  create-Safe env id command log o =
      search (keeps_rules, Keeps-run_checked, Keeps-append_to_file) depth 12

  running_from-Safe :
      (env : Env) (id : Text) (exists : Bool) (about : Text) (r : Result Session)
      → Safe (running_from s env id exists about r)
  unfolding running_from
  running_from-Safe env id exists about (ok _) = is_running-Safe env id
  running_from-Safe env id false about (err e) = Keeps-pure false
  running_from-Safe env id true about (err e) = Keeps-bail _
  running_from-Safe env id exists about (panic e) = Keeps-lift (panic e)

  session_running-Safe :
      (env : Env) (env_id id : Text) (exists : Bool) (about : Text)
      → Safe (session_running s env env_id id exists about)
  unfolding session_running
  session_running-Safe env env_id id exists about =
      search (keeps_rules, read_session-Safe, running_from-Safe) depth 12

  not_running-Safe : (env_id id : Text) (session : Session) → Safe (not_running s env_id id session)
  unfolding not_running
  not_running-Safe env_id id session = search (keeps_rules, write_session-Keeps) depth 12

  pub session_create-Safe :
      (env_id id : Text) (command : List Text) → Safe (session_create s env_id id command)
  unfolding session_create session_log_path
  session_create-Safe env_id id command = Keeps-bind_lift (validate_id id) _ λ _ valid.
      let log_other = session_log-Other (layout s) env_id id (validate_id-valid id valid) in
      search
        (
          keeps_rules, read_env-Keeps, session_running-Safe, create-Safe, log_other,
          mark_env_active-Keeps, write_session-Keeps, Keeps-write_env, Keeps-log_daemon,
          Keeps-log_lifecycle,
        )
        depth 60 fits 8000

  pub session_kill-Safe : (env_id id : Text) → Safe (session_kill s env_id id)
  unfolding session_kill
  session_kill-Safe env_id id =
      search
        (
          keeps_rules, read_env-Keeps, read_session-Safe, kill-Safe, mark_env_active-Keeps,
          write_session-Keeps, Keeps-write_env, Keeps-log_daemon, Keeps-log_lifecycle,
        )
        depth 60 fits 8000

  pub session_detach-Safe : (env_id id : Text) → Safe (session_detach s env_id id)
  unfolding session_detach
  session_detach-Safe env_id id =
      search
        (
          keeps_rules, read_env-Keeps, read_session-Safe, is_running-Safe, not_running-Safe,
          detach-Safe, mark_env_active-Keeps, Keeps-write_env, Keeps-log_daemon,
          Keeps-log_lifecycle,
        )
        depth 60 fits 8000

  pub session_attach_target-Safe : (env_id id : Text) → Safe (session_attach_target s env_id id)
  unfolding session_attach_target
  session_attach_target-Safe env_id id =
      search
        (
          keeps_rules, read_env-Keeps, read_session-Safe, is_running-Safe, not_running-Safe,
          mark_env_active-Keeps, write_session-Keeps, Keeps-write_env,
        )
        depth 60 fits 8000

  pub shell_attach_target-Safe : (env_id : Text) → Safe (shell_attach_target s env_id)
  unfolding shell_attach_target
  shell_attach_target-Safe env_id =
      search
        (
          keeps_rules, read_env-Keeps, session_running-Safe, session_create-Safe,
          mark_env_active-Keeps, Keeps-write_env,
        )
        depth 60 fits 8000
