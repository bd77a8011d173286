-- ===== src/Service/Handle.antt =====
-- The dispatch of requests: `new_target`, `handle_result` and `handle` of crates/agent-core/src/service.rs.
use ipa_rs_agent_controller.Common.{Option, none, some, List, Result, ok, err, panic, if◌then◌else◌}
use ipa_rs_agent_controller.Common.Text.{Text, text, is_empty}
use ipa_rs_agent_controller.Path.{FilePath}
use ipa_rs_agent_controller.Host.{Host}
use ipa_rs_agent_controller.Host.Effect.{M, pure, bail, lift, ◌>>=◌, ◌>>◌, attempt}
use ipa_rs_agent_controller.Model.{RootfsBackend, LimitOverrides}
use ipa_rs_agent_controller.Config.{new_config}
use ipa_rs_agent_controller.Export.{parse_export_type}
use ipa_rs_agent_controller.Protocol.{
  Request, Response, ok_response, text_response, exec_response, status_response, attach, error,
}
use ipa_rs_agent_controller.Service.Logs.{Service}
use ipa_rs_agent_controller.Service.Bases.{init, base_freeze, ensure_base}
use ipa_rs_agent_controller.Service.Envs.{env_create, env_destroy, env_status, env_list, ensure_env}
use ipa_rs_agent_controller.Service.Start.{env_start, env_stop, exec, ensure_env_started}
use ipa_rs_agent_controller.Service.Sessions.{
  session_create, shell_attach_target, session_attach_target, session_detach, session_kill,
  session_list, session_logs_text,
}
use ipa_rs_agent_controller.Service.Exports.{diff, export}

module _ {H : Host} (s : Service) where
  unfoldable pub new_target :
      Text → Text → FilePath → Text → LimitOverrides → List Text → M H Response
  new_target target base_id from profile_name limit_overrides command = do
    init s
    ensure_base s base_id from
    ensure_env s target base_id profile_name limit_overrides
    ensure_env_started s target
    (if is_empty command
        then (do
          (machine_name, session_id) ← shell_attach_target s target
          pure (attach machine_name session_id))
        else (do output ← exec s target command; pure (exec_response output)))

  unfoldable pub no_backend : Option RootfsBackend → M H (Unit {0})
  no_backend none = pure tt
  no_backend (some backend) =
      bail (text "backend selection is supported only by the native desktop backend")

  unfoldable pub handle_result : Request → M H Response
  unfolding no_backend
  handle_result (Request.init agentfs) = do
    init (record { config = new_config agentfs })
    pure ok_response
  handle_result (Request.new target base from backend profile limits command cwd) = do
    no_backend backend
    new_target target base from profile limits command
  handle_result (Request.base_freeze name from backend) = do
    no_backend backend
    base_freeze s name from
    pure ok_response
  handle_result (Request.env_create id base profile limits) = do
    env_create s id base profile limits
    pure ok_response
  handle_result (Request.env_start id) = do env_start s id; pure ok_response
  handle_result (Request.env_stop id) = do env_stop s id; pure ok_response
  handle_result (Request.env_destroy id) = do env_destroy s id; pure ok_response
  handle_result Request.env_list = do envs ← env_list s; pure (Response.envs envs)
  handle_result (Request.env_status id) = do status ← env_status s id; pure (status_response status)
  handle_result (Request.exec id command cwd) = do
    output ← exec s id command
    pure (exec_response output)
  handle_result (Request.open_app env_id app path) =
      bail (text "desktop app launching is supported only by the native desktop backend")
  handle_result (Request.shell id cwd persistent) = do
    (machine_name, session_id) ← shell_attach_target s id
    pure (attach machine_name session_id)
  handle_result (Request.session_create env_id session_id command cwd) = do
    session_create s env_id session_id command
    pure ok_response
  handle_result (Request.session_attach env_id session_id) = do
    env ← session_attach_target s env_id session_id
    pure (attach env.machine_name session_id)
  handle_result (Request.session_detach env_id session_id) = do
    session_detach s env_id session_id
    pure ok_response
  handle_result (Request.session_kill env_id session_id) = do
    session_kill s env_id session_id
    pure ok_response
  handle_result (Request.session_list env_id) = do
    sessions ← session_list s env_id
    pure (Response.sessions sessions)
  handle_result (Request.session_logs env_id session_id) = do
    contents ← session_logs_text s env_id session_id
    pure (text_response contents)
  handle_result (Request.diff env_id) = do contents ← diff s env_id; pure (text_response contents)
  handle_result (Request.export env_id export_type) = do
    kind ← lift (parse_export_type export_type)
    contents ← export s env_id kind
    pure (text_response contents)
  handle_result (Request.apply env_id force) =
      bail (text "apply is implemented only by the native desktop path-preserving overlay backend")
  handle_result Request.ping = pure ok_response

  unfoldable pub answer : Result Response → M H Response
  answer (ok response) = pure response
  answer (err e) = pure (error e)
  answer (panic e) = lift (panic e)

  -- An error becomes a response; only a panic is not answered.
  unfoldable pub handle : Request → M H Response
  unfolding answer
  handle request = attempt (handle_result request) >>= answer
