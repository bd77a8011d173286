-- ===== src/Service/Invariant/Requests.antt =====
-- Every request to the daemon keeps the stored metadata valid.
use ipa_rs_agent_controller.Common.{Option, none, some, List}
use ipa_rs_agent_controller.Common.{Result, ok, err, panic}
use ipa_rs_agent_controller.Common.Text.{Text}
use ipa_rs_agent_controller.Path.{FilePath}
use ipa_rs_agent_controller.Model.{RootfsBackend, LimitOverrides}
use ipa_rs_agent_controller.Host.{Host}
use ipa_rs_agent_controller.Host.Effect.{World, M}
use ipa_rs_agent_controller.Host.Keeps.{
  Keeps, Keeps-pure, Keeps-bail, Keeps-lift, Keeps-attempt, Keeps-bind, keeps_rules,
}
use ipa_rs_agent_controller.Protocol.{Request, Response}
use ipa_rs_agent_controller.Service.Logs.{Service, layout}
use ipa_rs_agent_controller.Service.Handle.{new_target, no_backend, handle_result, answer, handle}
use ipa_rs_agent_controller.Service.Invariant.{Trusted, StoredValid}
use ipa_rs_agent_controller.Service.Invariant.Sessions.{exec-Keeps}
use ipa_rs_agent_controller.Service.Invariant.Operations.{
  session_create-Safe, session_kill-Safe, session_detach-Safe, session_attach_target-Safe,
  shell_attach_target-Safe,
}
use ipa_rs_agent_controller.Service.Invariant.Envs.{
  env_stop-Safe, env_destroy-Safe, env_status-Safe, env_list-Safe,
}
use ipa_rs_agent_controller.Service.Invariant.Starting.{env_start-Safe, ensure_env_started-Safe}
use ipa_rs_agent_controller.Service.Invariant.Creating.{env_create-Safe, ensure_env-Safe}
use ipa_rs_agent_controller.Service.Invariant.Freezing.{
  init-Safe, base_freeze-Safe, ensure_base-Safe,
}
use ipa_rs_agent_controller.Service.Invariant.Looking.{
  session_list-Safe, session_logs_text-Safe, diff-Safe, export-Safe,
}

module _ {H : Host} (s : Service) (trusted : Trusted H (layout s)) where
  abbrev Safe : {X : Type 0} → M H X → Type 0
  Safe m = Keeps {H = H} (StoredValid (layout s)) m

  no_backend-Safe : (o : Option RootfsBackend) → Safe (no_backend s o)
  unfolding no_backend
  no_backend-Safe none = Keeps-pure tt
  no_backend-Safe (some b) = Keeps-bail _

  new_target-Safe :
      (target base : Text) (from : FilePath) (profile : Text) (limits : LimitOverrides)
      (command : List Text)
      → Safe (new_target s target base from profile limits command)
  unfolding new_target
  new_target-Safe target base from profile limits command =
      search
        (
          keeps_rules, init-Safe, ensure_base-Safe, ensure_env-Safe, ensure_env_started-Safe,
          shell_attach_target-Safe, exec-Keeps,
        )
        depth 20 fits 4000

  handle_result-Safe : (r : Request) → Safe (handle_result s r)
  unfolding handle_result
  handle_result-Safe (Request.init agentfs) = search (keeps_rules, init-Safe)
  handle_result-Safe (Request.new target base from backend profile limits command cwd) =
      search (keeps_rules, no_backend-Safe, new_target-Safe)
  handle_result-Safe (Request.base_freeze name from backend) =
      search (keeps_rules, no_backend-Safe, base_freeze-Safe)
  handle_result-Safe (Request.env_create id base profile limits) =
      search (keeps_rules, env_create-Safe)
  handle_result-Safe (Request.env_start id) = search (keeps_rules, env_start-Safe)
  handle_result-Safe (Request.env_stop id) = search (keeps_rules, env_stop-Safe)
  handle_result-Safe (Request.env_destroy id) = search (keeps_rules, env_destroy-Safe)
  handle_result-Safe Request.env_list = search (keeps_rules, env_list-Safe)
  handle_result-Safe (Request.env_status id) = search (keeps_rules, env_status-Safe)
  handle_result-Safe (Request.exec id command cwd) = search (keeps_rules, exec-Keeps)
  handle_result-Safe (Request.open_app env_id app path) = Keeps-bail _
  handle_result-Safe (Request.shell id cwd persistent) =
      search (keeps_rules, shell_attach_target-Safe)
  handle_result-Safe (Request.session_create env_id session_id command cwd) =
      search (keeps_rules, session_create-Safe)
  handle_result-Safe (Request.session_attach env_id session_id) =
      search (keeps_rules, session_attach_target-Safe)
  handle_result-Safe (Request.session_detach env_id session_id) =
      search (keeps_rules, session_detach-Safe)
  handle_result-Safe (Request.session_kill env_id session_id) =
      search (keeps_rules, session_kill-Safe)
  handle_result-Safe (Request.session_list env_id) = search (keeps_rules, session_list-Safe)
  handle_result-Safe (Request.session_logs env_id session_id) =
      search (keeps_rules, session_logs_text-Safe)
  handle_result-Safe (Request.diff env_id) = search (keeps_rules, diff-Safe)
  handle_result-Safe (Request.export env_id export_type) = search (keeps_rules, export-Safe)
  handle_result-Safe (Request.apply env_id force) = Keeps-bail _
  handle_result-Safe Request.ping = Keeps-pure _

  answer-Safe : (r : Result Response) → Safe (answer s r)
  unfolding answer
  answer-Safe (ok response) = Keeps-pure response
  answer-Safe (err e) = Keeps-pure _
  answer-Safe (panic e) = Keeps-lift _

  handle-Safe : (r : Request) → Safe (handle s r)
  unfolding handle
  handle-Safe r =
      Keeps-bind _ _ (Keeps-attempt _ (handle_result-Safe r)) λ result. answer-Safe result

-- Where the host is trusted and the metadata of every environment that is stored and can be read is
-- valid for its id, it is still valid after any request to the daemon, however the request ends.
pub handle-StoredValid :
    {H : Host} (s : Service) (trusted : Trusted H (layout s)) (r : Request) (w : World H)
    → StoredValid (layout s) w
    → StoredValid (layout s) (handle s r w).1
handle-StoredValid s trusted r w h = (handle-Safe s trusted r).at w h
