-- ===== src/Service/Logs.antt =====
-- The service, its logs and its helpers on files: crates/agent-core/src/service.rs.
use ipa_rs_agent_controller.Common.{Option, none, some, ◌++◌, ◌==◌, if◌then◌else◌}
use ipa_rs_agent_controller.Common.Text.{Text, text}
use ipa_rs_agent_controller.Path.{FilePath}
use ipa_rs_agent_controller.Model.{Env}
use ipa_rs_agent_controller.Config.{AgentConfig}
use ipa_rs_agent_controller.Host.{
  Host, Metadata, directory, filetype_eq, remove_dir_all, remove_file,
}
use ipa_rs_agent_controller.Host.Effect.{
  M, pure, ◌>>=◌, ◌>>◌, ignore, perform, perform_if_found, read_if_found, utc_now, on_error,
}
use ipa_rs_agent_controller.Storage.Layout.{Layout, daemon_log, lifecycle_log}
use ipa_rs_agent_controller.Command.{append_to_file}

pub record Service : Type 0 where
  pub config : AgentConfig

-- `Layout::new(config.agentfs.clone())`
abbrev pub layout : Service → Layout
layout s = record { agentfs = s.config.agentfs }

module _ {H : Host} where
  unfoldable pub append_env_log : FilePath → Text → M H (Unit {0})
  append_env_log path message = do
    now ← utc_now
    append_to_file path (H.to_rfc3339 now ++ (text " " ++ (message ++ text "\n")))

  unfoldable pub log_daemon : Service → Text → Text → M H (Unit {0})
  log_daemon s env_id message = append_env_log (daemon_log (layout s) env_id) message

  unfoldable pub log_lifecycle : Service → Text → Text → M H (Unit {0})
  log_lifecycle s env_id message = append_env_log (lifecycle_log (layout s) env_id) message

  -- `mark_env_active`
  unfoldable pub mark_env_active : Env → M H Env
  mark_env_active env = do now ← utc_now; pure (record env { last_active_at = now })

  unfoldable pub remove_dir_all_if_exists : FilePath → M H (Unit {0})
  remove_dir_all_if_exists path = do perform_if_found (remove_dir_all path); pure tt

  -- `cleanup_failed_base_dir` and `cleanup_failed_env_dir`
  unfoldable pub cleanup_failed_dir : FilePath → M H (Unit {0})
  cleanup_failed_dir dir = ignore (remove_dir_all_if_exists dir)

  unfoldable pub remove_found : FilePath → Option Metadata → M H (Unit {0})
  remove_found path none = pure tt
  remove_found path (some m) =
      if m.file_type == directory then perform (remove_dir_all path) else perform (remove_file path)

  unfoldable pub remove_path_if_exists : FilePath → M H (Unit {0})
  unfolding remove_found
  remove_path_if_exists path = do
    metadata ← read_if_found (λ s. H.symlink_metadata s path)
    remove_found path metadata

  -- `if let Err(error) = m { cleanup().await; return Err(error); }` for a cleanup that has no result
  abbrev pub or_clean : {A : Type 0} → M H A → M H (Unit {0}) → M H A
  or_clean m cleanup = on_error m (λ e. cleanup)
