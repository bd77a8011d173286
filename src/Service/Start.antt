-- ===== src/Service/Start.antt =====
-- Starting, stopping and running commands: crates/agent-core/src/service.rs.
use ipa_rs_agent_controller.Common.{false, List, ◌++◌, ◌==◌, if◌then◌else◌}
use ipa_rs_agent_controller.Common.Text.{Text, text, is_empty}
use ipa_rs_agent_controller.Path.{◌/◌}
use ipa_rs_agent_controller.Host.{Host, CmdOutput}
use ipa_rs_agent_controller.Host.Effect.{M, pure, bail, lift, ◌>>=◌, ◌>>◌, on_error}
use ipa_rs_agent_controller.Model.{
  btrfs, overlay, backend_eq, EnvState, env_state_eq, Env, debug_state,
}
use ipa_rs_agent_controller.Storage.Layout.{env_logs, nspawn_log}
use ipa_rs_agent_controller.Storage.Records.{write_env, read_env}
use ipa_rs_agent_controller.Btrfs.{quota_exceeded}
use ipa_rs_agent_controller.Command.Shell.{shell_join}
use ipa_rs_agent_controller.Nspawn
use ipa_rs_agent_controller.Service.Lifecycle.{apply_stopped_state, ensure_running_env}
use ipa_rs_agent_controller.Service.Logs.{
  Service, layout, log_daemon, log_lifecycle, mark_env_active,
}
use ipa_rs_agent_controller.Service.Rootfs.{
  ensure_env_rootfs_mounted, validate_child_rootfs_requirements, ensure_inaccessible_mask_targets,
  ensure_child_hostname, ensure_child_network_config, umount_overlay_rootfs,
}
use ipa_rs_agent_controller.Service.Envs.{env_status}

module _ {H : Host} (s : Service) where
  -- A step of the start: on an error the environment is stored as failed, and the logs say why.
  unfoldable pub start_step : Text → Env → Text → Text → M H (Unit {0}) → M H (Unit {0})
  start_step id env daemon_says lifecycle_says m = on_error m (λ e. do
    write_env (layout s) (record env { state = EnvState.failed })
    log_daemon s id (daemon_says ++ e)
    log_lifecycle s id (lifecycle_says ++ e))

  -- What is done with the environment that was read.
  unfoldable pub start_read : Text → Env → M H (Unit {0})
  unfolding start_step
  start_read id env = do
    log_daemon s id (text "env start requested")
    log_lifecycle s id (text "starting")
    start_step id env (text "env start failed mount setup: ") (text "failed mount setup: ")
        (ensure_env_rootfs_mounted s env)
    start_step id env (text "env start failed preflight: ") (text "failed preflight: ")
        (validate_child_rootfs_requirements env.rootfs_path)
    start_step id env (text "env start failed mask target setup: ")
        (text "failed mask target setup: ") (ensure_inaccessible_mask_targets env.rootfs_path)
    start_step id env (text "env start failed hostname setup: ") (text "failed hostname setup: ")
        (ensure_child_hostname env.rootfs_path env.machine_name)
    start_step id env (text "env start failed network setup: ") (text "failed network setup: ")
        (ensure_child_network_config env)
    start_step id env (text "env start failed: ") (text "failed start: ")
        (Nspawn.start env (nspawn_log (layout s) id))
    active ← mark_env_active (record env { state = EnvState.running })
    log_daemon s id (text "env started")
    log_lifecycle s id (text "running")
    write_env (layout s) active

  unfoldable pub env_start : Text → M H (Unit {0})
  unfolding start_read
  env_start id = do env ← read_env (layout s) id; start_read id env

  unfoldable pub start_in : Text → EnvState → M H (Unit {0})
  start_in id EnvState.running = pure tt
  start_in id EnvState.created = env_start id
  start_in id EnvState.stopped = env_start id
  start_in id state = bail (
      text "env "
      ++ (id
          ++ (text " is " ++ (debug_state state ++ text "; fix or destroy it before running new"))))

  unfoldable pub ensure_env_started : Text → M H (Unit {0})
  unfolding start_in
  ensure_env_started id = do status ← env_status s id; start_in id status.env.state

  unfoldable pub env_stop : Text → M H (Unit {0})
  env_stop id = do
    env ← read_env (layout s) id
    log_daemon s id (text "env stop requested")
    log_lifecycle s id (text "stopping")
    Nspawn.stop env
    refreshed ← Nspawn.refresh_state env
    (if refreshed.state == EnvState.running
        then (do
          log_lifecycle s id (text "stop requested but machine is still running")
          bail (text "env " ++ (id ++ text " is still running after stop")))
        else pure tt)
    stopped ← pure (apply_stopped_state env)
    (if stopped.backend == overlay then umount_overlay_rootfs stopped else pure tt)
    log_daemon s id (text "env stopped")
    log_lifecycle s id (text "stopped")
    write_env (layout s) stopped

  unfoldable pub exec : Text → List Text → M H CmdOutput
  exec id command = if is_empty command then bail (text "exec command cannot be empty") else (do
    env ← read_env (layout s) id
    lift (ensure_running_env env)
    log_daemon s id (text "exec " ++ shell_join command)
    log_lifecycle s id (text "exec " ++ shell_join command)
    output ← Nspawn.exec env command (env_logs (layout s) id / text "exec.log")
    active ← mark_env_active env
    exceeded ← if active.backend == btrfs then quota_exceeded active.rootfs_path else pure false
    marked ←
        if exceeded
        then (do
          log_lifecycle s id (text "quota exceeded after exec")
          pure (record active { state = EnvState.quota_exceeded }))
        else pure active
    write_env (layout s) marked
    pure output)
