-- ===== src/Nspawn.antt =====
-- crates/agent-core/src/nspawn.rs: starting, stopping and asking the machine of an environment.
pub mod Config
pub mod Output
use ipa_rs_agent_controller.Common.{
  ℕ, zero, suc, Bool, true, false, ◌&&◌, ◌||◌, not, Option, none, some, List, [], ◌∷◌, ◌++◌,
}
use ipa_rs_agent_controller.Common.{◌==◌, list_eq, nat_eq, if◌then◌else◌}
use ipa_rs_agent_controller.Common.Text.{Text, text, trim}
use ipa_rs_agent_controller.Path.{FilePath, ◌/◌, parent, path}
use ipa_rs_agent_controller.Host.{
  Host, Status, CmdOutput, is_success, create_dir_all, remove_file, sleep,
}
use ipa_rs_agent_controller.Host.Effect.{
  M, pure, bail, lift, ◌>>=◌, ◌>>◌, perform, perform_if_found,
}
use ipa_rs_agent_controller.Storage.Files.{write_text_file}
use ipa_rs_agent_controller.Model.{Env, unit_name}
use ipa_rs_agent_controller.Model.Limit.{network_uses_bridge}
use ipa_rs_agent_controller.Command.{run, run_checked, exited_with, show_status, append_to_file}
use ipa_rs_agent_controller.Command.Shell.{shell_join}
use ipa_rs_agent_controller.Nspawn.Config.{config_text, bridge_network_text, start_args}
use ipa_rs_agent_controller.Nspawn.Output.{
  machinectl_reports_missing_machine, systemctl_reports_missing_unit, machinectl_show_state_result,
  parse_child_exit_status,
}

-- `Nspawn::default()`
abbrev config_dir : FilePath
config_dir = path (text "/etc/systemd/nspawn")

abbrev network_dir : FilePath
network_dir = path (text "/etc/systemd/network")

unfoldable pub config_path : Env → FilePath
config_path env = config_dir / (env.machine_name ++ text ".nspawn")

unfoldable pub bridge_path : FilePath
bridge_path = network_dir / text "80-agent-forkd-bridge.network"

abbrev show_state_args : Env → List Text
show_state_args env =
    text "show" ∷ env.machine_name ∷ text "-p" ∷ text "State" ∷ text "--value" ∷ []

-- What `exec` runs inside the machine: the command, then a line with its status.
unfoldable pub wrapped_command : Text → Text
wrapped_command command_text =
    text "{ "
    ++ (command_text
        ++ text "; }\nstatus=$?\nprintf '\\n__AGENT_FORKD_EXIT:%s\\n' \"$status\"\nexit 0")

-- The output with the status of the child, if its line is there.
unfoldable pub child_output : CmdOutput → CmdOutput
child_output o = elim (parse_child_exit_status o.stdout) [
  | none ↦ o
  | some (status, stdout) ↦ record { status = status; stdout = stdout; stderr = o.stderr }
]

module _ {H : Host} where
  unfoldable pub make_parent : Option FilePath → M H (Unit {0})
  make_parent none = pure tt
  make_parent (some dir) = perform (create_dir_all dir)

  unfoldable pub write_config : Env → M H (Unit {0})
  unfolding make_parent
  write_config env = do
    make_parent (parent (config_path env))
    write_text_file (config_path env) (config_text env)

  unfoldable pub remove_config : Env → M H (Unit {0})
  remove_config env = do perform_if_found (remove_file (config_path env)); pure tt

  unfoldable pub write_bridge_network_config : M H (Unit {0})
  unfolding make_parent
  write_bridge_network_config = do
    make_parent (parent bridge_path)
    write_text_file bridge_path bridge_network_text

  unfoldable pub unit_call : Text → Text → M H (Unit {0})
  unit_call verb unit = do
    output ← run (text "systemctl") (verb ∷ unit ∷ [])
    (if is_success output.status || systemctl_reports_missing_unit output.stderr
        then pure tt
        else bail (text "systemctl " ++ (verb ++ (text " " ++ (unit ++ exited_with output)))))

  unfoldable pub stop_unit : Text → M H (Unit {0})
  unfolding unit_call
  stop_unit = unit_call (text "stop")

  unfoldable pub reset_failed_unit : Text → M H (Unit {0})
  unfolding unit_call
  reset_failed_unit = unit_call (text "reset-failed")

  -- The rounds left of the 50, and the last output seen.
  unfoldable pub running_rounds : ℕ → Text → Env → M H (Unit {0})
  running_rounds zero last env = bail (
      text "machine "
      ++ (env.machine_name ++ (text " did not reach running state after start: " ++ last)))
  running_rounds (suc rounds) last env = do
    output ← run (text "machinectl") (show_state_args env)
    (if is_success output.status && (trim output.stdout == text "running")
        then pure tt
        else if not (is_success output.status)
            && not (machinectl_reports_missing_machine output.stderr)
        then bail (
            text "machinectl show "
            ++ (env.machine_name
                ++ (text " exited with "
                    ++ (show_status output.status
                        ++ (text " while waiting for start: "
                            ++ (output.stdout ++ output.stderr))))))
        else (do perform (sleep 100); running_rounds rounds (output.stdout ++ output.stderr) env))

  unfoldable pub wait_until_running : Env → M H (Unit {0})
  unfolding running_rounds
  wait_until_running = running_rounds 50 []

  unfoldable pub ready_rounds : ℕ → Text → Env → M H (Unit {0})
  ready_rounds zero last env = bail (
      text "machine "
      ++ (env.machine_name ++ (text " did not become shell-ready after start: " ++ last)))
  ready_rounds (suc rounds) last env = do
    output ← run (text "machinectl") (text "shell" ∷ env.machine_name ∷ text "/bin/true" ∷ [])
    (if is_success output.status
        then pure tt
        else if machinectl_reports_missing_machine output.stderr
        then bail (
            text "machine "
            ++ (env.machine_name
                ++ (text " disappeared while waiting for shell readiness: "
                    ++ (output.stdout ++ output.stderr))))
        else (do perform (sleep 100); ready_rounds rounds (output.stdout ++ output.stderr) env))

  unfoldable pub wait_until_shell_ready : Env → M H (Unit {0})
  unfolding ready_rounds
  wait_until_shell_ready = ready_rounds 100 []

  unfoldable pub start : Env → FilePath → M H (Unit {0})
  start env log_path = do
    stop_unit (unit_name env.id)
    reset_failed_unit (unit_name env.id)
    (if network_uses_bridge env.limits
        then (do
          write_bridge_network_config
          run_checked (text "systemctl") (text "reload" ∷ text "systemd-networkd" ∷ [])
          pure tt)
        else pure tt)
    write_config env
    args ← lift (start_args H.floats env (some log_path))
    run_checked (text "systemd-run") args
    wait_until_running env
    wait_until_shell_ready env

  unfoldable pub stop : Env → M H (Unit {0})
  stop env = do
    output ← run (text "machinectl") (text "terminate" ∷ env.machine_name ∷ [])
    stop_unit (unit_name env.id)
    reset_failed_unit (unit_name env.id)
    (if is_success output.status || machinectl_reports_missing_machine output.stderr
        then pure tt
        else bail (text "machinectl terminate " ++ (env.machine_name ++ exited_with output)))

  unfoldable pub exec : Env → List Text → FilePath → M H CmdOutput
  exec env command log_path = do
    raw ← run (text "machinectl") (
        text "--quiet"
        ∷ text "shell"
        ∷ env.machine_name
        ∷ text "/bin/bash"
        ∷ text "-lc"
        ∷ wrapped_command (shell_join command)
        ∷ [])
    append_to_file log_path (
        text "$ "
        ++ (shell_join command
            ++ (text "\n[exit:"
                ++ (show_status (child_output raw).status
                    ++ (text "]\n--- stdout ---\n"
                        ++ ((child_output raw).stdout
                            ++ (text "--- stderr ---\n" ++ (raw.stderr ++ text "\n"))))))))
    pure (child_output raw)

  unfoldable pub refresh_state : Env → M H Env
  refresh_state env = do
    output ← run (text "machinectl") (show_state_args env)
    state ←
        lift
          (machinectl_show_state_result output.status output.stdout output.stderr env.machine_name)
    pure (record env { state = state })
