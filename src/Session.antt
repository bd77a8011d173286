-- ===== src/Session.antt =====
-- `TmuxSessionBackend` of crates/agent-core/src/session.rs: sessions as tmux sessions inside a machine.
use ipa_rs_agent_controller.Common.{
  Bool, true, false, ◌&&◌, ◌||◌, not, Option, none, some, List, [], ◌∷◌, ◌++◌, map,
}
use ipa_rs_agent_controller.Common.{if◌then◌else◌}
use ipa_rs_agent_controller.Common.Text.{
  Text, text, trim, to_ascii_lowercase, contains_str, lines, is_empty,
}
use ipa_rs_agent_controller.Path.{FilePath, ◌/◌}
use ipa_rs_agent_controller.Host.{Host, is_success}
use ipa_rs_agent_controller.Host.Effect.{M, pure, bail, ◌>>=◌, ◌>>◌, read_if_found, utc_now}
use ipa_rs_agent_controller.Storage.Files.{write_text_file}
use ipa_rs_agent_controller.Model.{Env, Session, SessionState, pty}
use ipa_rs_agent_controller.Command.{run, run_checked, append_to_file}
use ipa_rs_agent_controller.Command.Shell.{shell_join, shell_quote}

-- `child_transcript_path`
unfoldable pub child_transcript_path : Text → Text
child_transcript_path session_id =
    text "/var/log/agent-forkd/sessions/" ++ (session_id ++ text ".log")

-- The leading slash is trimmed before the path is joined.
unfoldable pub host_transcript_path : Env → Text → FilePath
host_transcript_path env session_id =
    env.rootfs_path / (text "var/log/agent-forkd/sessions/" ++ (session_id ++ text ".log"))

unfoldable pub child_create_command : Text → List Text → Text
child_create_command session_id command =
    text "mkdir -p /var/log/agent-forkd/sessions && tmux new-session -d -s "
    ++ (shell_quote session_id
        ++ (text " "
            ++ shell_quote (
                shell_join (
                  text "/bin/bash"
                  ∷ text "-lc"
                  ∷ (text "exec > >(tee -a "
                      ++ (shell_quote (child_transcript_path session_id)
                          ++ (text ") 2>&1; exec " ++ shell_join command)))
                  ∷ []))))

unfoldable pub machinectl_shell_args : Text → Text → List Text
machinectl_shell_args machine command =
    text "--quiet" ∷ text "shell" ∷ machine ∷ text "/bin/bash" ∷ text "-lc" ∷ command ∷ []

unfoldable pub session_log_path : FilePath → Text → FilePath
session_log_path log_dir session_id = log_dir / (session_id ++ text ".log")

keep_nonempty : List Text → List Text
keep_nonempty [] = []
keep_nonempty (l ∷ ls) = let rest = keep_nonempty ls in if is_empty l then rest else l ∷ rest

unfoldable pub parse_tmux_session_names : Text → List Text
unfolding keep_nonempty
parse_tmux_session_names output = keep_nonempty (map trim (lines output))

abbrev says : Text → Text → Bool
says stderr phrase = contains_str (to_ascii_lowercase stderr) phrase

unfoldable pub tmux_detach_reports_no_current_client : Text → Bool
tmux_detach_reports_no_current_client stderr =
    says stderr (text "no current client") || says stderr (text "no clients")

unfoldable pub tmux_list_reports_no_sessions : Text → Bool
tmux_list_reports_no_sessions stderr =
    says stderr (text "no server running") || says stderr (text "no sessions")

unfoldable pub tmux_has_session_reports_missing : Text → Bool
tmux_has_session_reports_missing stderr =
    says stderr (text "no server running")
    || says stderr (text "can't find session")
    || says stderr (text "can't find window")

about : Text → Text → Env → Text
about what session_id env =
    text "failed to "
    ++ (what
        ++ (text " tmux session "
            ++ (session_id ++ (text " in " ++ (env.machine_name ++ text ": ")))))

read_or_empty : Option Text → Text
read_or_empty none = []
read_or_empty (some contents) = contents

module _ {H : Host} where
  unfoldable pub create : Env → Text → List Text → FilePath → M H Session
  create env session_id command log_path = do
    run_checked (text "machinectl")
        (machinectl_shell_args env.machine_name (child_create_command session_id command))
    append_to_file log_path (
        text "created child tmux session "
        ++ (session_id
            ++ (text " in "
                ++ (env.machine_name
                    ++ (text "; child transcript "
                        ++ (child_transcript_path session_id ++ text "\n"))))))
    now ← utc_now
    pure (record {
      id = session_id;
      env_id = env.id;
      command = shell_join command;
      state = SessionState.running;
      created_at = now;
      session_type = pty;
      log_path = log_path;
    })

  unfoldable pub detach : Env → Text → M H (Unit {0})
  unfolding about
  detach env session_id = do
    output ← run (text "machinectl") (
        machinectl_shell_args env.machine_name
          (text "tmux detach-client -s " ++ shell_quote session_id))
    (if not (is_success output.status) && not (tmux_detach_reports_no_current_client output.stderr)
        then bail (about (text "detach") session_id env ++ (output.stdout ++ output.stderr))
        else pure tt)

  unfoldable pub kill : Env → Text → M H (Unit {0})
  kill env session_id = do
    run_checked (text "machinectl") (
        machinectl_shell_args env.machine_name
          (text "tmux kill-session -t " ++ shell_quote session_id))
    pure tt

  unfoldable pub is_running : Env → Text → M H Bool
  unfolding about
  is_running env session_id = do
    output ← run (text "machinectl") (
        machinectl_shell_args env.machine_name
          (text "tmux has-session -t " ++ shell_quote session_id))
    (if is_success output.status
        then pure true
        else if tmux_has_session_reports_missing output.stderr
        then pure false
        else bail (about (text "inspect") session_id env ++ (output.stdout ++ output.stderr)))

  unfoldable pub list : Env → M H (List Text)
  list env = do
    output ←
        run (text "machinectl")
          (machinectl_shell_args env.machine_name (text "tmux list-sessions -F '#{session_name}'"))
    (if is_success output.status
        then pure (parse_tmux_session_names output.stdout)
        else if tmux_list_reports_no_sessions output.stderr
        then pure []
        else bail (
            text "failed to list tmux sessions in "
            ++ (env.machine_name ++ (text ": " ++ output.stderr))))

  unfoldable pub logs : Env → Text → FilePath → M H Text
  unfolding read_or_empty
  logs env session_id log_path = do
    output ← run (text "machinectl") (
        machinectl_shell_args env.machine_name (
          text "cat "
          ++ (shell_quote (child_transcript_path session_id) ++ text " 2>/dev/null || true")))
    contents ←
        if is_success output.status
        then pure output.stdout
        else (do old ← read_if_found (λ s. H.read_to_string s log_path); pure (read_or_empty old))
    write_text_file log_path contents
    pure contents
