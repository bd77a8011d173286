-- ===== src/Command.antt =====
-- crates/agent-core/src/command.rs: running a program, appending to a log, and quoting for the shell.
pub mod Shell
use ipa_rs_agent_controller.Common.{
  ℕ, suc, ◌+◌, Bool, true, false, Option, none, some, List, [], ◌∷◌, ◌++◌,
}
use ipa_rs_agent_controller.Common.{Result, ok, not, if◌then◌else◌}
use ipa_rs_agent_controller.Common.Text.{Text, text, show}
use ipa_rs_agent_controller.Path.{FilePath, parent, display}
use ipa_rs_agent_controller.Host.{
  Host, Io, io_result, Status, nonneg, minus, is_success, CmdOutput, create_dir_all, open_append,
  write_all, sync_all, open_dir,
}
use ipa_rs_agent_controller.Host.Effect.{World, M, pure, bail, ◌>>=◌, ◌>>◌, perform}
use ipa_rs_agent_controller.Storage.Files.{with_context}

-- `{}` of a status
unfoldable pub show_status : Status → Text
show_status (nonneg n) = show n
show_status (minus n) = text "-" ++ show (suc n)

-- The text that every failed command ends with.
unfoldable pub exited_with : CmdOutput → Text
unfolding show_status
exited_with o =
    text " exited with " ++ (show_status o.status ++ (text ": " ++ (o.stdout ++ o.stderr)))

module _ {H : Host} where
  unfoldable pub call_program : Text → List Text → M H CmdOutput
  unfolding io_result
  call_program program args w =
      let (r, s) = H.run_program program args w.os in (io_result r, record w { os = s })

  -- `CommandRunner::run`
  unfoldable pub run : Text → List Text → M H CmdOutput
  unfolding call_program with_context
  run program args = with_context (text "failed to execute " ++ program) (call_program program args)

  unfoldable pub run_checked : Text → List Text → M H CmdOutput
  run_checked program args = do
    output ← run program args
    (if is_success output.status then pure output else bail (program ++ exited_with output))

  unfoldable pub make_parent : Option FilePath → M H (Unit {0})
  make_parent none = pure tt
  make_parent (some dir) = perform (create_dir_all dir)

  unfoldable pub sync_parent : Option FilePath → M H (Unit {0})
  sync_parent none = pure tt
  sync_parent (some dir) = do
    with_context (text "failed to open log dir " ++ display dir) (perform (open_dir dir))
    with_context (text "failed to sync log dir " ++ display dir) (perform (sync_all dir))

  -- `CommandRunner::append_to_file`
  unfoldable pub append_to_file : FilePath → Text → M H (Unit {0})
  unfolding make_parent sync_parent
  append_to_file path content = do
    make_parent (parent path)
    perform (open_append path)
    perform (write_all path content)
    perform (sync_all path)
    sync_parent (parent path)
