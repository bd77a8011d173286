-- ===== src/Btrfs.antt =====
-- crates/agent-core/src/btrfs.rs: the calls of `btrfs` and the reading of their output.
pub mod Quota
use ipa_rs_agent_controller.Common.{
  ℕ, zero, suc, Bool, true, false, ◌&&◌, ◌||◌, Option, none, some, List, [], ◌∷◌, ◌++◌,
}
use ipa_rs_agent_controller.Common.{◌==◌, list_eq, nat_eq, if◌then◌else◌}
use ipa_rs_agent_controller.Common.Text.{
  Text, text, trim, to_ascii_lowercase, contains_str, lines, strip_prefix,
}
use ipa_rs_agent_controller.Path.{FilePath, display}
use ipa_rs_agent_controller.Host.{Host, is_success, sleep}
use ipa_rs_agent_controller.Host.Effect.{M, pure, bail, lift, ◌>>=◌, ◌>>◌, perform}
use ipa_rs_agent_controller.Model.Limit.{is_unlimited}
use ipa_rs_agent_controller.Command.{run, run_checked}
use ipa_rs_agent_controller.Btrfs.Quota.{qgroup_show_result}

abbrev says : Text → Text → Bool
says stderr phrase = contains_str (to_ascii_lowercase stderr) phrase

unfoldable pub quota_enable_reports_already_enabled : Text → Bool
quota_enable_reports_already_enabled stderr =
    says stderr (text "file exists")
    || says stderr (text "quota support already enabled")
    || says stderr (text "quota already enabled")
    || says stderr (text "qgroups already enabled")

unfoldable pub qgroup_destroy_reports_missing : Text → Bool
qgroup_destroy_reports_missing stderr =
    says stderr (text "no such file or directory")
    || says stderr (text "no such process")
    || says stderr (text "not exist")
    || says stderr (text "not found")

unfoldable pub qgroup_destroy_reports_busy : Text → Bool
qgroup_destroy_reports_busy stderr = says stderr (text "device or resource busy")

unfoldable pub subvolume_delete_reports_missing : Text → Bool
subvolume_delete_reports_missing stderr =
    says stderr (text "no such file or directory")
    || says stderr (text "not exist")
    || says stderr (text "not found")

unfoldable pub subvolume_show_reports_missing : Text → Bool
subvolume_show_reports_missing stderr =
    says stderr (text "no such file or directory")
    || says stderr (text "not a btrfs subvolume")
    || says stderr (text "not exist")
    || says stderr (text "not found")

-- The first line that gives the subvolume's id.
unfoldable pub find_qgroup_id : List Text → Option Text
find_qgroup_id [] = none
find_qgroup_id (line ∷ rest) = elim (strip_prefix (trim line) (text "Subvolume ID:")) [
  | some id ↦ some (text "0/" ++ trim id)
  | none ↦ find_qgroup_id rest
]

-- `attempt < 49`
unfoldable pub more_rounds : ℕ → Bool
more_rounds zero = false
more_rounds (suc n) = true

module _ {H : Host} where
  unfoldable pub is_filesystem : FilePath → M H Bool
  is_filesystem path = do
    output ←
        run (text "findmnt")
          (text "-n" ∷ text "-o" ∷ text "FSTYPE" ∷ text "--target" ∷ display path ∷ [])
    pure (is_success output.status && (trim output.stdout == text "btrfs"))

  unfoldable pub is_subvolume : FilePath → M H Bool
  is_subvolume path = do
    output ← run (text "btrfs") (text "subvolume" ∷ text "show" ∷ display path ∷ [])
    pure (is_success output.status)

  unfoldable pub enable_quota : FilePath → M H (Unit {0})
  enable_quota path = do
    output ← run (text "btrfs") (text "quota" ∷ text "enable" ∷ display path ∷ [])
    (if is_success output.status || quota_enable_reports_already_enabled output.stderr
        then pure tt
        else bail (text "failed to enable Btrfs quota: " ++ output.stderr))

  unfoldable pub set_readonly : FilePath → Bool → M H (Unit {0})
  set_readonly path readonly = do
    run_checked (text "btrfs") (
        text "property"
        ∷ text "set"
        ∷ text "-ts"
        ∷ display path
        ∷ text "ro"
        ∷ (if readonly then text "true" else text "false")
        ∷ [])
    pure tt

  unfoldable pub snapshot_writable : FilePath → FilePath → M H (Unit {0})
  snapshot_writable from to = do
    run_checked (text "btrfs") (text "subvolume" ∷ text "snapshot" ∷ display from ∷ display to ∷ [])
    pure tt

  unfoldable pub set_limit : Text → FilePath → M H (Unit {0})
  set_limit size path = if is_unlimited size then pure tt else (do
    run_checked (text "btrfs") (text "qgroup" ∷ text "limit" ∷ size ∷ display path ∷ [])
    pure tt)

  unfoldable pub delete_subvolume : FilePath → M H (Unit {0})
  delete_subvolume path = do
    output ← run (text "btrfs") (text "subvolume" ∷ text "delete" ∷ display path ∷ [])
    (if is_success output.status || subvolume_delete_reports_missing output.stderr
        then pure tt
        else bail (
            text "failed to delete Btrfs subvolume "
            ++ (display path ++ (text ": " ++ (output.stdout ++ output.stderr)))))

  unfoldable pub qgroup_id : FilePath → M H (Option Text)
  qgroup_id path = do
    output ← run (text "btrfs") (text "subvolume" ∷ text "show" ∷ display path ∷ [])
    (if is_success output.status
        then pure (find_qgroup_id (lines output.stdout))
        else if subvolume_show_reports_missing output.stderr
        then pure none
        else bail (
            text "failed to inspect Btrfs subvolume "
            ++ (display path
                ++ (text " for qgroup cleanup: " ++ (output.stdout ++ output.stderr)))))

  -- The rounds left; the loop starts with 50, and in the last one a busy qgroup is an error.
  unfoldable pub destroy_rounds : ℕ → Text → FilePath → M H (Unit {0})
  destroy_rounds zero id filesystem = pure tt
  destroy_rounds (suc rounds) id filesystem = do
    output ← run (text "btrfs") (text "qgroup" ∷ text "destroy" ∷ id ∷ display filesystem ∷ [])
    (if is_success output.status || qgroup_destroy_reports_missing output.stderr
        then pure tt
        else if qgroup_destroy_reports_busy output.stderr && more_rounds rounds
        then (do
          run (text "btrfs") (text "filesystem" ∷ text "sync" ∷ display filesystem ∷ [])
          run (text "btrfs") (text "subvolume" ∷ text "sync" ∷ display filesystem ∷ [])
          run (text "btrfs") (text "quota" ∷ text "rescan" ∷ text "-w" ∷ display filesystem ∷ [])
          perform (sleep 100)
          destroy_rounds rounds id filesystem)
        else bail (text "failed to destroy Btrfs qgroup " ++ (id ++ (text ": " ++ output.stderr))))

  unfoldable pub destroy_qgroup : Text → FilePath → M H (Unit {0})
  unfolding destroy_rounds more_rounds
  destroy_qgroup = destroy_rounds 50

  unfoldable pub quota_exceeded : FilePath → M H Bool
  quota_exceeded path = do
    output ← run (text "btrfs") (
        text "qgroup"
        ∷ text "show"
        ∷ text "--raw"
        ∷ text "-r"
        ∷ text "-e"
        ∷ text "-F"
        ∷ display path
        ∷ [])
    lift (qgroup_show_result output.status output.stdout output.stderr path)
