-- ===== src/Service/Invariant/Machines.antt =====
-- Stopping a machine and removing a root file system keep the stored metadata valid.
use ipa_rs_agent_controller.Common.{ℕ, zero, suc, Option, none, some}
use ipa_rs_agent_controller.Common.Text.{Text}
use ipa_rs_agent_controller.Path.{FilePath}
use ipa_rs_agent_controller.Model.{RootfsBackend, btrfs, overlay, Env}
use ipa_rs_agent_controller.Host.{Host, sleep, remove_file, remove_dir_all}
use ipa_rs_agent_controller.Host.Effect.{M, perform, perform_if_found}
use ipa_rs_agent_controller.Host.Keeps.{Keeps, Keeps-pure, keeps_rules}
use ipa_rs_agent_controller.Storage.Layout.{Layout}
use ipa_rs_agent_controller.Btrfs.{
  delete_subvolume, qgroup_id, destroy_rounds, destroy_qgroup, quota_exceeded,
}
use ipa_rs_agent_controller.Nspawn
use ipa_rs_agent_controller.Service.Logs.{Service, remove_dir_all_if_exists}
use ipa_rs_agent_controller.Service.Rootfs.{
  is_mountpoint, umount_overlay_rootfs, disk_used, env_disk_used,
}
use ipa_rs_agent_controller.Service.Envs.{destroy_found, remove_rootfs, over_quota}
use ipa_rs_agent_controller.Service.Invariant.{Trusted, StoredValid}
use ipa_rs_agent_controller.Service.Invariant.Files.{
  Quiet-remove_file, Quiet-remove_dir_all, Quiet-sleep,
}
use ipa_rs_agent_controller.Service.Invariant.Actions.{
  Keeps-perform, Keeps-perform_if_found, Keeps-run, Keeps-run_checked,
}

module _ {H : Host} (l : Layout) (trusted : Trusted H l) where
  abbrev Safe : {X : Type 0} → M H X → Type 0
  Safe m = Keeps {H = H} (StoredValid l) m

  pub sleep-Safe : (ms : ℕ) → Safe (perform (sleep ms))
  sleep-Safe ms = Keeps-perform l trusted _ (Quiet-sleep l trusted ms)

  remove_file-Safe : (p : FilePath) → Safe (perform_if_found (remove_file p))
  remove_file-Safe p = Keeps-perform_if_found l trusted _ (Quiet-remove_file l trusted p)

  remove_dir_all-Safe : (p : FilePath) → Safe (perform_if_found (remove_dir_all p))
  remove_dir_all-Safe p = Keeps-perform_if_found l trusted _ (Quiet-remove_dir_all l trusted p)

  unit_call-Safe : (verb unit : Text) → Safe (Nspawn.unit_call verb unit)
  unfolding Nspawn.unit_call
  unit_call-Safe verb unit = search (keeps_rules, Keeps-run) depth 12

  pub stop_unit-Safe : (unit : Text) → Safe (Nspawn.stop_unit unit)
  unfolding Nspawn.stop_unit
  stop_unit-Safe unit = unit_call-Safe _ unit

  pub reset_failed_unit-Safe : (unit : Text) → Safe (Nspawn.reset_failed_unit unit)
  unfolding Nspawn.reset_failed_unit
  reset_failed_unit-Safe unit = unit_call-Safe _ unit

  pub stop-Safe : (env : Env) → Safe (Nspawn.stop env)
  unfolding Nspawn.stop
  stop-Safe env = search (keeps_rules, Keeps-run, stop_unit-Safe, reset_failed_unit-Safe) depth 20

  pub refresh_state-Safe : (env : Env) → Safe (Nspawn.refresh_state env)
  unfolding Nspawn.refresh_state
  refresh_state-Safe env = search (keeps_rules, Keeps-run) depth 12

  pub remove_config-Safe : (env : Env) → Safe (Nspawn.remove_config env)
  unfolding Nspawn.remove_config
  remove_config-Safe env = search (keeps_rules, remove_file-Safe) depth 12

  pub is_mountpoint-Safe : (p : FilePath) → Safe (is_mountpoint p)
  unfolding is_mountpoint
  is_mountpoint-Safe p = search (keeps_rules, Keeps-run) depth 12

  pub umount_overlay_rootfs-Safe : (env : Env) → Safe (umount_overlay_rootfs env)
  unfolding umount_overlay_rootfs
  umount_overlay_rootfs-Safe env =
      search (keeps_rules, is_mountpoint-Safe, Keeps-run_checked) depth 20

  pub remove_dir_all_if_exists-Safe : (p : FilePath) → Safe (remove_dir_all_if_exists p)
  unfolding remove_dir_all_if_exists
  remove_dir_all_if_exists-Safe p = search (keeps_rules, remove_dir_all-Safe) depth 12

  pub qgroup_id-Safe : (p : FilePath) → Safe (qgroup_id p)
  unfolding qgroup_id
  qgroup_id-Safe p = search (keeps_rules, Keeps-run) depth 12

  pub delete_subvolume-Safe : (p : FilePath) → Safe (delete_subvolume p)
  unfolding delete_subvolume
  delete_subvolume-Safe p = search (keeps_rules, Keeps-run) depth 12

  destroy_rounds-Safe : (rounds : ℕ) (id : Text) (p : FilePath) → Safe (destroy_rounds rounds id p)
  unfolding destroy_rounds
  destroy_rounds-Safe zero id p = Keeps-pure tt
  destroy_rounds-Safe (suc rounds) id p =
      let again = destroy_rounds-Safe rounds in
      search (keeps_rules, Keeps-run, sleep-Safe, again) depth 30 fits 4000

  pub destroy_found-Safe : (s : Service) (found : Option Text) → Safe (destroy_found s found)
  unfolding destroy_found destroy_qgroup
  destroy_found-Safe s none = Keeps-pure tt
  destroy_found-Safe s (some id) = destroy_rounds-Safe 50 id _

  pub remove_rootfs-Safe :
      (s : Service) (env : Env) (backend : RootfsBackend) → Safe (remove_rootfs s env backend)
  unfolding remove_rootfs
  remove_rootfs-Safe s env btrfs =
      search (keeps_rules, qgroup_id-Safe, delete_subvolume-Safe, destroy_found-Safe) depth 20
  remove_rootfs-Safe s env overlay = umount_overlay_rootfs-Safe env
  remove_rootfs-Safe s env _ = remove_dir_all_if_exists-Safe _

  quota_exceeded-Safe : (p : FilePath) → Safe (quota_exceeded p)
  unfolding quota_exceeded
  quota_exceeded-Safe p = search (keeps_rules, Keeps-run)

  pub over_quota-Safe : (s : Service) (env : Env) → Safe (over_quota s env)
  unfolding over_quota
  over_quota-Safe s env = search (keeps_rules, quota_exceeded-Safe) depth 12

  disk_used-Safe : (p : FilePath) → Safe (disk_used p)
  unfolding disk_used
  disk_used-Safe p = search (keeps_rules, Keeps-run_checked) depth 12

  pub env_disk_used-Safe : (s : Service) (env : Env) → Safe (env_disk_used s env)
  unfolding env_disk_used
  env_disk_used-Safe s env = disk_used-Safe _
