-- ===== src/Service/Invariant/Starting.antt =====
-- Preparing a root and starting a machine keep the stored metadata valid.
use ipa_rs_agent_controller.Common.{
  ℕ, zero, suc, ◌≡◌, refl, true, Option, none, some, list_eq, nat_eq,
}
use ipa_rs_agent_controller.Common.Text.{Text, text, split_on, all_chars}
use ipa_rs_agent_controller.Path.{FilePath, path, components_of, first_part, component}
use ipa_rs_agent_controller.Model.{Env, EnvState, machine_name}
use ipa_rs_agent_controller.Host.{Host, create_dir_all}
use ipa_rs_agent_controller.Host.Effect.{M, perform, for_each}
use ipa_rs_agent_controller.Host.Keeps.{
  Keeps, Keeps-pure, Keeps-bind, Keeps-bind_ok, Keeps-bail, Keeps-if, Keeps-lift, Keeps-on_error,
  keeps_rules,
}
use ipa_rs_agent_controller.Storage.Ids.{is_valid_id}
use ipa_rs_agent_controller.Storage.Layout.{Layout}
use ipa_rs_agent_controller.Storage.Files.Keeps.{Keeps-read_json}
use ipa_rs_agent_controller.Storage.Records.{read_base, read_env}
use ipa_rs_agent_controller.Storage.Records.Laws.{
  read_env-valid, validate_env_metadata-id, validate_env_metadata-machine,
}
use ipa_rs_agent_controller.Nspawn
use ipa_rs_agent_controller.Nspawn.{config_path, bridge_path}
use ipa_rs_agent_controller.Service.Logs.{Service, layout}
use ipa_rs_agent_controller.Service.Start.{
  start_step, start_read, start_in, env_start, ensure_env_started,
}
use ipa_rs_agent_controller.Service.Guards.{read_env-Keeps}
use ipa_rs_agent_controller.Service.Rootfs
use ipa_rs_agent_controller.Service.Rootfs.{
  ensure_overlay_dirs, ensure_env_rootfs_mounted, validate_child_rootfs_requirements,
  ensure_inaccessible_mask_targets, ensure_child_hostname, enable_child_systemd_unit,
  ensure_child_network_config, is_mountpoint,
}
use ipa_rs_agent_controller.Service.Invariant.{Trusted, StoredValid}
use ipa_rs_agent_controller.Service.Invariant.Files.{
  Other, Named, Quiet-create_dir_all, Quiet-make_symlink, join-Other, other_name,
}
use ipa_rs_agent_controller.Service.Invariant.Actions.{
  Keeps-perform, Keeps-run, Keeps-run_checked, Keeps-write_text_file,
}
use ipa_rs_agent_controller.Service.Invariant.Stored.{Keeps-write_env, validate_id-valid}
use ipa_rs_agent_controller.Service.Invariant.Sessions.{
  Keeps-log_daemon, Keeps-log_lifecycle, mark_env_active-Keeps,
}
use ipa_rs_agent_controller.Service.Invariant.Envs.{env_status-Safe}
use ipa_rs_agent_controller.Service.Invariant.Targets.{
  below-Other, below-Named, config_path-Other, config_path-Named,
}
use ipa_rs_agent_controller.Service.Invariant.Machines.{
  stop_unit-Safe, reset_failed_unit-Safe, is_mountpoint-Safe, sleep-Safe,
}

module _ {H : Host} (l : Layout) (trusted : Trusted H l) where
  abbrev Safe : {X : Type 0} → M H X → Type 0
  Safe m = Keeps {H = H} (StoredValid l) m

  pub dir-Safe : (p : FilePath) → Safe (perform (create_dir_all p))
  dir-Safe p = Keeps-perform l trusted _ (Quiet-create_dir_all l trusted p)

  make_parent-Safe : (o : Option FilePath) → Safe (Nspawn.make_parent o)
  unfolding Nspawn.make_parent
  make_parent-Safe none = Keeps-pure tt
  make_parent-Safe (some d) = dir-Safe d

  bridge-Other : Other l bridge_path
  unfolding bridge_path text path components_of first_part component split_on all_chars list_eq
      nat_eq
  bridge-Other = below-Other l _ (text "80-agent-forkd-bridge.network") refl

  bridge-Named : Named bridge_path
  unfolding bridge_path text path components_of first_part component split_on all_chars list_eq
      nat_eq
  bridge-Named = below-Named _ (text "80-agent-forkd-bridge.network") refl

  write_bridge_network_config-Safe : Safe Nspawn.write_bridge_network_config
  unfolding Nspawn.write_bridge_network_config
  write_bridge_network_config-Safe =
      Keeps-bind _ _ (make_parent-Safe _)
        λ _. Keeps-write_text_file l trusted bridge_path _ bridge-Other bridge-Named

  running_rounds-Safe :
      (rounds : ℕ) (last : Text) (env : Env) → Safe (Nspawn.running_rounds rounds last env)
  unfolding Nspawn.running_rounds
  running_rounds-Safe zero last env = Keeps-bail _
  running_rounds-Safe (suc rounds) last env =
      let again = running_rounds-Safe rounds in
      search (keeps_rules, Keeps-run, sleep-Safe, again) depth 20 fits 4000

  ready_rounds-Safe :
      (rounds : ℕ) (last : Text) (env : Env) → Safe (Nspawn.ready_rounds rounds last env)
  unfolding Nspawn.ready_rounds
  ready_rounds-Safe zero last env = Keeps-bail _
  ready_rounds-Safe (suc rounds) last env =
      let again = ready_rounds-Safe rounds in
      search (keeps_rules, Keeps-run, sleep-Safe, again) depth 20 fits 4000

  module _ (env : Env) (valid : is_valid_id env.id ≡ true)
      (named : env.machine_name ≡ machine_name env.id) where
    pub write_config-Safe : Safe (Nspawn.write_config env)
    unfolding Nspawn.write_config
    write_config-Safe = Keeps-bind _ _ (make_parent-Safe _) λ _.
        Keeps-write_text_file l trusted (config_path env) _ (config_path-Other env valid named l)
          (config_path-Named env valid named)

    pub start-Safe : (log : FilePath) → Safe (Nspawn.start env log)
    unfolding Nspawn.start Nspawn.wait_until_running Nspawn.wait_until_shell_ready
    start-Safe log =
        search
          (
            keeps_rules, stop_unit-Safe, reset_failed_unit-Safe, write_bridge_network_config-Safe,
            Keeps-run_checked, write_config-Safe, running_rounds-Safe, ready_rounds-Safe,
          )
          depth 40 fits 4000

  requirements-Safe : (rootfs : FilePath) → Safe (validate_child_rootfs_requirements rootfs)
  unfolding validate_child_rootfs_requirements
  requirements-Safe rootfs = search (keeps_rules)

  ensure_child_hostname-Safe :
      (rootfs : FilePath) (name : Text) → Safe (ensure_child_hostname rootfs name)
  unfolding ensure_child_hostname text path components_of first_part component split_on all_chars
      list_eq nat_eq
  ensure_child_hostname-Safe rootfs name =
      Keeps-write_text_file l trusted _ _ (below-Other l rootfs (text "etc/hostname") refl)
        (below-Named rootfs (text "etc/hostname") refl)

  enable_child_systemd_unit-Safe :
      (rootfs : FilePath) (unit : Text)
      → other_name unit ≡ true
      → Safe (enable_child_systemd_unit rootfs unit)
  unfolding enable_child_systemd_unit
  enable_child_systemd_unit-Safe rootfs unit h = Keeps-bind _ _ (dir-Safe _) λ _.
      Keeps-bind _ _ (search (keeps_rules)) λ present.
        Keeps-if _ _ _ (Keeps-pure tt)
          (Keeps-perform l trusted _ (Quiet-make_symlink l trusted _ _ (join-Other l _ unit h)))

  pub ensure_overlay_dirs-Safe : (s : Service) (id : Text) → Safe (ensure_overlay_dirs s id)
  unfolding ensure_overlay_dirs
  ensure_overlay_dirs-Safe s id = search (keeps_rules, dir-Safe)

  ensure_child_network_config-Safe : (env : Env) → Safe (ensure_child_network_config env)
  unfolding ensure_child_network_config text path components_of first_part component split_on
      all_chars list_eq nat_eq
  ensure_child_network_config-Safe env =
      let network = text "etc/systemd/network/80-agent-forkd-host0.network" in
      Keeps-if _ _ _ (Keeps-pure tt) (
        Keeps-bind _ _
          (Keeps-write_text_file l trusted _ _ (below-Other l env.rootfs_path network refl)
            (below-Named env.rootfs_path network refl))
          λ _.
            Keeps-bind _ _
              (enable_child_systemd_unit-Safe env.rootfs_path (text "systemd-networkd.service")
                refl)
              λ _.
                enable_child_systemd_unit-Safe env.rootfs_path (text "systemd-resolved.service")
                  refl)

  mask_target-Safe : (rootfs : FilePath) → Safe (Rootfs.mask_target rootfs (text "/agentfs"))
  unfolding Rootfs.mask_target text list_eq nat_eq
  mask_target-Safe rootfs = Keeps-bind _ _ (Keeps-lift _) λ relative.
      Keeps-bind _ _ (search (keeps_rules))
        λ present. Keeps-if present _ _ (Keeps-pure tt) (dir-Safe _)

  mask_targets-Safe : (rootfs : FilePath) → Safe (ensure_inaccessible_mask_targets rootfs)
  unfolding ensure_inaccessible_mask_targets for_each
  mask_targets-Safe rootfs = Keeps-bind _ _ (mask_target-Safe rootfs) λ _. Keeps-pure tt

  pub read_base-Safe : (id : Text) → Safe (read_base l id)
  unfolding read_base
  read_base-Safe id = search (keeps_rules, Keeps-read_json)

module _ {H : Host} (s : Service) (trusted : Trusted H (layout s)) where
  pub ensure_env_rootfs_mounted-Safe :
      (env : Env) → Keeps {H = H} (StoredValid (layout s)) (ensure_env_rootfs_mounted s env)
  unfolding ensure_env_rootfs_mounted
  ensure_env_rootfs_mounted-Safe env =
      search
        (
          keeps_rules, ensure_overlay_dirs-Safe, is_mountpoint-Safe, read_base-Safe,
          Keeps-run_checked,
        )
        depth 20

  start_step-Safe :
      (id : Text) (env : Env) (daemon_says lifecycle_says : Text) (m : M H (Unit {0}))
      → Keeps {H = H} (StoredValid (layout s)) m
      → Keeps {H = H} (StoredValid (layout s)) (start_step s id env daemon_says lifecycle_says m)
  unfolding start_step
  start_step-Safe id env daemon_says lifecycle_says m k =
      Keeps-on_error m _ k
        λ e. search (keeps_rules, Keeps-write_env, Keeps-log_daemon, Keeps-log_lifecycle) depth 12

  start_read-Safe :
      (id : Text) (env : Env)
      → is_valid_id env.id ≡ true
      → env.machine_name ≡ machine_name env.id
      → Keeps {H = H} (StoredValid (layout s)) (start_read s id env)
  unfolding start_read
  start_read-Safe id env valid named =
      search
        (
          keeps_rules, start_step-Safe, ensure_env_rootfs_mounted-Safe, requirements-Safe,
          mask_targets-Safe, ensure_child_hostname-Safe, ensure_child_network_config-Safe,
          start-Safe, mark_env_active-Keeps, Keeps-log_daemon, Keeps-log_lifecycle, Keeps-write_env,
        )
        depth 60 fits 8000

  pub env_start-Safe : (id : Text) → Keeps {H = H} (StoredValid (layout s)) (env_start s id)
  unfolding env_start
  env_start-Safe id =
      Keeps-bind_ok (read_env (layout s) id) _ (read_env-Keeps (layout s) id) λ env w read.
        let checked = read_env-valid (layout s) id env w read in
        start_read-Safe id env
          (validate_id-valid env.id
            (validate_env_metadata-id H.floats (layout s) env (some id) checked))
          (validate_env_metadata-machine H.floats (layout s) env (some id) checked)

  start_in-Safe :
      (id : Text) (state : EnvState) → Keeps {H = H} (StoredValid (layout s)) (start_in s id state)
  unfolding start_in
  start_in-Safe id EnvState.running = Keeps-pure tt
  start_in-Safe id EnvState.created = env_start-Safe id
  start_in-Safe id EnvState.stopped = env_start-Safe id
  start_in-Safe id _ = Keeps-bail _

  pub ensure_env_started-Safe :
      (id : Text) → Keeps {H = H} (StoredValid (layout s)) (ensure_env_started s id)
  unfolding ensure_env_started
  ensure_env_started-Safe id = search (keeps_rules, env_status-Safe, start_in-Safe) depth 12
