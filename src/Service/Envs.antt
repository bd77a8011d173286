-- ===== src/Service/Envs.antt =====
-- Creating, destroying and inspecting environments: crates/agent-core/src/service.rs.
use ipa_rs_agent_controller.Common.{Bool, false, ◌&&◌, Option, none, some, List, [], ◌∷◌, ◌++◌}
use ipa_rs_agent_controller.Common.{Result, ok, err, panic, ok_or, ◌==◌, if◌then◌else◌}
use ipa_rs_agent_controller.Common.Text.{Text, text}
use ipa_rs_agent_controller.Path.{FilePath, ◌/◌}
use ipa_rs_agent_controller.Host.{Host, create_dir_all}
use ipa_rs_agent_controller.Host.Effect.{
  M, pure, bail, lift, ◌>>=◌, ◌>>◌, attempt, ignore, exists, try_exists, perform, utc_now, for_each,
  map_each,
}
use ipa_rs_agent_controller.Model.{
  RootfsBackend, btrfs, overlay, backend_eq, EnvState, env_state_eq, Env, Base, EnvStatus, Limits,
  LimitOverrides, machine_name,
}
use ipa_rs_agent_controller.Model.Limit
use ipa_rs_agent_controller.Model.Limit.{with_overrides}
use ipa_rs_agent_controller.Config.{Profile, profile}
use ipa_rs_agent_controller.Storage.Ids.{validate_id}
use ipa_rs_agent_controller.Storage.Layout.{env_dir, env_rootfs, session_logs, sessions_dir}
use ipa_rs_agent_controller.Storage.Records.{read_base, write_env, read_env, list_envs, env_meta}
use ipa_rs_agent_controller.Btrfs.{
  snapshot_writable, set_limit, delete_subvolume, qgroup_id, destroy_qgroup, quota_exceeded,
}
use ipa_rs_agent_controller.Nspawn
use ipa_rs_agent_controller.Reflink.{clone_tree}
use ipa_rs_agent_controller.Service.Lifecycle.{
  should_refresh_live_state, should_check_quota, apply_stopped_state, idle_timeout_expired,
}
use ipa_rs_agent_controller.Service.Logs.{
  Service, layout, log_daemon, log_lifecycle, or_clean, cleanup_failed_dir,
  remove_dir_all_if_exists,
}
use ipa_rs_agent_controller.Service.Rootfs.{
  ensure_overlay_dirs, umount_overlay_rootfs, env_disk_used,
}

-- `.ok()`, and `.ok().flatten()` behind an `Option`
unfoldable pub ok_only : {A : Type 0} → Result A → Result (Option A)
ok_only (ok a) = ok (some a)
ok_only (err e) = ok none
ok_only (panic e) = panic e

flat : {A : Type 0} → Option (Option A) → Option A
flat none = none
flat (some o) = o

module _ {H : Host} (s : Service) where
  unfoldable pub ensure_env_dirs : Text → M H (Unit {0})
  ensure_env_dirs id =
      for_each
        (session_logs (layout s) id
          ∷ sessions_dir (layout s) id
          ∷ (env_dir (layout s) id / text "exports")
          ∷ (env_dir (layout s) id / text "locks")
          ∷ [])
        (λ dir. perform (create_dir_all dir))

  unfoldable pub destroy_found : Option Text → M H (Unit {0})
  destroy_found none = pure tt
  destroy_found (some id) = destroy_qgroup id s.config.agentfs

  unfoldable pub clean_rootfs : RootfsBackend → FilePath → M H (Unit {0})
  unfolding destroy_found ok_only flat
  clean_rootfs btrfs rootfs = do
    found ← attempt (qgroup_id rootfs) >>= λ r. lift (ok_only r)
    ignore (delete_subvolume rootfs)
    ignore (destroy_found (flat found))
  clean_rootfs overlay rootfs = pure tt
  clean_rootfs _ rootfs = ignore (remove_dir_all_if_exists rootfs)

  unfoldable pub cleanup_failed_env_create : RootfsBackend → FilePath → FilePath → M H (Unit {0})
  unfolding clean_rootfs
  cleanup_failed_env_create backend rootfs dir = do
    clean_rootfs backend rootfs
    cleanup_failed_dir dir

  unfoldable pub make_rootfs :
      Base → Text → Text → FilePath → FilePath → RootfsBackend → M H (Unit {0})
  make_rootfs base id disk_max rootfs dir btrfs = do
    or_clean (snapshot_writable base.rootfs_path rootfs) (cleanup_failed_dir dir)
    or_clean (set_limit disk_max rootfs) (cleanup_failed_env_create btrfs rootfs dir)
  make_rootfs base id disk_max rootfs dir overlay =
      or_clean (ensure_overlay_dirs s id) (cleanup_failed_dir dir)
  make_rootfs base id disk_max rootfs dir _ =
      or_clean (clone_tree base.rootfs_path rootfs) (cleanup_failed_dir dir)

  -- The steps behind the metadata in memory: the logs, the config of the machine and the file.
  unfoldable pub store_env : Env → FilePath → M H (Unit {0})
  store_env env dir = do
    or_clean (log_daemon s env.id (text "env created"))
        (cleanup_failed_env_create env.backend env.rootfs_path dir)
    or_clean (log_lifecycle s env.id (text "created"))
        (cleanup_failed_env_create env.backend env.rootfs_path dir)
    or_clean (Nspawn.write_config env) (cleanup_failed_env_create env.backend env.rootfs_path dir)
    or_clean (write_env (layout s) env) (
        ignore (Nspawn.remove_config env)
        >> cleanup_failed_env_create env.backend env.rootfs_path dir)

  -- The steps that make files, behind the checks.
  unfoldable pub build_env : Text → Base → Text → Profile → Limits → M H Env
  unfolding make_rootfs store_env
  build_env id base base_id chosen limits =
      let dir = env_dir (layout s) id in
      let rootfs = env_rootfs (layout s) id in
      do
        perform (create_dir_all dir)
        make_rootfs base id limits.disk_max rootfs dir base.backend
        or_clean (ensure_env_dirs id) (cleanup_failed_env_create base.backend rootfs dir)
        now ← utc_now
        active ← utc_now
        let env : Env = record {
          id = id;
          base_id = base_id;
          backend = base.backend;
          rootfs_path = rootfs;
          machine_name = machine_name id;
          state = EnvState.created;
          profile = chosen.name;
          created_at = now;
          last_active_at = active;
          limits = limits;
          network_policy = chosen.network_policy;
          sessions = [];
        }
        store_env env dir
        pure env

  unfoldable pub env_create : Text → Text → Text → LimitOverrides → M H Env
  unfolding build_env
  env_create id base_id profile_name limit_overrides = do
    lift (validate_id id)
    lift (validate_id base_id)
    chosen ← lift (ok_or (text "unknown profile " ++ profile_name) (profile s.config profile_name))
    base ← read_base (layout s) base_id
    present ← exists (env_dir (layout s) id)
    (if present then bail (text "env " ++ (id ++ text " already exists")) else pure tt)
    limits ← pure (with_overrides chosen.limits limit_overrides)
    lift (Limit.validate H.floats limits)
    build_env id base base_id chosen limits

  unfoldable pub ensure_env : Text → Text → Text → LimitOverrides → M H Env
  ensure_env id base_id profile_name limit_overrides = do
    lift (validate_id id)
    present ← try_exists (env_meta (layout s) id)
    (if present then read_env (layout s) id else env_create id base_id profile_name limit_overrides)

  unfoldable pub remove_rootfs : Env → RootfsBackend → M H (Unit {0})
  unfolding destroy_found
  remove_rootfs env btrfs = do
    found ← qgroup_id env.rootfs_path
    delete_subvolume env.rootfs_path
    destroy_found found
  remove_rootfs env overlay = umount_overlay_rootfs env
  remove_rootfs env _ = remove_dir_all_if_exists env.rootfs_path

  unfoldable pub env_destroy : Text → M H (Unit {0})
  unfolding remove_rootfs
  env_destroy id = do
    env ← read_env (layout s) id
    log_daemon s id (text "env destroy requested")
    log_lifecycle s id (text "destroying")
    Nspawn.stop env
    remove_rootfs env env.backend
    Nspawn.remove_config env
    remove_dir_all_if_exists (env_dir (layout s) id)

  unfoldable pub over_quota : Env → M H Bool
  over_quota env =
      if (env.backend == btrfs) && should_check_quota env.state
      then quota_exceeded env.rootfs_path
      else pure false

  unfoldable pub env_status : Text → M H EnvStatus
  unfolding over_quota ok_only
  env_status id = do
    stored ← read_env (layout s) id
    live ←
        if should_refresh_live_state stored.state then Nspawn.refresh_state stored else pure stored
    now ← utc_now
    expired ← lift (idle_timeout_expired H.floats live now)
    idle ←
        if expired
        then (do
          Nspawn.stop live
          log_lifecycle s id (text "idle timeout exceeded")
          pure (apply_stopped_state live))
        else pure live
    exceeded ← over_quota idle
    env ←
        if exceeded
        then (do
          log_lifecycle s id (text "quota exceeded during status refresh")
          pure (record idle { state = EnvState.quota_exceeded }))
        else pure idle
    write_env (layout s) env
    used ← attempt (env_disk_used s env) >>= λ r. lift (ok_only r)
    pure (record { env = env; disk_used = used })

  unfoldable pub env_list : M H (List EnvStatus)
  env_list = do envs ← list_envs (layout s); map_each envs (λ env. env_status env.id)
