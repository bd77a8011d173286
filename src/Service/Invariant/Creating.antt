-- ===== src/Service/Invariant/Creating.antt =====
-- Creating an environment keeps the stored metadata valid.
use ipa_rs_agent_controller.Common.{◌≡◌, refl, true, false, Option, none, some, List, [], ◌∷◌}
use ipa_rs_agent_controller.Common.Lists.{All}
use ipa_rs_agent_controller.Common.Text.{Text}
use ipa_rs_agent_controller.Path.{FilePath, join_path, is_absolute, parent}
use ipa_rs_agent_controller.Model.{
  RootfsBackend, btrfs, overlay, Base, Env, machine_name, LimitOverrides, Limits,
}
use ipa_rs_agent_controller.Host.{Host, FileType, directory, symlink, regular, other}
use ipa_rs_agent_controller.Host.Effect.{M, read, for_each, ◌>>=◌}
use ipa_rs_agent_controller.Host.Keeps.{
  Keeps, Keeps-pure, Keeps-bail, Keeps-read, Keeps-bind, Keeps-bind_ok, Keeps-bind_lift, Keeps-if,
  Keeps-lift, Keeps-exists, Keeps-utc_now, keeps_rules,
}
use ipa_rs_agent_controller.Host.Steps.{read-ok}
use ipa_rs_agent_controller.Storage.Ids.{is_valid_id, validate_id}
use ipa_rs_agent_controller.Storage.Layout.{env_rootfs}
use ipa_rs_agent_controller.Storage.Files.Keeps.{Keeps-with_context}
use ipa_rs_agent_controller.Reflink.{is_dir, clone_symlink, make_parent, clone_entry, clone_tree}
use ipa_rs_agent_controller.Btrfs.{set_limit}
use ipa_rs_agent_controller.Config.{Profile}
use ipa_rs_agent_controller.Service.Logs.{Service, layout}
use ipa_rs_agent_controller.Service.Guards.{read_env-Keeps}
use ipa_rs_agent_controller.Service.Envs.{
  ensure_env_dirs, clean_rootfs, cleanup_failed_env_create, make_rootfs, store_env, build_env,
  env_create, ensure_env,
}
use ipa_rs_agent_controller.Service.Invariant.{Trusted, StoredValid}
use ipa_rs_agent_controller.Service.Invariant.Files.{Other, Quiet-make_symlink, Quiet-reflink}
use ipa_rs_agent_controller.Service.Invariant.Actions.{Keeps-perform, Keeps-run_checked}
use ipa_rs_agent_controller.Service.Invariant.Stored.{Keeps-write_env, validate_id-valid}
use ipa_rs_agent_controller.Service.Invariant.Sessions.{Keeps-log_daemon, Keeps-log_lifecycle}
use ipa_rs_agent_controller.Service.Invariant.Machines.{
  qgroup_id-Safe, delete_subvolume-Safe, destroy_found-Safe, remove_dir_all_if_exists-Safe,
  remove_config-Safe,
}
use ipa_rs_agent_controller.Service.Invariant.Targets.{rootfs_entry-Other}
use ipa_rs_agent_controller.Service.Invariant.Starting.{
  dir-Safe, write_config-Safe, ensure_overlay_dirs-Safe, read_base-Safe,
}
use ipa_rs_agent_controller.Service.Invariant.Freezing.{
  snapshot_writable-Safe, cleanup_failed_dir-Safe,
}

module _ {H : Host} (s : Service) (trusted : Trusted H (layout s)) where
  abbrev Safe : {X : Type 0} → M H X → Type 0
  Safe m = Keeps {H = H} (StoredValid (layout s)) m

  is_dir-Safe : (p : FilePath) → Safe (is_dir p)
  unfolding is_dir
  is_dir-Safe p = search (keeps_rules)

  make_parent-Safe : (o : Option FilePath) → Safe (make_parent o)
  unfolding make_parent
  make_parent-Safe none = Keeps-pure tt
  make_parent-Safe (some d) = dir-Safe (layout s) trusted d

  clone_symlink-Safe : (src dst : FilePath) → Other (layout s) dst → Safe (clone_symlink src dst)
  unfolding clone_symlink
  clone_symlink-Safe src dst o = Keeps-bind _ _ (Keeps-read _) λ target.
      Keeps-perform (layout s) trusted _ (Quiet-make_symlink (layout s) trusted target dst o)

  clone_entry-Safe :
      (src dst rel : FilePath) (t : FileType)
      → Other (layout s) (join_path dst rel)
      → Safe (clone_entry src dst rel t)
  unfolding clone_entry
  clone_entry-Safe src dst rel directory o = Keeps-with_context _ _ (dir-Safe (layout s) trusted _)
  clone_entry-Safe src dst rel symlink o = Keeps-with_context _ _ (clone_symlink-Safe _ _ o)
  clone_entry-Safe src dst rel regular o =
      Keeps-bind _ _ (make_parent-Safe (parent (join_path dst rel))) λ _.
        Keeps-with_context _ _
          (Keeps-perform (layout s) trusted _ (Quiet-reflink (layout s) trusted _ _ o))
  clone_entry-Safe src dst rel other o = Keeps-pure tt

  cloned-Safe :
      (src : FilePath) (id : Text) (rels : List FilePath)
      → is_valid_id id ≡ true
      → All (λ rel. is_absolute rel ≡ false) rels
      → Safe (
          for_each rels λ rel. read (λ o. H.symlink_metadata o (join_path src rel)) >>= λ m.
          clone_entry src (env_rootfs (layout s) id) rel m.file_type)
  unfolding for_each
  cloned-Safe src id [] valid relative = Keeps-pure tt
  cloned-Safe src id (rel ∷ rels) valid relative =
      Keeps-bind _ _
        (Keeps-bind _ _ (Keeps-read _) λ m.
          clone_entry-Safe src _ rel m.file_type
            (rootfs_entry-Other (layout s) id rel valid relative.0))
        λ _. cloned-Safe src id rels valid relative.1

  clone_tree-Safe :
      (src : FilePath) (id : Text)
      → is_valid_id id ≡ true
      → Safe (clone_tree src (env_rootfs (layout s) id))
  unfolding clone_tree
  clone_tree-Safe src id valid = Keeps-bind _ _ (is_dir-Safe src) λ source_is_dir.
      Keeps-bind _ _ (Keeps-exists _) λ target_exists. Keeps-if _ _ _ (Keeps-bail _) (
        Keeps-if target_exists _ _ (Keeps-bail _) (
          Keeps-bind _ _ (dir-Safe (layout s) trusted _) λ _.
            Keeps-bind_ok (read (λ o. H.walk_dir o src)) _ (Keeps-read _) λ rels w e.
              cloned-Safe src id rels valid
                (trusted.walks w.os src rels (read-ok (λ o. H.walk_dir o src) w rels e))))

  ensure_env_dirs-Safe : (id : Text) → Safe (ensure_env_dirs s id)
  unfolding ensure_env_dirs
  ensure_env_dirs-Safe id = search (keeps_rules, dir-Safe)

  set_limit-Safe : (size : Text) (p : FilePath) → Safe (set_limit size p)
  unfolding set_limit
  set_limit-Safe size p = search (keeps_rules, Keeps-run_checked) depth 12

  clean_rootfs-Safe : (backend : RootfsBackend) (p : FilePath) → Safe (clean_rootfs s backend p)
  unfolding clean_rootfs
  clean_rootfs-Safe btrfs p =
      search (keeps_rules, qgroup_id-Safe, delete_subvolume-Safe, destroy_found-Safe) depth 20
  clean_rootfs-Safe overlay p = Keeps-pure tt
  clean_rootfs-Safe _ p = search (keeps_rules, remove_dir_all_if_exists-Safe)

  cleanup-Safe :
      (backend : RootfsBackend) (rootfs d : FilePath)
      → Safe (cleanup_failed_env_create s backend rootfs d)
  unfolding cleanup_failed_env_create
  cleanup-Safe backend rootfs d = search (keeps_rules, clean_rootfs-Safe, cleanup_failed_dir-Safe)

  make_rootfs-Safe :
      (base : Base) (id disk_max : Text) (d : FilePath) (backend : RootfsBackend)
      → is_valid_id id ≡ true
      → Safe (make_rootfs s base id disk_max (env_rootfs (layout s) id) d backend)
  unfolding make_rootfs
  make_rootfs-Safe base id disk_max d btrfs valid =
      search
        (keeps_rules, snapshot_writable-Safe, cleanup_failed_dir-Safe, set_limit-Safe, cleanup-Safe)
        depth 12
  make_rootfs-Safe base id disk_max d overlay valid =
      search (keeps_rules, ensure_overlay_dirs-Safe, cleanup_failed_dir-Safe) depth 12
  make_rootfs-Safe base id disk_max d _ valid =
      search (keeps_rules, clone_tree-Safe, cleanup_failed_dir-Safe) depth 12

  store_env-Safe :
      (env : Env) (d : FilePath)
      → is_valid_id env.id ≡ true
      → env.machine_name ≡ machine_name env.id
      → Safe (store_env s env d)
  unfolding store_env
  store_env-Safe env d valid named =
      search
        (
          keeps_rules, Keeps-log_daemon, Keeps-log_lifecycle, write_config-Safe, Keeps-write_env,
          remove_config-Safe, cleanup-Safe,
        )
        depth 20 fits 4000

  build_env-Safe :
      (id : Text) (base : Base) (base_id : Text) (chosen : Profile) (limits : Limits)
      → is_valid_id id ≡ true
      → Safe (build_env s id base base_id chosen limits)
  unfolding build_env
  build_env-Safe id base base_id chosen limits valid =
      Keeps-bind _ _ (dir-Safe (layout s) trusted _) λ _.
        Keeps-bind _ _ (make_rootfs-Safe base id limits.disk_max _ base.backend valid) λ _.
          Keeps-bind _ _ (search (keeps_rules, ensure_env_dirs-Safe, cleanup-Safe)) λ _.
            Keeps-bind _ _ Keeps-utc_now λ now. Keeps-bind _ _ Keeps-utc_now λ active.
              Keeps-bind (store_env s _ _) _ (store_env-Safe _ _ valid refl) λ _. Keeps-pure _

  pub env_create-Safe :
      (id base_id profile_name : Text) (limits : LimitOverrides)
      → Safe (env_create s id base_id profile_name limits)
  unfolding env_create
  env_create-Safe id base_id profile_name limits = Keeps-bind_lift (validate_id id) _ λ _ checked.
      Keeps-bind _ _ (Keeps-lift _) λ _. Keeps-bind _ _ (Keeps-lift _) λ chosen.
        Keeps-bind _ _ (read_base-Safe (layout s) trusted base_id) λ base.
          Keeps-bind _ _ (Keeps-exists _) λ present. Keeps-bind _ _ (search (keeps_rules)) λ _.
            Keeps-bind _ _ (Keeps-pure _) λ merged.
              Keeps-bind _ _ (Keeps-lift _)
                λ _. build_env-Safe id base base_id chosen merged (validate_id-valid id checked)

  pub ensure_env-Safe :
      (id base_id profile_name : Text) (limits : LimitOverrides)
      → Safe (ensure_env s id base_id profile_name limits)
  unfolding ensure_env
  ensure_env-Safe id base_id profile_name limits =
      search (keeps_rules, read_env-Keeps, env_create-Safe) depth 12
