-- ===== src/Storage/Metadata.antt =====
-- The validation of metadata in crates/agent-core/src/storage.rs.
pub mod Laws
use ipa_rs_agent_controller.Common.{Option, none, some, List, [], ◌∷◌, ◌++◌}
use ipa_rs_agent_controller.Common.{Result, ok, ◌>>◌, ensure, ◌==◌, list_eq, nat_eq}
use ipa_rs_agent_controller.Common.Text.{Text, text}
use ipa_rs_agent_controller.Path.{FilePath, ◌/◌, display, is_absolute, component_eq}
use ipa_rs_agent_controller.Model.{
  RootfsBackend, btrfs, overlay, path_preserving_overlay, apfs_clone, windows_block_clone,
  windows_minifilter_overlay, Base, Env, Session, machine_name,
}
use ipa_rs_agent_controller.Model.Limit
use ipa_rs_agent_controller.Model.Limit.{Floats}
use ipa_rs_agent_controller.Model.Policy
use ipa_rs_agent_controller.Storage.Ids.{validate_id}
use ipa_rs_agent_controller.Storage.Layout.{
  Layout, base_rootfs, base_lower, base_dir, env_view_root, env_rootfs, session_logs,
}

-- `if let Some(expected) = expected { if id != expected { return Err(…) } }`, where the message names the kind
-- of metadata and its field.
unfoldable pub check_id : Text → Text → Text → Option Text → Result (Unit {0})
check_id what field id none = ok tt
check_id what field id (some expected) = ensure (id == expected) (
    what
    ++ (text " metadata "
        ++ (field
            ++ (text " "
                ++ (id
                    ++ (text " does not match requested " ++ (field ++ (text " " ++ expected))))))))

-- `if actual != expected { return Err(…) }`
unfoldable pub check_path : Text → FilePath → FilePath → Result (Unit {0})
check_path what actual expected =
    ensure (actual == expected)
      (what ++ (text " " ++ (display actual ++ (text ", expected " ++ display expected))))

unfoldable pub validate_ids : List Text → Result (Unit {0})
validate_ids [] = ok tt
validate_ids (id ∷ ids) = do validate_id id; validate_ids ids

check_base_rootfs : Layout → Base → RootfsBackend → Result (Unit {0})
unfolding check_path
check_base_rootfs l base btrfs =
    check_path (text "base " ++ (base.id ++ text " has rootfs_path")) base.rootfs_path
      (base_rootfs l base.id)
check_base_rootfs l base apfs_clone =
    check_path (text "base " ++ (base.id ++ text " has rootfs_path")) base.rootfs_path
      (base_rootfs l base.id)
check_base_rootfs l base windows_block_clone =
    check_path (text "base " ++ (base.id ++ text " has rootfs_path")) base.rootfs_path
      (base_rootfs l base.id)
check_base_rootfs l base path_preserving_overlay =
    check_path (text "path-preserving base " ++ (base.id ++ text " has rootfs_path"))
      base.rootfs_path (base_lower l base.id)
check_base_rootfs l base windows_minifilter_overlay =
    check_path (text "path-preserving base " ++ (base.id ++ text " has rootfs_path"))
      base.rootfs_path (base_lower l base.id)
check_base_rootfs l base overlay = ensure (is_absolute base.rootfs_path) (
    text "overlay base "
    ++ (base.id ++ (text " has non-absolute rootfs_path " ++ display base.rootfs_path)))

unfoldable pub validate_base_metadata : Layout → Base → Option Text → Result (Unit {0})
unfolding check_id check_path check_base_rootfs
validate_base_metadata l base expected_id = do
  validate_id base.id
  check_id (text "base") (text "id") base.id expected_id
  ensure base.readonly (text "base " ++ (base.id ++ text " metadata is not readonly"))
  check_base_rootfs l base base.backend
  check_path (text "base " ++ (base.id ++ text " has dpkg_manifest")) base.dpkg_manifest
      (base_dir l base.id / text "dpkg.list")

-- Where an environment of that backend has its root.
unfoldable pub expected_rootfs : Layout → RootfsBackend → Text → FilePath
expected_rootfs l path_preserving_overlay id = env_view_root l id
expected_rootfs l windows_minifilter_overlay id = env_view_root l id
expected_rootfs l _ id = env_rootfs l id

unfoldable pub validate_env_metadata : Floats → Layout → Env → Option Text → Result (Unit {0})
unfolding check_id check_path validate_ids expected_rootfs
validate_env_metadata F l env expected_id = do
  validate_id env.id
  check_id (text "env") (text "id") env.id expected_id
  validate_id env.base_id
  validate_id env.profile
  Limit.validate F env.limits
  Policy.validate env.network_policy
  validate_ids env.sessions
  ensure (env.machine_name == machine_name env.id) (
      text "env "
      ++ (env.id
          ++ (text " has machine_name "
              ++ (env.machine_name ++ (text ", expected " ++ machine_name env.id)))))
  check_path (text "env " ++ (env.id ++ text " has rootfs_path")) env.rootfs_path
      (expected_rootfs l env.backend env.id)

unfoldable pub validate_session_metadata :
    Layout → Session → Option Text → Option Text → Result (Unit {0})
unfolding check_id check_path
validate_session_metadata l session expected_env_id expected_session_id = do
  validate_id session.env_id
  validate_id session.id
  check_id (text "session") (text "env_id") session.env_id expected_env_id
  check_id (text "session") (text "id") session.id expected_session_id
  check_path
      (text "session " ++ (session.env_id ++ (text "/" ++ (session.id ++ text " has log_path"))))
      session.log_path (session_logs l session.env_id / (session.id ++ text ".log"))
