-- ===== src/Service/Exports.antt =====
-- `diff` and `export`: crates/agent-core/src/service.rs.
use ipa_rs_agent_controller.Common.{ℕ, zero, suc, not, none, some, List, [], ◌∷◌, ◌++◌}
use ipa_rs_agent_controller.Common.{Result, ok, panic, ◌==◌, list_eq, nat_eq, if◌then◌else◌}
use ipa_rs_agent_controller.Common.Text.{Text, text, join_with, strip_prefix, trim_end}
use ipa_rs_agent_controller.Common.Sort.{sort}
use ipa_rs_agent_controller.Path.{FilePath, ◌/◌, display, strip_path, with_file_name}
use ipa_rs_agent_controller.Host.{Host}
use ipa_rs_agent_controller.Host.Effect.{M, pure, lift, ◌>>=◌, ◌>>◌, read, exists}
use ipa_rs_agent_controller.Model.{overlay, backend_eq, Env, Base}
use ipa_rs_agent_controller.Storage.Layout.{env_dir}
use ipa_rs_agent_controller.Storage.Files.{write_text_file}
use ipa_rs_agent_controller.Storage.Records.{write_env, read_env, read_base}
use ipa_rs_agent_controller.Export.{
  ExportType, workspace_patch_type, rootfs_changed_paths, dpkg_delta_type, artifact_name,
  workspace_patch, dpkg_delta, changed_paths_by_walk,
}
use ipa_rs_agent_controller.Reflink.{is_dir}
use ipa_rs_agent_controller.Service.Logs.{
  Service, layout, log_daemon, log_lifecycle, mark_env_active,
}
use ipa_rs_agent_controller.Service.Rootfs.{ensure_env_rootfs_mounted, overlay_upper_dir}
use ipa_rs_agent_controller.Service.Bases.{write_dpkg_manifest}

-- The path that an entry of the upper directory reports: a whiteout names the deleted file.
unfoldable pub reported_path : FilePath → Text → FilePath
reported_path path name = elim (strip_prefix name (text ".wh.")) [
  | some deleted ↦ with_file_name path deleted
  | none ↦ path
]

module _ {H : Host} where
  unfoldable pub entry_line : FilePath → FilePath → FilePath → M H Text
  entry_line root path reported = lift (elim (strip_path reported root) [
    | some relative ↦ ok (text "/" ++ display relative)
    | none ↦
        Result.err
          (display path ++ (text " is outside " ++ (display root ++ text ": prefix not found")))
  ])

  -- One directory; `below` is the call for its directories.
  unfoldable pub dir_entries :
      (FilePath → M H (List Text)) → FilePath → FilePath → List Text → M H (List Text)
  unfolding entry_line
  dir_entries below root dir [] = pure []
  dir_entries below root dir (name ∷ names) =
      if name == text ".wh..wh..opq" then dir_entries below root dir names else (do
        line ← entry_line root (dir / name) (reported_path (dir / name) name)
        is_directory ← is_dir (dir / name)
        inner ← if is_directory then below (dir / name) else pure []
        rest ← dir_entries below root dir names
        pure ((line ∷ inner) ++ rest))

  -- The fuel bounds the depth of the tree.
  unfoldable pub collect_overlay_changed_paths : ℕ → FilePath → FilePath → M H (List Text)
  unfolding dir_entries
  collect_overlay_changed_paths zero root dir = lift (panic (text "stack overflow"))
  collect_overlay_changed_paths (suc fuel) root dir = do
    present ← exists dir
    (if not present then pure [] else (do
      names ← read (λ s. H.read_dir s dir)
      dir_entries (collect_overlay_changed_paths fuel root) root dir names))

  -- Linux has no path of more than 4096 bytes, so a tree is less deep than that.
  unfoldable pub overlay_changed_paths : Service → Env → M H Text
  unfolding collect_overlay_changed_paths
  overlay_changed_paths s env = do
    paths ←
        collect_overlay_changed_paths 4096 (overlay_upper_dir s env.id) (overlay_upper_dir s env.id)
    pure (trim_end (join_with (text "\n") (sort paths) ++ text "\n"))

module _ {H : Host} (s : Service) where
  unfoldable pub diff : Text → M H Text
  diff env_id = do
    env ← read_env (layout s) env_id
    ensure_env_rootfs_mounted s env
    active ← mark_env_active env
    write_env (layout s) active
    workspace_patch active

  unfoldable pub export_text : Text → Env → Base → ExportType → M H Text
  export_text env_id env base workspace_patch_type = workspace_patch env
  export_text env_id env base rootfs_changed_paths =
      if env.backend == overlay
      then overlay_changed_paths s env
      else changed_paths_by_walk base.rootfs_path env.rootfs_path
  export_text env_id env base dpkg_delta_type = do
    write_dpkg_manifest env.rootfs_path (env_dir (layout s) env_id / text "dpkg.list")
    dpkg_delta base.dpkg_manifest (env_dir (layout s) env_id / text "dpkg.list")

  unfoldable pub export : Text → ExportType → M H Text
  unfolding export_text
  export env_id export_type =
      let artifact = env_dir (layout s) env_id / text "exports" / artifact_name export_type in
      do
        env ← read_env (layout s) env_id
        base ← read_base (layout s) env.base_id
        ensure_env_rootfs_mounted s env
        contents ← export_text env_id env base export_type
        write_text_file artifact contents
        active ← mark_env_active env
        write_env (layout s) active
        log_daemon s env_id (text "exported " ++ display artifact)
        log_lifecycle s env_id (text "exported " ++ display artifact)
        pure contents
