-- ===== src/Export.antt =====
-- crates/agent-core/src/export.rs: what an environment changed.
pub mod Packages
use mathlib.Core.Bool.{xor}
use ipa_rs_agent_controller.Common.{
  Bool, true, false, not, ◌||◌, Option, none, some, List, [], ◌∷◌, ◌++◌,
}
use ipa_rs_agent_controller.Common.{
  Result, ok, err, ◌==◌, list_eq, nat_eq, eqb, if◌then◌else◌, contains,
}
use ipa_rs_agent_controller.Common.Text.{Text, text, join_with}
use ipa_rs_agent_controller.Common.Sort.{sort, dedup}
use ipa_rs_agent_controller.Path.{FilePath, Component, normal, ◌/◌, join_path, display}
use ipa_rs_agent_controller.Host.{
  Host, Metadata, FileType, directory, symlink, regular, filetype_eq,
}
use ipa_rs_agent_controller.Host.Effect.{M, pure, ◌>>=◌, ◌>>◌, read, read_if_found, exists}
use ipa_rs_agent_controller.Storage.Files.{with_context}
use ipa_rs_agent_controller.Model.{Env}
use ipa_rs_agent_controller.Command.{run_checked}
use ipa_rs_agent_controller.Export.Packages.{package_versions, delta}

pub data ExportType : Type 0 where
  workspace_patch_type rootfs_changed_paths dpkg_delta_type : ExportType

unfoldable pub parse_export_type : Text → Result ExportType
parse_export_type value =
    if value == text "workspace-patch"
    then ok workspace_patch_type
    else if value == text "rootfs-changed-paths"
    then ok rootfs_changed_paths
    else if value == text "dpkg-delta"
    then ok dpkg_delta_type
    else err (text "unsupported export type " ++ value)

unfoldable pub artifact_name : ExportType → Text
artifact_name workspace_patch_type = text "workspace-patch.patch"
artifact_name rootfs_changed_paths = text "rootfs-changed-paths.txt"
artifact_name dpkg_delta_type = text "dpkg-delta.txt"

-- `proc`, `sys`, `dev`, `run` and `tmp` are filled while the machine runs.
unfoldable pub is_runtime_only_path : FilePath → Bool
is_runtime_only_path (normal s ∷ p) =
    contains (text "proc" ∷ text "sys" ∷ text "dev" ∷ text "run" ∷ text "tmp" ∷ []) s
is_runtime_only_path _ = false

-- On Unix.
unfoldable pub metadata_changed : Metadata → Metadata → Bool
metadata_changed base env =
    not (eqb base.mode env.mode) || not (eqb base.uid env.uid) || not (eqb base.gid env.gid)

absent : Option Metadata → Bool
absent none = true
absent (some m) = false

module _ {H : Host} where
  unfoldable pub workspace_patch : Env → M H Text
  workspace_patch env = do
    present ← exists (env.rootfs_path / text "workspace" / text ".git")
    (if not present then pure [] else (do
      output ← run_checked (text "git") (
          text "-C"
          ∷ display (env.rootfs_path / text "workspace")
          ∷ text "diff"
          ∷ text "--binary"
          ∷ [])
      pure output.stdout))

  unfoldable pub dpkg_delta : FilePath → FilePath → M H Text
  dpkg_delta base_manifest env_manifest = do
    base ← read (λ s. H.read_to_string s base_manifest)
    env ← read (λ s. H.read_to_string s env_manifest)
    pure (delta (package_versions base) (package_versions env))

  unfoldable pub files_differ : FilePath → FilePath → M H Bool
  files_differ left right = do
    left_meta ← read (λ s. H.metadata s left)
    right_meta ← read (λ s. H.metadata s right)
    (if not (eqb left_meta.len right_meta.len) then pure true else (do
      a ← read (λ s. H.read_to_string s left)
      b ← read (λ s. H.read_to_string s right)
      pure (not (a == b))))

  unfoldable pub links_differ : FilePath → FilePath → M H Bool
  links_differ left right = do
    a ← read (λ s. H.read_link s left)
    b ← read (λ s. H.read_link s right)
    pure (not (a == b))

  unfoldable pub compare_types : FilePath → FilePath → FileType → FileType → M H Bool
  unfolding files_differ links_differ
  compare_types base env regular regular = files_differ base env
  compare_types base env symlink symlink = links_differ base env
  compare_types base env base_type env_type = pure (
      xor (base_type == directory) (env_type == directory)
      || xor (base_type == regular) (env_type == regular)
      || xor (base_type == symlink) (env_type == symlink))

  unfoldable pub path_changed_from : FilePath → FilePath → Option Metadata → M H Bool
  unfolding compare_types
  path_changed_from base env none = pure true
  path_changed_from base env (some base_meta) = do
    env_meta ← read (λ s. H.symlink_metadata s env)
    (if metadata_changed base_meta env_meta
        then pure true
        else compare_types base env base_meta.file_type env_meta.file_type)

  unfoldable pub path_changed : FilePath → FilePath → M H Bool
  unfolding path_changed_from
  path_changed base env = do
    base_meta ← read_if_found (λ s. H.symlink_metadata s base)
    path_changed_from base env base_meta

  -- The loop over the entries of the environment.
  unfoldable pub env_entries : FilePath → FilePath → List FilePath → M H (List Text)
  env_entries base env [] = pure []
  env_entries base env (rel ∷ rels) = do
    changed ←
        if is_runtime_only_path rel
        then pure false
        else path_changed (join_path base rel) (join_path env rel)
    rest ← env_entries base env rels
    pure (if changed then (text "/" ++ display rel) ∷ rest else rest)

  -- The loop over the entries of the base.
  unfoldable pub base_entries : FilePath → List FilePath → M H (List Text)
  unfolding absent
  base_entries env [] = pure []
  base_entries env (rel ∷ rels) = do
    deleted ← if is_runtime_only_path rel then pure false else (do
      found ← read_if_found (λ s. H.symlink_metadata s (join_path env rel))
      pure (absent found))
    rest ← base_entries env rels
    pure (if deleted then (text "deleted /" ++ display rel) ∷ rest else rest)

  unfoldable pub changed_paths_by_walk : FilePath → FilePath → M H Text
  unfolding env_entries base_entries with_context
  changed_paths_by_walk base env = do
    env_rels ← with_context (text "failed to walk " ++ display env) (read (λ s. H.walk_dir s env))
    changed ← env_entries base env env_rels
    base_rels ←
        with_context (text "failed to walk " ++ display base) (read (λ s. H.walk_dir s base))
    deleted ← base_entries env base_rels
    pure (join_with (text "\n") (dedup (sort (changed ++ deleted))))
