-- ===== src/Reflink.antt =====
-- `clone_tree` of crates/agent-core/src/reflink.rs: a directory tree cloned file by file.
use ipa_rs_agent_controller.Common.{Bool, not, Option, none, some, ◌++◌, ◌==◌, if◌then◌else◌}
use ipa_rs_agent_controller.Common.Text.{text}
use ipa_rs_agent_controller.Path.{FilePath, join_path, parent, display}
use ipa_rs_agent_controller.Host.{
  Host, done, not_found, failed, FileType, directory, symlink, regular, other, filetype_eq,
  create_dir_all, make_symlink, reflink,
}
use ipa_rs_agent_controller.Host.Effect.{
  M, pure, bail, ◌>>=◌, ◌>>◌, perform, read, asks, exists, for_each,
}
use ipa_rs_agent_controller.Storage.Files.{with_context}

module _ {H : Host} where
  -- `Path::is_dir`
  unfoldable pub is_dir : FilePath → M H Bool
  is_dir p = asks (λ s. elim (H.metadata s p) [
    | done m ↦ m.file_type == directory
    | not_found ↦ directory == regular
    | failed e ↦ directory == regular
  ])

  unfoldable pub clone_symlink : FilePath → FilePath → M H (Unit {0})
  clone_symlink src dst = do
    target ← read (λ s. H.read_link s src)
    perform (make_symlink target dst)

  unfoldable pub make_parent : Option FilePath → M H (Unit {0})
  make_parent none = pure tt
  make_parent (some dir) = perform (create_dir_all dir)

  -- One entry, by its type; anything else than these three is passed over.
  unfoldable pub clone_entry : FilePath → FilePath → FilePath → FileType → M H (Unit {0})
  unfolding clone_symlink make_parent
  clone_entry src dst relative directory =
      with_context (text "failed to create directory " ++ display (join_path dst relative))
        (perform (create_dir_all (join_path dst relative)))
  clone_entry src dst relative symlink =
      with_context (text "failed to clone symlink " ++ display (join_path src relative))
        (clone_symlink (join_path src relative) (join_path dst relative))
  clone_entry src dst relative regular = do
    make_parent (parent (join_path dst relative))
    with_context (text "failed to reflink " ++ display (join_path src relative))
        (perform (reflink (join_path src relative) (join_path dst relative)))
  clone_entry src dst relative other = pure tt

  unfoldable pub clone_tree : FilePath → FilePath → M H (Unit {0})
  unfolding clone_entry
  clone_tree src dst = do
    source_is_dir ← is_dir src
    target_exists ← exists dst
    (if not source_is_dir
        then bail (display src ++ text " is not a directory")
        else if target_exists
        then bail (display dst ++ text " already exists")
        else (do
          perform (create_dir_all dst)
          entries ← read (λ s. H.walk_dir s src)
          for_each entries λ relative. do
            metadata ← read (λ s. H.symlink_metadata s (join_path src relative))
            clone_entry src dst relative metadata.file_type))
