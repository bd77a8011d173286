-- ===== src/Overlay.antt =====
-- crates/agent-core/src/path_overlay.rs: the view of a tree through an upper layer and whiteouts.
pub mod Paths
pub mod Markers
pub mod Lower
pub mod Reading
use ipa_rs_agent_controller.Common.{
  ℕ, zero, suc, Bool, true, false, not, Option, none, some, List, [], ◌∷◌, ◌++◌,
}
use ipa_rs_agent_controller.Common.{
  Result, ok, err, panic, ok_or, Eq, ◌==◌, list_eq, nat_eq, option_eq, if◌then◌else◌,
}
use ipa_rs_agent_controller.Common.Text.{Text, text, bytes}
use ipa_rs_agent_controller.Path.{
  FilePath, root_dir, cur_dir, parent_dir, normal, is_absolute, join_path, ◌/◌, file_name, parent,
  strip_path, display,
}
use ipa_rs_agent_controller.Host.{
  Host, Io, done, not_found, failed, Metadata, FileType, regular, directory, symlink, other,
  filetype_eq, create, write_all, create_dir_all, remove_file, rename_tree, copy, make_symlink,
}
use ipa_rs_agent_controller.Host.Effect.{
  M, pure, bail, lift, ◌>>=◌, ◌>>◌, asks, read, exists, perform, for_each,
}
use ipa_rs_agent_controller.Storage.Files.{with_context}
use ipa_rs_agent_controller.Overlay.Paths.{PathOverlay, upper_path, lower_path, whiteout_path}

abbrev pub directory_whiteout_marker : Text
directory_whiteout_marker = text ".agentfs-whiteout-dir"

abbrev pub directory_whiteout_marker_content : Text
directory_whiteout_marker_content = text "dir\n"

pub data OverlaySource : Type 0 where
  upper_source lower_source : OverlaySource

pub record ResolvedPath : Type 0 where
  pub visible_path : FilePath
  pub storage_path : FilePath
  pub source : OverlaySource

pub data OverlayLookup : Type 0 where
  found : ResolvedPath → OverlayLookup
  whiteout : FilePath → OverlayLookup
  missing : OverlayLookup

is_some : Option FilePath → Bool
is_some none = false
is_some (some p) = true

module _ {H : Host} where
  unfoldable pub is_content : FilePath → Io (List ℕ) → M H Bool
  is_content path (done content) = pure (content == bytes directory_whiteout_marker_content)
  is_content path not_found = pure false
  is_content path (failed e) =
      with_context (text "failed to read whiteout marker " ++ display path) (bail e)

  unfoldable pub is_directory_whiteout_marker : FilePath → M H Bool
  unfolding is_content
  is_directory_whiteout_marker path =
      if not (file_name path == some directory_whiteout_marker)
      then pure false
      else (asks (λ s. H.read s path) >>= is_content path)

  -- By the type of what stands at the path of the whiteout.
  unfoldable pub marker_of_type : FilePath → FileType → M H (Option FilePath)
  marker_of_type at regular = pure (some at)
  marker_of_type at directory = do
    present ← is_directory_whiteout_marker (at / directory_whiteout_marker)
    pure (if present then some (at / directory_whiteout_marker) else none)
  marker_of_type at symlink = pure none
  marker_of_type at other = pure none

  unfoldable pub marker_of : FilePath → Io Metadata → M H (Option FilePath)
  unfolding marker_of_type
  marker_of at (done m) = marker_of_type at m.file_type
  marker_of at not_found = pure none
  marker_of at (failed e) =
      with_context (text "failed to stat whiteout marker " ++ display at) (bail e)

  unfoldable pub whiteout_marker_path : PathOverlay → FilePath → M H (Option FilePath)
  unfolding marker_of
  whiteout_marker_path o visible = do
    at ← lift (whiteout_path o visible)
    asks (λ s. H.symlink_metadata s at) >>= marker_of at

  unfoldable pub whiteout_exists : PathOverlay → FilePath → M H Bool
  unfolding is_some
  whiteout_exists o visible = do marker ← whiteout_marker_path o visible; pure (is_some marker)

  unfoldable pub remove_marker : Option FilePath → M H (Unit {0})
  remove_marker none = pure tt
  remove_marker (some marker) =
      with_context (text "failed to remove whiteout " ++ display marker)
        (perform (remove_file marker))

  unfoldable pub remove_whiteout : PathOverlay → FilePath → M H (Unit {0})
  unfolding remove_marker
  remove_whiteout o visible = whiteout_marker_path o visible >>= remove_marker

  unfoldable pub resolve_below : PathOverlay → FilePath → Option FilePath → M H OverlayLookup
  resolve_below o visible (some marker) = pure (whiteout marker)
  resolve_below o visible none = do
    upper ← lift (upper_path o visible)
    in_upper ← exists upper
    (if in_upper
        then pure
            (found (record { visible_path = visible; storage_path = upper; source = upper_source }))
        else (do
          lower ← lift (lower_path o visible)
          in_lower ← exists lower
          pure (
              if in_lower
              then found
                  (record { visible_path = visible; storage_path = lower; source = lower_source })
              else missing)))

  unfoldable pub resolve : PathOverlay → FilePath → M H OverlayLookup
  unfolding resolve_below
  resolve o visible = whiteout_marker_path o visible >>= resolve_below o visible

  -- `fs::write`
  unfoldable pub write_new : FilePath → Text → M H (Unit {0})
  write_new path contents = do perform (create path); perform (write_all path contents)

  unfoldable pub make_parent : Option FilePath → M H (Unit {0})
  make_parent none = pure tt
  make_parent (some dir) =
      with_context (text "failed to create " ++ display dir) (perform (create_dir_all dir))

  -- `symlink_metadata(p).map(|metadata| metadata.is_dir()).unwrap_or(false)`
  unfoldable pub is_real_dir : FilePath → M H Bool
  is_real_dir p = asks (λ s. elim (H.symlink_metadata s p) [
    | done m ↦ m.file_type == directory
    | not_found ↦ false
    | failed e ↦ false
  ])

  unfoldable pub create_whiteout : PathOverlay → FilePath → M H (Unit {0})
  unfolding write_new make_parent is_real_dir
  create_whiteout o visible = do
    at ← lift (whiteout_path o visible)
    is_dir ← is_real_dir at
    (if is_dir
        then with_context
            (text "failed to create whiteout " ++ display (at / directory_whiteout_marker))
            (write_new (at / directory_whiteout_marker) directory_whiteout_marker_content)
        else (do
          make_parent (parent at)
          with_context (text "failed to create whiteout " ++ display at) (write_new at [])))

  unfoldable pub link_to : FilePath → Text → M H (Unit {0})
  link_to dst target = perform (make_symlink target dst)

  -- On fuel for the depth of the tree; `deeper` copies one entry.
  unfoldable pub copy_node :
      (FilePath → FilePath → M H (Unit {0})) → FilePath → FilePath → FileType → M H (Unit {0})
  unfolding link_to
  copy_node deeper src dst directory = do
    with_context (text "failed to create overlay dir " ++ display dst)
        (perform (create_dir_all dst))
    names ← read (λ s. H.read_dir s src)
    for_each names (λ name. deeper (src / name) (dst / name))
  copy_node deeper src dst regular =
      with_context
        (text "failed to copy overlay lower "
          ++ (display src ++ (text " to upper " ++ display dst)))
        (perform (copy src dst))
  copy_node deeper src dst symlink = read (λ s. H.read_link s src) >>= link_to dst
  copy_node deeper src dst other = pure tt

  unfoldable pub copy_tree_within : ℕ → FilePath → FilePath → M H (Unit {0})
  unfolding copy_node
  copy_tree_within zero src dst = lift (panic (text "stack overflow"))
  copy_tree_within (suc depth) src dst = do
    metadata ←
        with_context (text "failed to stat overlay source " ++ display src)
          (read (λ s. H.symlink_metadata s src))
    copy_node (copy_tree_within depth) src dst metadata.file_type

  unfoldable pub copy_tree : FilePath → FilePath → M H (Unit {0})
  copy_tree = copy_tree_within 4096

  -- What is done where the upper layer has no such file.
  unfoldable pub rename_resolved :
      PathOverlay → FilePath → FilePath → FilePath → OverlayLookup → M H (Unit {0})
  rename_resolved o from to to_upper (found r) = do
    elim r.source [
      | lower_source ↦ copy_tree r.storage_path to_upper
      | upper_source ↦ perform (rename_tree r.storage_path to_upper)
    ]
    remove_whiteout o to
    create_whiteout o from
  rename_resolved o from to to_upper (whiteout marker) =
      bail (text "cannot rename missing overlay path " ++ display from)
  rename_resolved o from to to_upper missing =
      bail (text "cannot rename missing overlay path " ++ display from)

  unfoldable pub rename : PathOverlay → FilePath → FilePath → M H (Unit {0})
  unfolding rename_resolved
  rename o from to = do
    from_upper ← lift (upper_path o from)
    from_lower ← lift (lower_path o from)
    to_upper ← lift (upper_path o to)
    make_parent (parent to_upper)
    in_upper ← exists from_upper
    (if in_upper
        then (do
          in_lower ← exists from_lower
          with_context
              (text "failed to rename overlay upper "
                ++ (display from_upper ++ (text " to " ++ display to_upper)))
              (perform (rename_tree from_upper to_upper))
          remove_whiteout o to
          (if in_lower then create_whiteout o from else remove_whiteout o from))
        else (resolve o from >>= rename_resolved o from to to_upper))

  unfoldable pub visible_path_from_whiteout_storage : FilePath → FilePath → M H FilePath
  visible_path_from_whiteout_storage root path = do
    is_marker ← is_directory_whiteout_marker path
    stored ←
        if is_marker
        then lift (ok_or (text "whiteout marker has no parent: " ++ display path) (parent path))
        else pure path
    rel ← lift (ok_or (text "prefix not found") (strip_path stored root))
    pure (join_path (root_dir ∷ []) rel)
