-- ===== src/OverlayFs/Directory.antt =====
-- Directories of the view, and the removal from them, of crates/agent-overlayfs/src/main.rs.
pub mod Hidden
pub mod Listed
pub mod Yields
use ipa_rs_agent_controller.Common.{
  Bool, true, false, not, ◌&&◌, ◌||◌, Option, none, some, List, [], ◌∷◌,
}
use ipa_rs_agent_controller.Common.{◌==◌, list_eq, nat_eq, if◌then◌else◌}
use ipa_rs_agent_controller.Common.Sort.{text_le}
use ipa_rs_agent_controller.Common.Dict.{lookup}
use ipa_rs_agent_controller.Common.Text.{Text}
use ipa_rs_agent_controller.Path.{FilePath, component_eq, ◌/◌}
use ipa_rs_agent_controller.Host.{
  Host, Io, done, not_found, failed, Metadata, FileType, regular, directory, filetype_eq,
  remove_file, remove_dir, Change,
}
use ipa_rs_agent_controller.Host.Effect as Act
use ipa_rs_agent_controller.Reflink.{is_dir}
use ipa_rs_agent_controller.Overlay
use ipa_rs_agent_controller.Overlay.{OverlayLookup, found, whiteout, missing}
use ipa_rs_agent_controller.Overlay.Paths.{upper_path, lower_path}
use ipa_rs_agent_controller.OverlayFs.Fallback.{root, contains_visible, is_virtual_dir, child_names}
use ipa_rs_agent_controller.OverlayFs.Effect.{
  eio, enoent, enotdir, View, F, Answer, answered, refused, io_or_eio, or_eio, pure, refuse, lift,
  ◌>>=◌, ◌>>◌, try, asks, fold_each,
}
use ipa_rs_agent_controller.OverlayFs.Storage.{
  ready_file, child, overlay_visible_path, fallback_path, perform,
}

-- `BTreeMap::insert`: the names stay in order.
unfoldable pub insert_entry : Text → FileType → List (Text × FileType) → List (Text × FileType)
insert_entry name kind [] = (name, kind) ∷ []
insert_entry name kind ((n, k) ∷ entries) =
    let rest = insert_entry name kind entries in
    if name == n
    then (name, kind) ∷ entries
    else if text_le name n
    then (name, kind) ∷ (n, k) ∷ entries
    else (n, k) ∷ rest

-- `BTreeMap::entry(name).or_insert(kind)`
unfoldable pub entry_or_insert : Text → FileType → List (Text × FileType) → List (Text × FileType)
entry_or_insert name kind entries = elim (lookup name entries) [
  | some old ↦ entries
  | none ↦ insert_entry name kind entries
]

unfoldable pub first_roots : Option FilePath → List FilePath → List FilePath
first_roots none roots = roots
first_roots (some path) roots = path ∷ roots

found_or_eio : Io Metadata → Answer Bool
found_or_eio (done m) = answered true
found_or_eio not_found = answered false
found_or_eio (failed e) = refused eio

has_path : Option FilePath → Bool
has_path none = false
has_path (some path) = true

module _ {H : Host} where
  unfoldable pub dir_only : Option FilePath → F H (Option FilePath)
  dir_only none = pure none
  dir_only (some path) = do is_dir ← try (is_dir path); pure (if is_dir then some path else none)

  unfoldable pub fuser_kind : FilePath → F H FileType
  fuser_kind path = do
    m ← asks (λ s. H.symlink_metadata s path) >>= λ r. lift (io_or_eio r)
    pure m.file_type

  unfoldable pub kind_or_directory : Option FilePath → F H FileType
  kind_or_directory none = pure directory
  kind_or_directory (some path) = fuser_kind path

  unfoldable pub path_exists : FilePath → F H Bool
  unfolding found_or_eio
  path_exists path = asks (λ s. H.symlink_metadata s path) >>= λ r. lift (found_or_eio r)

module _ {H : Host} (v : View) where
  unfoldable pub fallback_entries_root : FilePath → F H (Option FilePath)
  unfolding dir_only
  fallback_entries_root visible =
      if visible == root
      then pure none
      else if not (contains_visible v.fallback_roots visible)
      then pure none
      else (fallback_path v visible >>= dir_only)

  unfoldable pub add_entry :
      FilePath → FilePath → Text → List (Text × FileType) → F H (List (Text × FileType))
  add_entry visible dir name entries = do
    hidden ← try (Overlay.whiteout_exists v.overlay (child visible name))
    (if hidden
        then pure entries
        else (do kind ← fuser_kind (dir / name); pure (insert_entry name kind entries)))

  unfoldable pub add_dir :
      FilePath → FilePath → List (Text × FileType) → F H (List (Text × FileType))
  unfolding add_entry
  add_dir visible dir entries = do
    present ← try (Act.exists dir)
    (if not present then pure entries else (do
      is_directory ← try (is_dir dir)
      (if not is_directory then refuse enotdir else (do
        names ← try (Act.read (λ s. H.read_dir s dir))
        fold_each names entries (add_entry visible dir)))))

  unfoldable pub add_child : FilePath → Text → List (Text × FileType) → F H (List (Text × FileType))
  unfolding kind_or_directory
  add_child visible name entries = do
    hidden ← try (Overlay.whiteout_exists v.overlay (child visible name))
    (if hidden then pure entries else (do
      path ← fallback_path v (child visible name)
      kind ← kind_or_directory path
      pure (entry_or_insert name kind entries)))

  unfoldable pub merged_dir_entries : FilePath → F H (List (Text × FileType))
  unfolding add_dir add_child first_roots
  merged_dir_entries mount_path =
      let visible = overlay_visible_path v mount_path in
      do
        fallback_root ← fallback_entries_root visible
        lower ← lift (or_eio (lower_path v.overlay visible))
        upper ← lift (or_eio (upper_path v.overlay visible))
        stored ← fold_each (first_roots fallback_root (lower ∷ upper ∷ [])) [] (add_dir visible)
        fold_each (child_names v.fallback_roots visible)
            (if mount_path == root then insert_entry ready_file regular stored else stored)
            (add_child visible)

  unfoldable pub should_whiteout_removed_path : FilePath → F H Bool
  unfolding has_path
  should_whiteout_removed_path visible = do
    lower ← lift (or_eio (lower_path v.overlay visible))
    in_lower ← path_exists lower
    path ← fallback_path v visible
    pure (in_lower || has_path path || is_virtual_dir v.fallback_roots visible)

  unfoldable pub update_whiteout : FilePath → Bool → F H (Unit {0})
  update_whiteout visible true = try (Overlay.create_whiteout v.overlay visible)
  update_whiteout visible false = try (Overlay.remove_whiteout v.overlay visible)

  -- The body that both removals share; `removal` is the call for what stands in the upper layer.
  unfoldable pub remove_and_update_whiteout : (FilePath → Change) → FilePath → F H (Unit {0})
  unfolding update_whiteout
  remove_and_update_whiteout removal visible = do
    upper ← lift (or_eio (upper_path v.overlay visible))
    upper_exists ← path_exists upper
    should_whiteout ← should_whiteout_removed_path visible
    (if not upper_exists && not should_whiteout then refuse enoent else pure tt)
    (if upper_exists then perform (removal upper) else pure tt)
    update_whiteout visible should_whiteout

  unfoldable pub remove_file_and_update_whiteout : FilePath → F H (Unit {0})
  remove_file_and_update_whiteout = remove_and_update_whiteout remove_file

  unfoldable pub remove_dir_and_update_whiteout : FilePath → F H (Unit {0})
  remove_dir_and_update_whiteout = remove_and_update_whiteout remove_dir
