-- ===== src/OverlayFs/Storage.antt =====
-- Where a path of the mount is stored: the methods of `OverlayFs` of crates/agent-overlayfs/src/main.rs.
use ipa_rs_agent_controller.Common.{ℕ, Bool, not, ◌||◌, Option, none, some}
use ipa_rs_agent_controller.Common.{◌==◌, list_eq, nat_eq, contains, if◌then◌else◌}
use ipa_rs_agent_controller.Common.Text.{Text, text, is_empty}
use ipa_rs_agent_controller.Path.{FilePath, component_eq, join_path, ◌/◌, parent, strip_path}
use ipa_rs_agent_controller.Host.{Host, filetype_eq, create, create_dir_all, Change}
use ipa_rs_agent_controller.Host.Effect as Act
use ipa_rs_agent_controller.Overlay
use ipa_rs_agent_controller.Overlay.{OverlayLookup, found, whiteout, missing}
use ipa_rs_agent_controller.Overlay.Paths.{upper_path}
use ipa_rs_agent_controller.OverlayFs.Fallback.{
  root, is_virtual_dir, fallback, fallback_is_special_file,
}
use ipa_rs_agent_controller.OverlayFs.Inodes.{root_ino}
use ipa_rs_agent_controller.OverlayFs.Effect.{
  enoent, einval, View, F, Answer, answered, refused, io_or_eio, or_eio, pure, refuse, lift, ◌>>=◌,
  ◌>>◌, try, asks, ino_for_path, path_for_ino,
}
use ipa_rs_agent_controller.OverlayFs.Attributes.{
  FileAttr, attr_of, dir_attr, virtual_ready_attr, copy_up,
}

abbrev pub ready_file : Text
ready_file = text ".agent-overlayfs-ready"

unfoldable pub overlay_visible_path : View → FilePath → FilePath
overlay_visible_path v mount_path =
    if v.visible_root == root
    then mount_path
    else if mount_path == root
    then v.visible_root
    else elim (strip_path mount_path root) [
      | some relative ↦ join_path v.visible_root relative
      | none ↦ join_path v.visible_root mount_path
    ]

abbrev pub child : FilePath → Text → FilePath
child dir name = if dir == root then root / name else dir / name

or_enoent : Option FilePath → Answer FilePath
or_enoent none = refused enoent
or_enoent (some path) = answered path

module _ {H : Host} where
  unfoldable pub child_path : ℕ → Text → F H FilePath
  child_path parent_ino name =
      if contains name b'/' || is_empty name
      then refuse einval
      else (do dir ← path_for_ino parent_ino; pure (child dir name))

  unfoldable pub file_attr : ℕ → FilePath → F H FileAttr
  file_attr ino path = do
    m ← asks (λ s. H.symlink_metadata s path) >>= λ r. lift (io_or_eio r)
    pure (attr_of ino m)

  -- A call of the file system with `map_err(|_| Errno::EIO)?`
  unfoldable pub perform : Change → F H (Unit {0})
  perform c = try (Act.perform c)

  unfoldable pub make_parent : Option FilePath → F H (Unit {0})
  make_parent none = pure tt
  make_parent (some dir) = perform (create_dir_all dir)

  unfoldable pub fill_missing : FilePath → Option FilePath → F H (Unit {0})
  fill_missing upper (some path) = try (copy_up path upper)
  fill_missing upper none = perform (create upper)

module _ {H : Host} (v : View) where
  unfoldable pub fallback_path : FilePath → F H (Option FilePath)
  fallback_path visible = asks (λ s. fallback H v.fallback_roots s visible)

  unfoldable pub missing_attr : FilePath → ℕ → Option FilePath → F H (ℕ × FileAttr)
  missing_attr visible ino (some path) = do attr ← file_attr ino path; pure (ino, attr)
  missing_attr visible ino none =
      if is_virtual_dir v.fallback_roots visible
      then (do now ← asks H.utc_now; pure (ino, dir_attr now v.uid v.gid ino))
      else refuse enoent

  unfoldable pub lookup_resolved : FilePath → FilePath → OverlayLookup → F H (ℕ × FileAttr)
  unfolding missing_attr
  lookup_resolved mount_path visible (found r) = do
    ino ← ino_for_path mount_path
    attr ← file_attr ino r.storage_path
    pure (ino, attr)
  lookup_resolved mount_path visible (whiteout marker) = refuse enoent
  lookup_resolved mount_path visible missing = do
    ino ← ino_for_path mount_path
    path ← fallback_path visible
    missing_attr visible ino path

  unfoldable pub lookup_path : FilePath → F H (ℕ × FileAttr)
  unfolding lookup_resolved
  lookup_path mount_path =
      if mount_path == root
      then (do now ← asks H.utc_now; pure (root_ino, dir_attr now v.uid v.gid root_ino))
      else if mount_path == root / ready_file
      then (do
        ino ← ino_for_path mount_path
        now ← asks H.utc_now
        pure (ino, virtual_ready_attr now v.uid v.gid ino))
      else (do
        resolved ← try (Overlay.resolve v.overlay (overlay_visible_path v mount_path))
        lookup_resolved mount_path (overlay_visible_path v mount_path) resolved)

  unfoldable pub read_resolved : FilePath → OverlayLookup → F H FilePath
  unfolding or_enoent
  read_resolved visible (found r) = pure r.storage_path
  read_resolved visible (whiteout marker) = refuse enoent
  read_resolved visible missing = do path ← fallback_path visible; lift (or_enoent path)

  unfoldable pub storage_path_for_read : FilePath → F H FilePath
  unfolding read_resolved
  storage_path_for_read mount_path = do
    resolved ← try (Overlay.resolve v.overlay (overlay_visible_path v mount_path))
    read_resolved (overlay_visible_path v mount_path) resolved

  unfoldable pub fill_upper : FilePath → FilePath → OverlayLookup → F H (Unit {0})
  unfolding fill_missing
  fill_upper visible upper (found r) = try (copy_up r.storage_path upper)
  fill_upper visible upper (whiteout marker) = perform (create upper)
  fill_upper visible upper missing = do path ← fallback_path visible; fill_missing upper path

  unfoldable pub make_upper : FilePath → FilePath → F H FilePath
  unfolding fill_upper
  make_upper visible upper = do
    make_parent (parent upper)
    resolved ← try (Overlay.resolve v.overlay visible)
    fill_upper visible upper resolved
    try (Overlay.remove_whiteout v.overlay visible)
    pure upper

  unfoldable pub ensure_upper_for_write : FilePath → F H FilePath
  unfolding make_upper
  ensure_upper_for_write mount_path =
      let visible = overlay_visible_path v mount_path in
      do
        upper ← lift (or_eio (upper_path v.overlay visible))
        in_upper ← try (Act.exists upper)
        (if in_upper then pure upper else make_upper visible upper)

  unfoldable pub special_or_upper : FilePath → Option FilePath → F H FilePath
  special_or_upper mount_path none = ensure_upper_for_write mount_path
  special_or_upper mount_path (some path) = do
    special ← asks (λ s. fallback_is_special_file H s path) >>= λ r. lift (io_or_eio r)
    (if special then pure path else ensure_upper_for_write mount_path)

  unfoldable pub storage_path_for_open : FilePath → Bool → F H FilePath
  unfolding special_or_upper
  storage_path_for_open mount_path write =
      if not write then storage_path_for_read mount_path else (do
        path ← fallback_path (overlay_visible_path v mount_path)
        special_or_upper mount_path path)
