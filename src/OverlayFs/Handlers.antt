-- ===== src/OverlayFs/Handlers.antt =====
-- The handlers of crates/agent-overlayfs/src/main.rs: one for each request of FUSE, with its reply. The
-- traces of `debug_request` are left out.
use ipa_rs_agent_controller.Common.{ℕ, ◌%◌, Bool, Option, none, some, List, [], ◌∷◌}
use ipa_rs_agent_controller.Common.{list_eq, nat_eq, eqb, if◌then◌else◌}
use ipa_rs_agent_controller.Common.Text.{Text, text, bytes, is_empty}
use ipa_rs_agent_controller.Path.{FilePath, component_eq, parent}
use ipa_rs_agent_controller.Host.{
  Host, FileType, directory, create_dir_all, set_permissions, make_symlink,
}
use ipa_rs_agent_controller.Host.Effect as Act
use ipa_rs_agent_controller.Overlay
use ipa_rs_agent_controller.Overlay.Paths.{upper_path}
use ipa_rs_agent_controller.OverlayFs.Inodes.{root_ino}
use ipa_rs_agent_controller.OverlayFs.Effect.{
  eexist, enotempty, no_xattr, View, Fs, F, Answer, answered, refused, crashed, or_eio, pure,
  refuse, lift, ◌>>=◌, ◌>>◌, try, attempt, on_refusal, map_each, open_io, drop_file, insert_file,
  fresh_fh, ino_for_path, path_for_ino,
}
use ipa_rs_agent_controller.OverlayFs.Attributes.{
  FileAttr, open_flags_write, open_options, create_options,
}
use ipa_rs_agent_controller.OverlayFs.Requests.{
  Request, DirEntry, Reply, no_reply, ok_reply, entry, attr, bytes_reply, opened, created,
  xattr_size, directory_reply, error, crash, drop, fill, numbered,
}
use ipa_rs_agent_controller.OverlayFs.Storage.{
  child, overlay_visible_path, child_path, file_attr, lookup_path, storage_path_for_read,
  storage_path_for_open, ensure_upper_for_write, make_parent, perform,
}
use ipa_rs_agent_controller.OverlayFs.Directory.{
  merged_dir_entries, remove_file_and_update_whiteout, remove_dir_and_update_whiteout,
}
use ipa_rs_agent_controller.OverlayFs.OpenFiles.{
  set_size, set_mode, handle_read, handle_write, handle_fsync, handle_release,
}

or_root : Option ℕ → ℕ
or_root none = root_ino
or_root (some ino) = ino

reply_of : Answer Reply → Reply
reply_of (answered reply) = reply
reply_of (refused e) = error e
reply_of (crashed e) = crash e

module _ {H : Host} where
  unfoldable pub parent_of : Option FilePath → F H ℕ
  parent_of none = pure root_ino
  parent_of (some dir) = ino_for_path dir

  unfoldable pub with_ino : FilePath → Text × FileType → F H (ℕ × FileType × Text)
  with_ino dir (name, kind) = do ino ← ino_for_path (child dir name); pure (ino, kind, name)

module _ {H : Host} (v : View) where
  unfoldable pub handle_lookup : ℕ → Text → F H Reply
  handle_lookup parent_ino name = do
    path ← child_path parent_ino name
    (ino, a) ← lookup_path v path
    pure (entry a)

  unfoldable pub handle_getattr : ℕ → F H Reply
  handle_getattr ino = do path ← path_for_ino ino; (i, a) ← lookup_path v path; pure (attr a)

  unfoldable pub handle_access : ℕ → F H Reply
  handle_access ino = do path ← path_for_ino ino; lookup_path v path; pure ok_reply

  unfoldable pub handle_setattr : ℕ → Option ℕ → Option ℕ → F H Reply
  unfolding set_size set_mode
  handle_setattr ino mode size = do
    path ← path_for_ino ino
    upper ← ensure_upper_for_write v path
    set_size upper size
    set_mode upper mode
    a ← file_attr ino upper
    pure (attr a)

  unfoldable pub handle_readlink : ℕ → F H Reply
  handle_readlink ino = do
    path ← path_for_ino ino
    storage ← storage_path_for_read v path
    target ← try (Act.read (λ s. H.read_link s storage))
    pure (bytes_reply (bytes target))

  unfoldable pub handle_mkdir : ℕ → Text → ℕ → F H Reply
  handle_mkdir parent_ino name mode = do
    path ← child_path parent_ino name
    upper ← lift (or_eio (upper_path v.overlay (overlay_visible_path v path)))
    present ← try (Act.exists upper)
    (if present then refuse eexist else pure tt)
    perform (create_dir_all upper)
    perform (set_permissions upper (mode % 4096))
    try (Overlay.remove_whiteout v.overlay (overlay_visible_path v path))
    ino ← ino_for_path path
    a ← file_attr ino upper
    pure (entry a)

  unfoldable pub handle_unlink : ℕ → Text → F H Reply
  handle_unlink parent_ino name = do
    path ← child_path parent_ino name
    remove_file_and_update_whiteout v (overlay_visible_path v path)
    pure ok_reply

  unfoldable pub handle_rmdir : ℕ → Text → F H Reply
  handle_rmdir parent_ino name = do
    path ← child_path parent_ino name
    entries ← merged_dir_entries v path
    (if is_empty entries then pure tt else refuse enotempty)
    remove_dir_and_update_whiteout v (overlay_visible_path v path)
    pure ok_reply

  unfoldable pub handle_symlink : ℕ → Text → Text → F H Reply
  handle_symlink parent_ino name target = do
    path ← child_path parent_ino name
    upper ← lift (or_eio (upper_path v.overlay (overlay_visible_path v path)))
    make_parent (parent upper)
    perform (make_symlink target upper)
    try (Overlay.remove_whiteout v.overlay (overlay_visible_path v path))
    ino ← ino_for_path path
    a ← file_attr ino upper
    pure (entry a)

  unfoldable pub handle_rename : ℕ → Text → ℕ → Text → F H Reply
  handle_rename parent_ino name new_parent new_name = do
    from ← child_path parent_ino name
    to ← child_path new_parent new_name
    try (Overlay.rename v.overlay (overlay_visible_path v from) (overlay_visible_path v to))
    pure ok_reply

  unfoldable pub handle_open : ℕ → ℕ → F H Reply
  handle_open ino flags = do
    path ← path_for_ino ino
    storage ← storage_path_for_open v path (open_flags_write flags)
    fd ← open_io (open_options flags (open_flags_write flags)) storage
    fh ← fresh_fh
    insert_file fh fd
    pure (opened fh)

  -- The steps of `create` behind the opening of the file.
  unfoldable pub created_file : FilePath → FilePath → F H FileAttr
  created_file path upper = do
    try (Overlay.remove_whiteout v.overlay (overlay_visible_path v path))
    ino ← ino_for_path path
    file_attr ino upper

  unfoldable pub handle_create : ℕ → Text → ℕ → ℕ → F H Reply
  unfolding created_file
  handle_create parent_ino name mode flags = do
    path ← child_path parent_ino name
    upper ← lift (or_eio (upper_path v.overlay (overlay_visible_path v path)))
    make_parent (parent upper)
    fd ← open_io (create_options mode flags) upper
    a ← on_refusal (created_file path upper) (drop_file fd)
    fh ← fresh_fh
    insert_file fh fd
    pure (created a fh)

  -- All entries of a directory, with `.` and `..`.
  unfoldable pub directory_entries : ℕ → F H (List (ℕ × FileType × Text))
  unfolding or_root parent_of with_ino
  directory_entries ino = do
    path ← path_for_ino ino
    above ← attempt (parent_of (parent path))
    found ← merged_dir_entries v path
    entries ← map_each found (with_ino path)
    pure ((ino, directory, text ".") ∷ (or_root above, directory, text "..") ∷ entries)

  unfoldable pub handle_readdir : (List DirEntry → DirEntry → Bool) → ℕ → ℕ → F H Reply
  handle_readdir full ino offset = do
    entries ← directory_entries ino
    pure (directory_reply (fill full [] (drop (numbered 0 entries) offset)))

  -- The handler of each request; a request can be refused with an error number.
  unfoldable pub handle : (List DirEntry → DirEntry → Bool) → Request → F H Reply
  handle full Request.init = pure no_reply
  handle full (Request.lookup parent_ino name) = handle_lookup parent_ino name
  handle full (Request.getattr ino) = handle_getattr ino
  handle full (Request.setattr ino mode size) = handle_setattr ino mode size
  handle full (Request.readlink ino) = handle_readlink ino
  handle full (Request.mkdir parent_ino name mode) = handle_mkdir parent_ino name mode
  handle full (Request.unlink parent_ino name) = handle_unlink parent_ino name
  handle full (Request.rmdir parent_ino name) = handle_rmdir parent_ino name
  handle full (Request.symlink parent_ino name target) = handle_symlink parent_ino name target
  handle full (Request.rename parent_ino name new_parent new_name) =
      handle_rename parent_ino name new_parent new_name
  handle full (Request.open_path ino flags) = handle_open ino flags
  handle full (Request.access ino) = handle_access ino
  handle full Request.getxattr = refuse no_xattr
  handle full (Request.listxattr size) = pure (if eqb size 0 then xattr_size 0 else bytes_reply [])
  handle full Request.setxattr = pure ok_reply
  handle full Request.removexattr = pure ok_reply
  handle full (Request.create parent_ino name mode flags) = handle_create parent_ino name mode flags
  handle full (Request.read ino fh offset size) = handle_read ino fh offset size
  handle full (Request.write fh offset contents) = handle_write fh offset contents
  handle full (Request.fsync fh) = handle_fsync fh
  handle full (Request.release fh) = handle_release fh
  handle full (Request.readdir ino offset) = handle_readdir full ino offset

  -- What the caller of the file system gets.
  unfoldable pub serve : (List DirEntry → DirEntry → Bool) → Request → Fs H → Reply × Fs H
  unfolding reply_of
  serve full request s = let (r, s') = handle full request s in (reply_of r, s')
