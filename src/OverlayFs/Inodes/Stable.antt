-- ===== src/OverlayFs/Inodes/Stable.antt =====
-- No request on the view changes the path of an inode that was given out: the handlers of
-- crates/agent-overlayfs/src/main.rs on the table of inodes.
use ipa_rs_agent_controller.Common.{ℕ, ◌<◌, ◌≡◌, Bool, Option, none, some, List, [], ◌∷◌}
use ipa_rs_agent_controller.Common.Lists.{length}
use ipa_rs_agent_controller.Common.Text.{Text}
use ipa_rs_agent_controller.Path.{FilePath}
use ipa_rs_agent_controller.Host.{Host, FileType}
use ipa_rs_agent_controller.OverlayFs.Inodes.{InodeTable, path_of, intern, add_new, add_path}
use ipa_rs_agent_controller.OverlayFs.Inodes.Inverse.{Grown, grown_refl, IsTable}
use ipa_rs_agent_controller.OverlayFs.Inodes.Storage.{
  child_path-Grows, file_attr-Grows, perform-Grows, make_parent-Grows, lookup_path-Grows,
  storage_path_for_read-Grows, storage_path_for_open-Grows, ensure_upper_for_write-Grows,
  merged_dir_entries-Grows, remove_file_and_update_whiteout-Grows,
  remove_dir_and_update_whiteout-Grows,
}
use ipa_rs_agent_controller.OverlayFs.Effect.{View, Fs, F}
use ipa_rs_agent_controller.OverlayFs.Keeps.{Keeps, Keeps-pure}
use ipa_rs_agent_controller.OverlayFs.Keeps.Table.{GrownFrom, table_rules}
use ipa_rs_agent_controller.OverlayFs.Requests.{Request, DirEntry}
use ipa_rs_agent_controller.OverlayFs.OpenFiles.{
  set_size, set_mode, handle_file, read_file, handle_read, handle_write, handle_fsync,
  handle_release,
}
use ipa_rs_agent_controller.OverlayFs.Handlers.{
  parent_of, with_ino, handle_lookup, handle_getattr, handle_access, handle_setattr,
  handle_readlink, handle_mkdir, handle_unlink, handle_rmdir, handle_symlink, handle_rename,
  handle_open, created_file, handle_create, directory_entries, handle_readdir, handle, serve,
}
use ipa_rs_agent_controller.OverlayFs.Session.{new_fs, serve_all}
use ipa_rs_agent_controller.Host.Effect.{World}
use ipa_rs_agent_controller.Common.{nat_eq, list_eq, arith}
use ipa_rs_agent_controller.Common.Dict.{lookup}
use ipa_rs_agent_controller.Path.{component_eq}

module _ {H : Host} (t : InodeTable) where
  abbrev Grows : {A : Type 0} → F H A → Type 0
  Grows m = Keeps H (GrownFrom t) m

  set_size-Grows : (upper : FilePath) (o : Option ℕ) → Grows (set_size upper o)
  unfolding set_size
  set_size-Grows upper none = Keeps-pure tt
  set_size-Grows upper (some size) = search (table_rules) depth 12

  set_mode-Grows : (upper : FilePath) (o : Option ℕ) → Grows (set_mode upper o)
  unfolding set_mode
  set_mode-Grows upper none = Keeps-pure tt
  set_mode-Grows upper (some mode) = perform-Grows t _

  handle_file-Grows : (fh : ℕ) → Grows (handle_file fh)
  unfolding handle_file
  handle_file-Grows fh = search (table_rules)

  read_file-Grows : (fh offset size : ℕ) → Grows (read_file fh offset size)
  unfolding read_file
  read_file-Grows fh offset size = search (table_rules, handle_file-Grows)

  handle_read-Grows : (ino fh offset size : ℕ) → Grows (handle_read ino fh offset size)
  unfolding handle_read
  handle_read-Grows ino fh offset size = search (table_rules, read_file-Grows) depth 12

  handle_write-Grows : (fh offset : ℕ) (l : List ℕ) → Grows (handle_write fh offset l)
  unfolding handle_write
  handle_write-Grows fh offset l = search (table_rules, handle_file-Grows) depth 12

  handle_fsync-Grows : (fh : ℕ) → Grows (handle_fsync fh)
  unfolding handle_fsync
  handle_fsync-Grows fh = search (table_rules, handle_file-Grows)

  handle_release-Grows : (fh : ℕ) → Grows (handle_release fh)
  unfolding handle_release
  handle_release-Grows fh = search (table_rules)

  parent_of-Grows : (o : Option FilePath) → Grows (parent_of o)
  unfolding parent_of
  parent_of-Grows none = search (table_rules)
  parent_of-Grows (some d) = search (table_rules)

  with_ino-Grows : (p : FilePath) (e : Text × FileType) → Grows (with_ino p e)
  unfolding with_ino
  with_ino-Grows p (name, k) = search (table_rules)

  module _ (v : View) where
    handle_lookup-Grows : (ino : ℕ) (name : Text) → Grows (handle_lookup v ino name)
    unfolding handle_lookup
    handle_lookup-Grows ino name =
        search (table_rules, child_path-Grows, lookup_path-Grows) depth 20

    handle_getattr-Grows : (ino : ℕ) → Grows (handle_getattr v ino)
    unfolding handle_getattr
    handle_getattr-Grows ino = search (table_rules, lookup_path-Grows) depth 20

    handle_access-Grows : (ino : ℕ) → Grows (handle_access v ino)
    unfolding handle_access
    handle_access-Grows ino = search (table_rules, lookup_path-Grows) depth 20

    handle_setattr-Grows : (ino : ℕ) (mode size : Option ℕ) → Grows (handle_setattr v ino mode size)
    unfolding handle_setattr
    handle_setattr-Grows ino mode size =
        search
          (
            table_rules, ensure_upper_for_write-Grows, set_size-Grows, set_mode-Grows,
            file_attr-Grows,
          )
          depth 20

    handle_readlink-Grows : (ino : ℕ) → Grows (handle_readlink v ino)
    unfolding handle_readlink
    handle_readlink-Grows ino = search (table_rules, storage_path_for_read-Grows) depth 20

    handle_mkdir-Grows : (ino : ℕ) (name : Text) (mode : ℕ) → Grows (handle_mkdir v ino name mode)
    unfolding handle_mkdir
    handle_mkdir-Grows ino name mode =
        search (table_rules, child_path-Grows, perform-Grows, file_attr-Grows) depth 20

    handle_unlink-Grows : (ino : ℕ) (name : Text) → Grows (handle_unlink v ino name)
    unfolding handle_unlink
    handle_unlink-Grows ino name =
        search (table_rules, child_path-Grows, remove_file_and_update_whiteout-Grows) depth 20

    handle_rmdir-Grows : (ino : ℕ) (name : Text) → Grows (handle_rmdir v ino name)
    unfolding handle_rmdir
    handle_rmdir-Grows ino name =
        search
          (
            table_rules, child_path-Grows, merged_dir_entries-Grows,
            remove_dir_and_update_whiteout-Grows,
          )
          depth 20

    handle_symlink-Grows : (ino : ℕ) (name target : Text) → Grows (handle_symlink v ino name target)
    unfolding handle_symlink
    handle_symlink-Grows ino name target =
        search (table_rules, child_path-Grows, make_parent-Grows, perform-Grows, file_attr-Grows)
          depth 20

    handle_rename-Grows :
        (ino : ℕ) (name : Text) (new_ino : ℕ) (new_name : Text)
        → Grows (handle_rename v ino name new_ino new_name)
    unfolding handle_rename
    handle_rename-Grows ino name new_ino new_name = search (table_rules, child_path-Grows) depth 20

    handle_open-Grows : (ino flags : ℕ) → Grows (handle_open v ino flags)
    unfolding handle_open
    handle_open-Grows ino flags = search (table_rules, storage_path_for_open-Grows) depth 20

    created_file-Grows : (p upper : FilePath) → Grows (created_file v p upper)
    unfolding created_file
    created_file-Grows p upper = search (table_rules, file_attr-Grows) depth 20

    handle_create-Grows :
        (ino : ℕ) (name : Text) (mode flags : ℕ) → Grows (handle_create v ino name mode flags)
    unfolding handle_create
    handle_create-Grows ino name mode flags =
        search (table_rules, child_path-Grows, make_parent-Grows, created_file-Grows) depth 20

    directory_entries-Grows : (ino : ℕ) → Grows (directory_entries v ino)
    unfolding directory_entries
    directory_entries-Grows ino =
        search (table_rules, parent_of-Grows, with_ino-Grows, merged_dir_entries-Grows) depth 20

    handle_readdir-Grows :
        (full : List DirEntry → DirEntry → Bool) (ino offset : ℕ)
        → Grows (handle_readdir v full ino offset)
    unfolding handle_readdir
    handle_readdir-Grows full ino offset = search (table_rules, directory_entries-Grows)

    handle-Grows : (full : List DirEntry → DirEntry → Bool) (r : Request) → Grows (handle v full r)
    unfolding handle
    handle-Grows full Request.init = search (table_rules)
    handle-Grows full (Request.lookup ino name) = handle_lookup-Grows ino name
    handle-Grows full (Request.getattr ino) = handle_getattr-Grows ino
    handle-Grows full (Request.setattr ino mode size) = handle_setattr-Grows ino mode size
    handle-Grows full (Request.readlink ino) = handle_readlink-Grows ino
    handle-Grows full (Request.mkdir ino name mode) = handle_mkdir-Grows ino name mode
    handle-Grows full (Request.unlink ino name) = handle_unlink-Grows ino name
    handle-Grows full (Request.rmdir ino name) = handle_rmdir-Grows ino name
    handle-Grows full (Request.symlink ino name target) = handle_symlink-Grows ino name target
    handle-Grows full (Request.rename ino name new_ino new_name) =
        handle_rename-Grows ino name new_ino new_name
    handle-Grows full (Request.open_path ino flags) = handle_open-Grows ino flags
    handle-Grows full (Request.access ino) = handle_access-Grows ino
    handle-Grows full Request.getxattr = search (table_rules)
    handle-Grows full (Request.listxattr size) = search (table_rules)
    handle-Grows full Request.setxattr = search (table_rules)
    handle-Grows full Request.removexattr = search (table_rules)
    handle-Grows full (Request.create ino name mode flags) = handle_create-Grows ino name mode flags
    handle-Grows full (Request.read ino fh offset size) = handle_read-Grows ino fh offset size
    handle-Grows full (Request.write fh offset l) = handle_write-Grows fh offset l
    handle-Grows full (Request.fsync fh) = handle_fsync-Grows fh
    handle-Grows full (Request.release fh) = handle_release-Grows fh
    handle-Grows full (Request.readdir ino offset) = handle_readdir-Grows full ino offset

  pub serve-Grown :
      (v : View) (full : List DirEntry → DirEntry → Bool) (r : Request) (s : Fs H)
      → Grown t s.paths
      → Grown t (serve v full r s).1.paths
  unfolding serve
  serve-Grown v full r s g = ((handle-Grows v full r).at s (record { grown = g })).grown

  serve_all-Grown :
      (v : View) (full : List DirEntry → DirEntry → Bool) (requests : List Request) (s : Fs H)
      → Grown t s.paths
      → Grown t (serve_all v full requests s).1.paths
  unfolding serve_all
  serve_all-Grown v full [] s g = g
  serve_all-Grown v full (r ∷ requests) s g =
      serve_all-Grown v full requests (serve v full r s).1 (serve-Grown v full r s g)

-- The table with which a session begins.
pub new_fs-IsTable : {H : Host} (w : World H) → IsTable (new_fs w).paths
unfolding new_fs intern add_new add_path lookup nat_eq list_eq component_eq
new_fs-IsTable w = record {
  to_path = λ p i e. ground arith;
  to_ino = λ i p e. ground arith;
  below = λ i p e. ground arith;
  rooted = ground arith;
  counted = omega arith;
}

-- From a state whose table of inodes is valid, requests of any kind in any order, whether they succeed or fail,
-- lead to a state whose table is valid again and in which an inode that led to a path leads to the same path, if
-- fewer than 2 ^ 64 - 2 paths have got an inode by then.
pub serve_all-stable :
    {H : Host} (v : View) (full : List DirEntry → DirEntry → Bool) (requests : List Request)
    (s : Fs H) (ino : ℕ) (p : FilePath)
    → IsTable s.paths
    → length (serve_all v full requests s).1.paths.by_path < 18446744073709551614
    → path_of s.paths ino ≡ some p
    → IsTable (serve_all v full requests s).1.paths
      × (path_of (serve_all v full requests s).1.paths ino ≡ some p)
serve_all-stable v full requests s ino p valid few known =
    let (valid_again, kept) =
      (serve_all-Grown s.paths v full requests s (grown_refl s.paths)).stable valid few in
    (valid_again, kept ino p known)
