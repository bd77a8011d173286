-- ===== src/OverlayFs/Looking.antt =====
-- The steps of the handlers of crates/agent-overlayfs/src/main.rs that only look keep every condition on the host.
use ipa_rs_agent_controller.Common.{
  ℕ, ◌≡◌, refl, Bool, true, false, not, Option, none, some, List, arith,
}
use ipa_rs_agent_controller.Common.Text.{Text}
use ipa_rs_agent_controller.Path.{FilePath}
use ipa_rs_agent_controller.Host.{Host, FileType}
use ipa_rs_agent_controller.Host.Effect as Act
use ipa_rs_agent_controller.Host.Keeps as World
use ipa_rs_agent_controller.Host.Keeps.{keeps_rules}
use ipa_rs_agent_controller.Overlay.{OverlayLookup, found, whiteout, missing}
use ipa_rs_agent_controller.Overlay.Reading.{resolve-Keeps, whiteout_exists-Keeps}
use ipa_rs_agent_controller.Reflink.{is_dir}
use ipa_rs_agent_controller.OverlayFs.Effect.{View, Fs, F, try}
use ipa_rs_agent_controller.OverlayFs.Keeps.{
  Keeps, Keeps-bind, Keeps-if, Keeps-asks, Keeps-fold_each,
}
use ipa_rs_agent_controller.OverlayFs.Keeps.Os.{OnOs, Keeps-try, fs_rules}
use ipa_rs_agent_controller.OverlayFs.Requests.{Request, DirEntry}
use ipa_rs_agent_controller.OverlayFs.Storage.{
  child_path, fallback_path, file_attr, missing_attr, lookup_resolved, lookup_path, read_resolved,
  storage_path_for_read,
}
use ipa_rs_agent_controller.OverlayFs.Directory.{
  dir_only, fuser_kind, kind_or_directory, path_exists, fallback_entries_root, add_entry, add_dir,
  add_child, merged_dir_entries, should_whiteout_removed_path,
}
use ipa_rs_agent_controller.OverlayFs.OpenFiles.{handle_file}
use ipa_rs_agent_controller.OverlayFs.Handlers.{
  parent_of, with_ino, handle_lookup, handle_getattr, handle_access, handle_readlink,
  directory_entries, handle_readdir, handle, serve,
}

unfoldable pub looks_only : Request → Bool
looks_only Request.init = true
looks_only (Request.lookup ino name) = true
looks_only (Request.getattr ino) = true
looks_only (Request.readlink ino) = true
looks_only (Request.access ino) = true
looks_only Request.getxattr = true
looks_only (Request.listxattr size) = true
looks_only Request.setxattr = true
looks_only Request.removexattr = true
looks_only (Request.readdir ino offset) = true
looks_only _ = false

module _ {H : Host} (P : H.State → Type 0) where
  abbrev Looks : {X : Type 0} → F H X → Type 0
  Looks m = Keeps H (OnOs P) m

  pub child_path-Looks : (ino : ℕ) (name : Text) → Looks (child_path ino name)
  unfolding child_path
  child_path-Looks ino name = search (fs_rules)

  pub file_attr-Looks : (ino : ℕ) (p : FilePath) → Looks (file_attr ino p)
  unfolding file_attr
  file_attr-Looks ino p = search (fs_rules)

  is_dir-Still : (p : FilePath) → World.Keeps {H = H} (λ w. P w.os) (is_dir p)
  unfolding is_dir
  is_dir-Still p = search (keeps_rules)

  dir_only-Looks : (o : Option FilePath) → Looks (dir_only o)
  unfolding dir_only
  dir_only-Looks none = search (fs_rules)
  dir_only-Looks (some path) = search (fs_rules, Keeps-try, is_dir-Still)

  fuser_kind-Looks : (p : FilePath) → Looks (fuser_kind p)
  unfolding fuser_kind
  fuser_kind-Looks p = search (fs_rules)

  kind_or_directory-Looks : (o : Option FilePath) → Looks (kind_or_directory o)
  unfolding kind_or_directory
  kind_or_directory-Looks none = search (fs_rules)
  kind_or_directory-Looks (some path) = fuser_kind-Looks path

  pub path_exists-Looks : (p : FilePath) → Looks (path_exists p)
  unfolding path_exists
  path_exists-Looks p = search (fs_rules)

  pub handle_file-Looks : (fh : ℕ) → Looks (handle_file fh)
  unfolding handle_file
  handle_file-Looks fh = search (fs_rules)

  parent_of-Looks : (o : Option FilePath) → Looks (parent_of o)
  unfolding parent_of
  parent_of-Looks none = search (fs_rules)
  parent_of-Looks (some d) = search (fs_rules)

  with_ino-Looks : (p : FilePath) (e : Text × FileType) → Looks (with_ino p e)
  unfolding with_ino
  with_ino-Looks p (name, k) = search (fs_rules)

  module _ (v : View) where
    pub fallback_path-Looks : (p : FilePath) → Looks (fallback_path v p)
    unfolding fallback_path
    fallback_path-Looks p = Keeps-asks _

    missing_attr-Looks :
        (p : FilePath) (ino : ℕ) (o : Option FilePath) → Looks (missing_attr v p ino o)
    unfolding missing_attr
    missing_attr-Looks p ino (some path) = search (fs_rules, file_attr-Looks)
    missing_attr-Looks p ino none = search (fs_rules)

    lookup_resolved-Looks : (m p : FilePath) (l : OverlayLookup) → Looks (lookup_resolved v m p l)
    unfolding lookup_resolved
    lookup_resolved-Looks m p (found r) = search (fs_rules, file_attr-Looks)
    lookup_resolved-Looks m p (whiteout marker) = search (fs_rules)
    lookup_resolved-Looks m p missing = search (fs_rules, fallback_path-Looks, missing_attr-Looks)

    pub lookup_path-Looks : (p : FilePath) → Looks (lookup_path v p)
    unfolding lookup_path
    lookup_path-Looks p =
        search (fs_rules, Keeps-try, resolve-Keeps, lookup_resolved-Looks) depth 20

    read_resolved-Looks : (p : FilePath) (l : OverlayLookup) → Looks (read_resolved v p l)
    unfolding read_resolved
    read_resolved-Looks p (found r) = search (fs_rules)
    read_resolved-Looks p (whiteout marker) = search (fs_rules)
    read_resolved-Looks p missing = search (fs_rules, fallback_path-Looks)

    pub storage_path_for_read-Looks : (p : FilePath) → Looks (storage_path_for_read v p)
    unfolding storage_path_for_read
    storage_path_for_read-Looks p =
        search (fs_rules, Keeps-try, resolve-Keeps, read_resolved-Looks) depth 20

    fallback_entries_root-Looks : (p : FilePath) → Looks (fallback_entries_root v p)
    unfolding fallback_entries_root
    fallback_entries_root-Looks p = search (fs_rules, fallback_path-Looks, dir_only-Looks)

    add_entry-Looks :
        (p d : FilePath) (n : Text) (l : List (Text × FileType)) → Looks (add_entry v p d n l)
    unfolding add_entry
    add_entry-Looks p d n l =
        search (fs_rules, Keeps-try, whiteout_exists-Keeps, fuser_kind-Looks) depth 12

    add_dir-Looks : (p d : FilePath) (l : List (Text × FileType)) → Looks (add_dir v p d l)
    unfolding add_dir
    add_dir-Looks p d l =
        Keeps-bind (try (Act.exists d)) _ (Keeps-try _ (World.Keeps-exists d)) λ present.
          Keeps-if (not present) _ _ (search (fs_rules)) (
            Keeps-bind (try (is_dir d)) _ (Keeps-try _ (is_dir-Still d)) λ is_directory.
              Keeps-if (not is_directory) _ _ (search (fs_rules)) (
                Keeps-bind (try (Act.read (λ s. H.read_dir s d))) _
                  (Keeps-try _ (World.Keeps-read _))
                  λ names.
                    Keeps-fold_each names l (add_entry v p d) (λ n c. add_entry-Looks p d n c)))

    add_child-Looks :
        (p : FilePath) (n : Text) (l : List (Text × FileType)) → Looks (add_child v p n l)
    unfolding add_child
    add_child-Looks p n l =
        search
          (fs_rules, Keeps-try, whiteout_exists-Keeps, fallback_path-Looks, kind_or_directory-Looks)
          depth 20

    pub merged_dir_entries-Looks : (p : FilePath) → Looks (merged_dir_entries v p)
    unfolding merged_dir_entries
    merged_dir_entries-Looks p =
        search (fs_rules, fallback_entries_root-Looks, add_dir-Looks, add_child-Looks) depth 20

    pub should_whiteout_removed_path-Looks :
        (p : FilePath) → Looks (should_whiteout_removed_path v p)
    unfolding should_whiteout_removed_path
    should_whiteout_removed_path-Looks p =
        search (fs_rules, path_exists-Looks, fallback_path-Looks) depth 12

    pub handle_lookup-Looks : (ino : ℕ) (name : Text) → Looks (handle_lookup v ino name)
    unfolding handle_lookup
    handle_lookup-Looks ino name = search (fs_rules, child_path-Looks, lookup_path-Looks)

    pub handle_getattr-Looks : (ino : ℕ) → Looks (handle_getattr v ino)
    unfolding handle_getattr
    handle_getattr-Looks ino = search (fs_rules, lookup_path-Looks)

    pub handle_access-Looks : (ino : ℕ) → Looks (handle_access v ino)
    unfolding handle_access
    handle_access-Looks ino = search (fs_rules, lookup_path-Looks)

    pub handle_readlink-Looks : (ino : ℕ) → Looks (handle_readlink v ino)
    unfolding handle_readlink
    handle_readlink-Looks ino =
        search (fs_rules, Keeps-try, World.Keeps-read, storage_path_for_read-Looks) depth 12

    directory_entries-Looks : (ino : ℕ) → Looks (directory_entries v ino)
    unfolding directory_entries
    directory_entries-Looks ino =
        search (fs_rules, parent_of-Looks, with_ino-Looks, merged_dir_entries-Looks) depth 20

    pub handle_readdir-Looks :
        (full : List DirEntry → DirEntry → Bool) (ino offset : ℕ)
        → Looks (handle_readdir v full ino offset)
    unfolding handle_readdir
    handle_readdir-Looks full ino offset = search (fs_rules, directory_entries-Looks)

    handle-Looks :
        (full : List DirEntry → DirEntry → Bool) (r : Request)
        → looks_only r ≡ true
        → Looks (handle v full r)
    unfolding handle looks_only
    handle-Looks full Request.init h = search (fs_rules)
    handle-Looks full (Request.lookup ino name) h = handle_lookup-Looks ino name
    handle-Looks full (Request.getattr ino) h = handle_getattr-Looks ino
    handle-Looks full (Request.readlink ino) h = handle_readlink-Looks ino
    handle-Looks full (Request.access ino) h = handle_access-Looks ino
    handle-Looks full Request.getxattr h = search (fs_rules)
    handle-Looks full (Request.listxattr size) h = search (fs_rules)
    handle-Looks full Request.setxattr h = search (fs_rules)
    handle-Looks full Request.removexattr h = search (fs_rules)
    handle-Looks full (Request.readdir ino offset) h = handle_readdir-Looks full ino offset
    handle-Looks full _ h = absurd (ground arith)

-- A request that only looks leaves the whole state of the host as it is, on every answer of the system, errors
-- included: looking up a name, the attributes, the target of a link, the rights, the extended attributes and
-- the entries of a directory. So do the requests that set and remove extended attributes, which are not kept.
pub serve-looks :
    {H : Host} (v : View) (full : List DirEntry → DirEntry → Bool) (r : Request) (s : Fs H)
    → looks_only r ≡ true
    → (serve v full r s).1.world.os ≡ s.world.os
unfolding serve
serve-looks v full r s h =
    ((handle-Looks (λ os. os ≡ s.world.os) v full r h).at s (record { os = refl })).os
