-- ===== src/OverlayFs/Inodes/Storage.antt =====
-- The steps of the handlers of crates/agent-overlayfs/src/main.rs keep the inodes that were given out.
use ipa_rs_agent_controller.Common.{ℕ, Bool, Option, none, some, List}
use ipa_rs_agent_controller.Common.Text.{Text}
use ipa_rs_agent_controller.Path.{FilePath}
use ipa_rs_agent_controller.Host.{Host, FileType, Change}
use ipa_rs_agent_controller.Overlay.{OverlayLookup, found, whiteout, missing}
use ipa_rs_agent_controller.OverlayFs.Inodes.{InodeTable}
use ipa_rs_agent_controller.OverlayFs.Effect.{View, F}
use ipa_rs_agent_controller.OverlayFs.Keeps.{Keeps, Keeps-pure}
use ipa_rs_agent_controller.OverlayFs.Keeps.Table.{GrownFrom, table_rules, Grows-try}
use ipa_rs_agent_controller.OverlayFs.Storage.{
  child_path, file_attr, perform, make_parent, fill_missing, fallback_path, missing_attr,
  lookup_resolved, lookup_path, read_resolved, storage_path_for_read, fill_upper, make_upper,
  ensure_upper_for_write, special_or_upper, storage_path_for_open,
}
use ipa_rs_agent_controller.OverlayFs.Directory.{
  dir_only, fuser_kind, kind_or_directory, path_exists, fallback_entries_root, add_entry, add_dir,
  add_child, merged_dir_entries, should_whiteout_removed_path, update_whiteout,
  remove_and_update_whiteout, remove_file_and_update_whiteout, remove_dir_and_update_whiteout,
}

module _ {H : Host} (t : InodeTable) where
  abbrev Grows : {A : Type 0} → F H A → Type 0
  Grows m = Keeps H (GrownFrom t) m

  pub child_path-Grows : (ino : ℕ) (name : Text) → Grows (child_path ino name)
  unfolding child_path
  child_path-Grows ino name = search (table_rules)

  pub file_attr-Grows : (ino : ℕ) (p : FilePath) → Grows (file_attr ino p)
  unfolding file_attr
  file_attr-Grows ino p = search (table_rules)

  pub perform-Grows : (c : Change) → Grows (perform c)
  unfolding perform
  perform-Grows c = search (table_rules)

  pub make_parent-Grows : (o : Option FilePath) → Grows (make_parent o)
  unfolding make_parent
  make_parent-Grows none = Keeps-pure tt
  make_parent-Grows (some dir) = perform-Grows _

  fill_missing-Grows : (upper : FilePath) (o : Option FilePath) → Grows (fill_missing upper o)
  unfolding fill_missing
  fill_missing-Grows upper none = perform-Grows _
  fill_missing-Grows upper (some p) = Grows-try t _

  dir_only-Grows : (o : Option FilePath) → Grows (dir_only o)
  unfolding dir_only
  dir_only-Grows none = Keeps-pure none
  dir_only-Grows (some p) = search (table_rules)

  fuser_kind-Grows : (p : FilePath) → Grows (fuser_kind p)
  unfolding fuser_kind
  fuser_kind-Grows p = search (table_rules)

  kind_or_directory-Grows : (o : Option FilePath) → Grows (kind_or_directory o)
  unfolding kind_or_directory
  kind_or_directory-Grows none = search (table_rules)
  kind_or_directory-Grows (some p) = fuser_kind-Grows p

  path_exists-Grows : (p : FilePath) → Grows (path_exists p)
  unfolding path_exists
  path_exists-Grows p = search (table_rules)

  module _ (v : View) where
    fallback_path-Grows : (p : FilePath) → Grows (fallback_path v p)
    unfolding fallback_path
    fallback_path-Grows p = search (table_rules)

    missing_attr-Grows :
        (p : FilePath) (ino : ℕ) (o : Option FilePath) → Grows (missing_attr v p ino o)
    unfolding missing_attr
    missing_attr-Grows p ino none = search (table_rules)
    missing_attr-Grows p ino (some path) = search (table_rules, file_attr-Grows)

    lookup_resolved-Grows : (p q : FilePath) (l : OverlayLookup) → Grows (lookup_resolved v p q l)
    unfolding lookup_resolved
    lookup_resolved-Grows p q (found r) = search (table_rules, file_attr-Grows)
    lookup_resolved-Grows p q (whiteout m) = search (table_rules)
    lookup_resolved-Grows p q missing =
        search (table_rules, fallback_path-Grows, missing_attr-Grows)

    pub lookup_path-Grows : (p : FilePath) → Grows (lookup_path v p)
    unfolding lookup_path
    lookup_path-Grows p = search (table_rules, lookup_resolved-Grows) depth 20

    read_resolved-Grows : (p : FilePath) (l : OverlayLookup) → Grows (read_resolved v p l)
    unfolding read_resolved
    read_resolved-Grows p (found r) = search (table_rules)
    read_resolved-Grows p (whiteout m) = search (table_rules)
    read_resolved-Grows p missing = search (table_rules, fallback_path-Grows)

    pub storage_path_for_read-Grows : (p : FilePath) → Grows (storage_path_for_read v p)
    unfolding storage_path_for_read
    storage_path_for_read-Grows p = search (table_rules, read_resolved-Grows)

    fill_upper-Grows : (p q : FilePath) (l : OverlayLookup) → Grows (fill_upper v p q l)
    unfolding fill_upper
    fill_upper-Grows p q (found r) = search (table_rules)
    fill_upper-Grows p q (whiteout m) = perform-Grows _
    fill_upper-Grows p q missing = search (table_rules, fallback_path-Grows, fill_missing-Grows)

    make_upper-Grows : (p q : FilePath) → Grows (make_upper v p q)
    unfolding make_upper
    make_upper-Grows p q = search (table_rules, make_parent-Grows, fill_upper-Grows) depth 12

    pub ensure_upper_for_write-Grows : (p : FilePath) → Grows (ensure_upper_for_write v p)
    unfolding ensure_upper_for_write
    ensure_upper_for_write-Grows p = search (table_rules, make_upper-Grows) depth 12

    special_or_upper-Grows : (p : FilePath) (o : Option FilePath) → Grows (special_or_upper v p o)
    unfolding special_or_upper
    special_or_upper-Grows p none = ensure_upper_for_write-Grows p
    special_or_upper-Grows p (some path) =
        search (table_rules, ensure_upper_for_write-Grows) depth 12

    pub storage_path_for_open-Grows :
        (p : FilePath) (write : Bool) → Grows (storage_path_for_open v p write)
    unfolding storage_path_for_open
    storage_path_for_open-Grows p write =
        search
          (table_rules, storage_path_for_read-Grows, fallback_path-Grows, special_or_upper-Grows)
          depth 12

    fallback_entries_root-Grows : (p : FilePath) → Grows (fallback_entries_root v p)
    unfolding fallback_entries_root
    fallback_entries_root-Grows p =
        search (table_rules, fallback_path-Grows, dir_only-Grows) depth 12

    add_entry-Grows :
        (p dir : FilePath) (name : Text) (l : List (Text × FileType))
        → Grows (add_entry v p dir name l)
    unfolding add_entry
    add_entry-Grows p dir name l = search (table_rules, fuser_kind-Grows) depth 12

    add_dir-Grows : (p dir : FilePath) (l : List (Text × FileType)) → Grows (add_dir v p dir l)
    unfolding add_dir
    add_dir-Grows p dir l = search (table_rules, add_entry-Grows) depth 20

    add_child-Grows :
        (p : FilePath) (name : Text) (l : List (Text × FileType)) → Grows (add_child v p name l)
    unfolding add_child
    add_child-Grows p name l =
        search (table_rules, fallback_path-Grows, kind_or_directory-Grows) depth 20

    pub merged_dir_entries-Grows : (p : FilePath) → Grows (merged_dir_entries v p)
    unfolding merged_dir_entries
    merged_dir_entries-Grows p =
        search (table_rules, fallback_entries_root-Grows, add_dir-Grows, add_child-Grows) depth 20

    should_whiteout_removed_path-Grows : (p : FilePath) → Grows (should_whiteout_removed_path v p)
    unfolding should_whiteout_removed_path
    should_whiteout_removed_path-Grows p =
        search (table_rules, path_exists-Grows, fallback_path-Grows) depth 12

    update_whiteout-Grows : (p : FilePath) (b : Bool) → Grows (update_whiteout v p b)
    unfolding update_whiteout
    update_whiteout-Grows p Bool.true = search (table_rules)
    update_whiteout-Grows p Bool.false = search (table_rules)

    remove_and_update_whiteout-Grows :
        (removal : FilePath → Change) (p : FilePath)
        → Grows (remove_and_update_whiteout v removal p)
    unfolding remove_and_update_whiteout
    remove_and_update_whiteout-Grows removal p =
        search
          (
            table_rules, path_exists-Grows, should_whiteout_removed_path-Grows,
            update_whiteout-Grows, perform-Grows,
          )
          depth 20

    pub remove_file_and_update_whiteout-Grows :
        (p : FilePath) → Grows (remove_file_and_update_whiteout v p)
    unfolding remove_file_and_update_whiteout
    remove_file_and_update_whiteout-Grows p = remove_and_update_whiteout-Grows _ p

    pub remove_dir_and_update_whiteout-Grows :
        (p : FilePath) → Grows (remove_dir_and_update_whiteout v p)
    unfolding remove_dir_and_update_whiteout
    remove_dir_and_update_whiteout-Grows p = remove_and_update_whiteout-Grows _ p
