-- ===== src/Tests/Inodes.antt =====
-- The theorems on inodes and on the pages of a directory, each at one table or list.
use ipa_rs_agent_controller.Common.{
  ℕ, ◌≡◌, refl, Bool, true, false, List, [], ◌∷◌, arith, list_eq, nat_eq, some, contains, option_eq,
}
use ipa_rs_agent_controller.Common.Lists.{length, All}
use ipa_rs_agent_controller.Common.Dict.{lookup}
use ipa_rs_agent_controller.Common.Text.{Text, text, is_empty, split_on, all_chars}
use ipa_rs_agent_controller.Path.{
  FilePath, root_dir, normal, component_eq, ◌/◌, path_starts_with, strip_path, is_absolute,
  file_name, parent,
}
use ipa_rs_agent_controller.Host.{FileType, directory, regular, filetype_eq}
use ipa_rs_agent_controller.Host.Effect as Act
use ipa_rs_agent_controller.Overlay.{whiteout_exists, whiteout_marker_path, marker_of}
use ipa_rs_agent_controller.Overlay.Paths.{storage_path, absolute_path_as_overlay_relative}
use ipa_rs_agent_controller.Reflink.{is_dir}
use ipa_rs_agent_controller.OverlayFs.Directory.{
  merged_dir_entries, fallback_entries_root, add_dir, add_entry, add_child, insert_entry,
  fuser_kind,
}
use ipa_rs_agent_controller.Common.{ok, inl}
use ipa_rs_agent_controller.Host.{done}
use ipa_rs_agent_controller.Host.Effect.{exists}
use ipa_rs_agent_controller.Overlay.Paths.{lower_path}
use ipa_rs_agent_controller.OverlayFs.Storage.{child}
use ipa_rs_agent_controller.OverlayFs.Directory.Listed.{is_listed, merged_dir_entries-lists}
use ipa_rs_agent_controller.OverlayFs.Directory.Hidden.{Shown, merged_dir_entries-shown}
use ipa_rs_agent_controller.Common.Sort.{text_le}
use ipa_rs_agent_controller.Tests.Disk.{disk, listed}
use ipa_rs_agent_controller.OverlayFs.Effect.{
  View, answered, try, fold_each, pure, refuse, lift, ◌>>=◌, ino_for_path, path_for_ino, file_of,
  asks, remove_file_entry, drop_found, unset_file, without,
}
use ipa_rs_agent_controller.OverlayFs.Fallback.{root, contains_visible, child_names}
use ipa_rs_agent_controller.OverlayFs.Inodes.{intern, add_new, add_path, path_of}
use ipa_rs_agent_controller.OverlayFs.Inodes.Inverse.{IsTable, Interned, intern-Interned}
use ipa_rs_agent_controller.OverlayFs.Inodes.Stable.{new_fs-IsTable, serve_all-stable}
use ipa_rs_agent_controller.OverlayFs.Requests.{Request, DirEntry, numbered}
use ipa_rs_agent_controller.OverlayFs.Requests.Pages.{pages, pages-numbered}
use ipa_rs_agent_controller.OverlayFs.Storage.{
  overlay_visible_path, child_path, lookup_path, ready_file,
}
use ipa_rs_agent_controller.OverlayFs.Looking.{looks_only, serve-looks}
use ipa_rs_agent_controller.OverlayFs.OpenFiles.{handle_file, handle_fsync, handle_release}
use ipa_rs_agent_controller.OverlayFs.Handlers.{handle, handle_lookup, handle_getattr, serve}
use ipa_rs_agent_controller.OverlayFs.Session.{new_fs, serve_all}
use ipa_rs_agent_controller.Tests.Views.{args, start, never_full}

abbrev path_a : FilePath
path_a = root_dir ∷ normal (text "a") ∷ []

intern-Interned_example : Interned path_a (intern (new_fs start).paths path_a)
unfolding new_fs intern add_new add_path lookup list_eq nat_eq component_eq
intern-Interned_example =
    intern-Interned (new_fs start).paths path_a (new_fs-IsTable start) (omega arith)

abbrev view : View
view = record {
  overlay = record { lower = args.lower; upper = args.upper; whiteouts = args.whiteouts };
  fallback_roots = [];
  visible_root = root;
  uid = 501;
  gid = 20;
}

-- The file that says that the view is mounted is looked up, and a handle that is not open is synced and closed.
abbrev requests : List Request
requests =
    Request.lookup 1 ready_file ∷ Request.getattr 2 ∷ Request.fsync 9 ∷ Request.release 9 ∷ []

two_paths : length (serve_all view never_full requests (new_fs start)).1.paths.by_path ≡ 2
unfolding new_fs intern add_new add_path lookup list_eq nat_eq component_eq serve_all serve handle
    handle_lookup handle_getattr handle_fsync handle_release handle_file child_path lookup_path pure
    refuse lift ◌>>=◌ ino_for_path path_for_ino file_of asks remove_file_entry drop_found unset_file
    without contains is_empty text ◌/◌ split_on
two_paths = refl

root_known : path_of (new_fs start).paths 1 ≡ some root
unfolding path_of new_fs intern add_new add_path lookup list_eq nat_eq component_eq
root_known = refl

serve_all-stable_example :
    IsTable (serve_all view never_full requests (new_fs start)).1.paths
    × (path_of (serve_all view never_full requests (new_fs start)).1.paths 1 ≡ some root)
serve_all-stable_example =
    serve_all-stable view never_full requests (new_fs start) 1 root (new_fs-IsTable start)
      (omega (arith, two_paths)) root_known

abbrev names : List (ℕ × FileType × Text)
names = (1, directory, text ".") ∷ (1, directory, text "..") ∷ (7, regular, text "a") ∷ []

-- A buffer with room for one entry.
abbrev one_entry : List DirEntry → DirEntry → Bool
one_entry [] e = false
one_entry (x ∷ got) e = true

pages-numbered_example : pages 3 one_entry (numbered 0 names) 0 ≡ numbered 0 names
pages-numbered_example = pages-numbered one_entry names 3 (λ e. refl) (omega arith)

abbrev root_entries : List (Text × FileType)
root_entries = (ready_file, regular) ∷ (text "a", regular) ∷ []

root_listed : (merged_dir_entries view root (new_fs start)).0 ≡ answered root_entries
unfolding merged_dir_entries fallback_entries_root contains_visible add_dir add_entry add_child
    child_names fold_each insert_entry fuser_kind whiteout_exists whiteout_marker_path marker_of
    overlay_visible_path list_eq nat_eq component_eq pure refuse lift ◌>>=◌ asks try text disk start
    new_fs ◌/◌ split_on path_starts_with strip_path is_dir Act.exists Act.read text_le storage_path
    absolute_path_as_overlay_relative is_absolute filetype_eq listed file_name all_chars is_empty
    option_eq parent Act.◌>>=◌
root_listed = refl

merged_dir_entries-shown_example :
    ((merged_dir_entries view root (new_fs start)).1.world ≡ (new_fs start).world)
    × All (Shown view (overlay_visible_path view root) (new_fs start).world) root_entries
merged_dir_entries-shown_example =
    merged_dir_entries-shown view root (new_fs start) root_entries root_listed

lower_found : lower_path view.overlay (overlay_visible_path view root) ≡ ok args.lower
unfolding overlay_visible_path storage_path absolute_path_as_overlay_relative is_absolute list_eq
    nat_eq component_eq strip_path text split_on ◌/◌
lower_found = refl

lower_exists : (exists {H = disk} args.lower (new_fs start).world).0 ≡ ok true
unfolding exists asks disk start new_fs list_eq nat_eq component_eq path_starts_with strip_path text
lower_exists = refl

lower_names : disk.read_dir (new_fs start).world.os args.lower ≡ done (text "a" ∷ [])
unfolding disk start new_fs list_eq nat_eq component_eq path_starts_with strip_path text listed
    file_name parent all_chars is_empty option_eq split_on
lower_names = refl

a_shown :
    (whiteout_exists view.overlay
      (child (overlay_visible_path view root) (text "a"))
      (new_fs start).world).0
    ≡ ok false
unfolding whiteout_exists whiteout_marker_path marker_of overlay_visible_path storage_path
    absolute_path_as_overlay_relative is_absolute disk start new_fs list_eq nat_eq component_eq
    path_starts_with strip_path text ◌/◌ split_on Act.◌>>=◌ Act.asks
a_shown = refl

merged_dir_entries-lists_example : is_listed (text "a") root_entries ≡ true
unfolding contains list_eq text nat_eq
merged_dir_entries-lists_example =
    merged_dir_entries-lists view root (new_fs start) root_entries args.lower (text "a" ∷ [])
      (text "a") (inl lower_found) lower_exists lower_names refl a_shown root_listed

serve-looks_example :
    (serve view never_full (Request.readdir 1 0) (new_fs start)).1.world.os
    ≡ (new_fs start).world.os
unfolding looks_only
serve-looks_example = serve-looks view never_full (Request.readdir 1 0) (new_fs start) refl
