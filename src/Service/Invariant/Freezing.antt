-- ===== src/Service/Invariant/Freezing.antt =====
-- Freezing a base and preparing the directory of the controller keep the stored metadata valid.
use ipa_rs_agent_controller.Common.{ℕ, ◌≡◌, refl, Bool, true, Option, none, some, list_eq, nat_eq}
use ipa_rs_agent_controller.Common.{Result, ok, err, panic}
use ipa_rs_agent_controller.Common.Text.{Text, text, all_chars}
use ipa_rs_agent_controller.Path.{FilePath, ◌/◌}
use ipa_rs_agent_controller.Model.{Base, RootfsBackend}
use ipa_rs_agent_controller.Host.{Host, Metadata, is_success, set_permissions}
use ipa_rs_agent_controller.Host.Effect.{M, perform}
use ipa_rs_agent_controller.Host.Keeps.{
  Keeps, Keeps-pure, Keeps-bail, Keeps-read, Keeps-exists, Keeps-bind, Keeps-lift, Keeps-if,
  keeps_rules,
}
use ipa_rs_agent_controller.Storage.Layout.{Layout}
use ipa_rs_agent_controller.Storage.Files.{write_json, write_text_file}
use ipa_rs_agent_controller.Storage.Files.Keeps.{Keeps-with_context}
use ipa_rs_agent_controller.Storage.Records.{ensure_agentfs, write_base, base_manifest}
use ipa_rs_agent_controller.Btrfs.{
  is_filesystem, is_subvolume, enable_quota, set_readonly, snapshot_writable,
}
use ipa_rs_agent_controller.Service.Logs.{
  Service, layout, remove_found, remove_path_if_exists, cleanup_failed_dir,
}
use ipa_rs_agent_controller.Service.Rootfs.{clean_runtime_path, clean_runtime_paths}
use ipa_rs_agent_controller.Service.Bases.{
  dpkg_manifest_text, write_dpkg_manifest, init, cleanup_failed_base_freeze, finish_base,
  base_freeze_btrfs, base_freeze_overlay, or_false, base_freeze, ensure_base,
}
use ipa_rs_agent_controller.Service.Invariant.{Trusted, StoredValid}
use ipa_rs_agent_controller.Service.Invariant.Files.{
  join-Other, Named-join, other_name, other_name-IsName, Quiet-remove_file, Quiet-remove_dir_all,
  Quiet-set_permissions,
}
use ipa_rs_agent_controller.Service.Invariant.Actions.{
  Keeps-perform, Keeps-run, Keeps-run_checked, Keeps-write_file, Keeps-write_text_file,
}
use ipa_rs_agent_controller.Service.Invariant.Machines.{
  delete_subvolume-Safe, remove_dir_all_if_exists-Safe,
}
use ipa_rs_agent_controller.Service.Invariant.Starting.{dir-Safe, read_base-Safe}

module _ {H : Host} (l : Layout) (trusted : Trusted H l) where
  abbrev Safe : {X : Type 0} → M H X → Type 0
  Safe m = Keeps {H = H} (StoredValid l) m

  -- A text file with another name.
  pub text_file-Safe :
      (d : FilePath) (n contents : Text)
      → other_name n ≡ true
      → Safe (write_text_file (d / n) contents)
  text_file-Safe d n contents h =
      Keeps-write_text_file l trusted (d / n) contents (join-Other l d n h)
        (Named-join d n (other_name-IsName n h))

  list-Safe :
      (d : FilePath) (contents : Text) → Safe (write_text_file (d / text "dpkg.list") contents)
  unfolding text all_chars list_eq nat_eq
  list-Safe d contents = text_file-Safe d (text "dpkg.list") contents refl

  -- Into a file that may be written.
  manifest_to-Safe :
      (rootfs target : FilePath)
      → ((contents : Text) → Safe (write_text_file target contents))
      → Safe (write_dpkg_manifest rootfs target)
  unfolding write_dpkg_manifest
  manifest_to-Safe rootfs target written = Keeps-bind _ _ (Keeps-exists _) λ present.
      Keeps-if present _ _
        (Keeps-bind _ _ (Keeps-read _) λ contents. written (dpkg_manifest_text contents))
        (Keeps-bind _ _ (Keeps-with_context _ _ (Keeps-run l trusted _ _))
          λ output. Keeps-if (is_success output.status) _ _ (written output.stdout) (Keeps-bail _))

  pub write_dpkg_manifest-Safe :
      (rootfs d : FilePath) → Safe (write_dpkg_manifest rootfs (d / text "dpkg.list"))
  write_dpkg_manifest-Safe rootfs d = manifest_to-Safe rootfs (d / text "dpkg.list") (list-Safe d)

  ensure_agentfs-Safe : (m : Layout) → Safe (ensure_agentfs m)
  unfolding ensure_agentfs
  ensure_agentfs-Safe m = search (keeps_rules, dir-Safe)

  is_filesystem-Safe : (p : FilePath) → Safe (is_filesystem p)
  unfolding is_filesystem
  is_filesystem-Safe p = search (keeps_rules, Keeps-run)

  is_subvolume-Safe : (p : FilePath) → Safe (is_subvolume p)
  unfolding is_subvolume
  is_subvolume-Safe p = search (keeps_rules, Keeps-run)

  enable_quota-Safe : (p : FilePath) → Safe (enable_quota p)
  unfolding enable_quota
  enable_quota-Safe p = search (keeps_rules, Keeps-run)

  set_readonly-Safe : (p : FilePath) (b : Bool) → Safe (set_readonly p b)
  unfolding set_readonly
  set_readonly-Safe p b = search (keeps_rules, Keeps-run_checked)

  pub snapshot_writable-Safe : (a b : FilePath) → Safe (snapshot_writable a b)
  unfolding snapshot_writable
  snapshot_writable-Safe a b = search (keeps_rules, Keeps-run_checked)

  pub cleanup_failed_dir-Safe : (d : FilePath) → Safe (cleanup_failed_dir d)
  unfolding cleanup_failed_dir
  cleanup_failed_dir-Safe d = search (keeps_rules, remove_dir_all_if_exists-Safe)

  remove_found-Safe : (p : FilePath) (o : Option Metadata) → Safe (remove_found p o)
  unfolding remove_found
  remove_found-Safe p none = Keeps-pure tt
  remove_found-Safe p (some m) =
      Keeps-if _ _ _ (Keeps-perform l trusted _ (Quiet-remove_dir_all l trusted p))
        (Keeps-perform l trusted _ (Quiet-remove_file l trusted p))

  remove_path_if_exists-Safe : (p : FilePath) → Safe (remove_path_if_exists p)
  unfolding remove_path_if_exists
  remove_path_if_exists-Safe p = search (keeps_rules, remove_found-Safe)

  set_permissions-Safe : (p : FilePath) (mode : ℕ) → Safe (perform (set_permissions p mode))
  set_permissions-Safe p mode = Keeps-perform l trusted _ (Quiet-set_permissions l trusted p mode)

  clean_runtime_path-Safe : (rootfs : FilePath) (rel : Text) → Safe (clean_runtime_path rootfs rel)
  unfolding clean_runtime_path
  clean_runtime_path-Safe rootfs rel =
      search (keeps_rules, remove_path_if_exists-Safe, dir-Safe, set_permissions-Safe) depth 20

  clean_runtime_paths-Safe : (rootfs : FilePath) → Safe (clean_runtime_paths rootfs)
  unfolding clean_runtime_paths
  clean_runtime_paths-Safe rootfs = search (keeps_rules, clean_runtime_path-Safe, dir-Safe) depth 12

  write_base-Safe : (base : Base) → Safe (write_base l base)
  unfolding write_base base_manifest write_json text all_chars list_eq nat_eq
  write_base-Safe base = Keeps-bind _ _ (Keeps-lift _) λ _.
      Keeps-write_file l trusted (text "json path") _ _ true
        (join-Other l _ (text "manifest.json") refl)
        (Named-join _ (text "manifest.json") (other_name-IsName _ refl))

module _ {H : Host} (s : Service) (trusted : Trusted H (layout s)) where
  abbrev Kept : {X : Type 0} → M H X → Type 0
  Kept m = Keeps {H = H} (StoredValid (layout s)) m

  cleanup_failed_base_freeze-Safe :
      (rootfs d : FilePath) → Kept (cleanup_failed_base_freeze s rootfs d)
  unfolding cleanup_failed_base_freeze
  cleanup_failed_base_freeze-Safe rootfs d =
      search (keeps_rules, set_readonly-Safe, delete_subvolume-Safe, cleanup_failed_dir-Safe) depth
        12

  -- Also for another directory than that of the service.
  pub init-Safe : (t : Service) → Kept (init t)
  unfolding init
  init-Safe t = search (keeps_rules, ensure_agentfs-Safe, is_filesystem-Safe, enable_quota-Safe)

  created_at-Safe :
      (d : FilePath) (contents : Text) → Kept (write_text_file (d / text "created_at") contents)
  unfolding text all_chars list_eq nat_eq
  created_at-Safe d contents = text_file-Safe (layout s) trusted d (text "created_at") contents refl

  finish_base-Safe :
      (name : Text) (from : FilePath) (backend : RootfsBackend) (rootfs : FilePath)
      (cleanup : M H (Unit {0}))
      → Kept cleanup
      → Kept (finish_base s name from backend rootfs cleanup)
  unfolding finish_base
  finish_base-Safe name from backend rootfs cleanup k =
      search (keeps_rules, write_dpkg_manifest-Safe, created_at-Safe, write_base-Safe) depth 20

  base_freeze_btrfs-Safe : (name : Text) (from : FilePath) → Kept (base_freeze_btrfs s name from)
  unfolding base_freeze_btrfs
  base_freeze_btrfs-Safe name from =
      search
        (
          keeps_rules, dir-Safe, snapshot_writable-Safe, cleanup_failed_dir-Safe,
          clean_runtime_paths-Safe, cleanup_failed_base_freeze-Safe, set_readonly-Safe,
          finish_base-Safe,
        )
        depth 30 fits 4000

  base_freeze_overlay-Safe :
      (name : Text) (from : FilePath) → Kept (base_freeze_overlay s name from)
  unfolding base_freeze_overlay
  base_freeze_overlay-Safe name from =
      search (keeps_rules, dir-Safe, cleanup_failed_dir-Safe, finish_base-Safe) depth 30 fits 4000

  or_false-Safe : (r : Result Bool) → Kept (or_false s r)
  unfolding or_false
  or_false-Safe (ok b) = Keeps-pure b
  or_false-Safe (err e) = Keeps-pure _
  or_false-Safe (panic e) = Keeps-lift _

  pub base_freeze-Safe : (name : Text) (from : FilePath) → Kept (base_freeze s name from)
  unfolding base_freeze
  base_freeze-Safe name from =
      search
        (
          keeps_rules, is_subvolume-Safe, or_false-Safe, base_freeze_btrfs-Safe,
          base_freeze_overlay-Safe,
        )
        depth 12

  pub ensure_base-Safe : (name : Text) (from : FilePath) → Kept (ensure_base s name from)
  unfolding ensure_base
  ensure_base-Safe name from = search (keeps_rules, read_base-Safe, base_freeze-Safe) depth 12
