-- ===== src/OverlayFs/Lower/Handlers.antt =====
-- The calls of every request on the view spare the directories that lie apart from the upper layer and from the
-- whiteouts.
use ipa_rs_agent_controller.OverlayFs.Looking.{
  child_path-Looks, file_attr-Looks, merged_dir_entries-Looks, handle_lookup-Looks,
  handle_getattr-Looks, handle_access-Looks, handle_readlink-Looks, handle_readdir-Looks,
}
use ipa_rs_agent_controller.Common.{
  ℕ, ◌%◌, ◌≡◌, refl, ◌⊎◌, inl, inr, Bool, true, false, Option, List, arith,
}
use ipa_rs_agent_controller.Common.Text.{Text}
use ipa_rs_agent_controller.Path.{FilePath, parent}
use ipa_rs_agent_controller.Host.{
  Host, done, other, OpenOptions, create_dir_all, set_permissions, make_symlink,
}
use ipa_rs_agent_controller.Host.Keeps as World
use ipa_rs_agent_controller.Host.Log.{Log, kind, reads_only}
use ipa_rs_agent_controller.Host.Spared.{
  Away, Spared, open_file-Spared, Quiet-create_dir_all, Quiet-set_permissions, Quiet-make_symlink,
}
use ipa_rs_agent_controller.Overlay
use ipa_rs_agent_controller.Overlay.Paths.{upper_path}
use ipa_rs_agent_controller.Overlay.Lower.{Apart, rename-Safe, remove_whiteout-Safe}
use ipa_rs_agent_controller.OverlayFs.Effect.{
  View, Fs, F, Answer, answered, refused, crashed, lift, or_eio, ◌>>=◌, ◌>>◌, try, pure, open_io,
  drop_file, insert_file, ino_for_path, fresh_fh, on_refusal,
}
use ipa_rs_agent_controller.OverlayFs.Keeps.{
  Keeps, Keeps-bind_lift, Keeps-bind_answer, Keeps-bind, Keeps-bind_assoc, Keeps-path_for_ino,
}
use ipa_rs_agent_controller.OverlayFs.Keeps.Os.{OnOs, Keeps-try, fs_rules}
use ipa_rs_agent_controller.OverlayFs.Attributes.{open_options, open_flags_write}
use ipa_rs_agent_controller.OverlayFs.Requests.{Request, DirEntry, Reply, created, entry}
use ipa_rs_agent_controller.OverlayFs.Storage.{
  overlay_visible_path, file_attr, storage_path_for_open, make_parent, perform,
}
use ipa_rs_agent_controller.OverlayFs.OpenFiles.{set_size, set_mode}
use ipa_rs_agent_controller.OverlayFs.Handlers.{
  handle_setattr, handle_mkdir, handle_unlink, handle_rmdir, handle_symlink, handle_rename,
  handle_open, created_file, handle_create, handle, serve,
}
use ipa_rs_agent_controller.OverlayFs.Lower.{
  perform-Safe, make_parent-Safe, ensure_upper_for_write-Safe, storage_path_for_open-Safe,
  upper_path-Away,
}
use ipa_rs_agent_controller.OverlayFs.Lower.Opening.{
  ensure_upper_for_write-Away, storage_path_for_open-Place, Place,
}
use ipa_rs_agent_controller.OverlayFs.Lower.Directory.{
  remove_file_and_update_whiteout-Safe, remove_dir_and_update_whiteout-Safe,
}
use ipa_rs_agent_controller.OverlayFs.Lower.OpenFiles.{
  open-Away-Safe, drop-Safe, insert-Safe, set_size-Safe, set_mode-Safe, handle_read-Safe,
  handle_write-Safe, handle_fsync-Safe, handle_release-Safe,
}

-- Without a flag that asks for writing, a file is opened to be read.
look_only :
    (flags : ℕ) → open_flags_write flags ≡ false → reads_only (open_options flags false) ≡ true
unfolding open_flags_write open_options
look_only flags w = ground arith

module _ {H : Host} (log : Log H) (dir : FilePath) where
  abbrev Safe : {X : Type 0} → F H X → Type 0
  Safe m = Keeps H (OnOs (Spared log dir)) m

  module _ (v : View) where
    module _ (apart : Apart v.overlay dir) where
      upper-Away : (p x : FilePath) → or_eio (upper_path v.overlay p) ≡ answered x → Away dir x
      upper-Away p x e = upper_path-Away v apart p x e

      whiteout-Safe : (p : FilePath) → Safe (try (Overlay.remove_whiteout v.overlay p))
      whiteout-Safe p = Keeps-try _ (remove_whiteout-Safe log dir v.overlay apart p)

      written_attr-Safe :
          (ino : ℕ) (upper : FilePath) (mode size : Option ℕ)
          → Away dir upper
          → Safe (
              set_size upper size
              >> (set_mode upper mode >> (file_attr ino upper >>= λ a. pure (Reply.attr a))))
      written_attr-Safe ino upper mode size a =
          search (fs_rules, set_size-Safe, set_mode-Safe, file_attr-Looks) depth 12

      handle_setattr-Safe : (ino : ℕ) (mode size : Option ℕ) → Safe (handle_setattr v ino mode size)
      unfolding handle_setattr
      handle_setattr-Safe ino mode size = Keeps-bind _ _ (Keeps-path_for_ino ino) λ p.
          Keeps-bind_answer _ _ (ensure_upper_for_write-Safe log dir v apart p) λ upper s e.
            written_attr-Safe ino upper mode size (ensure_upper_for_write-Away v apart p upper s e)

      entry-Safe :
          (p upper : FilePath)
          → Safe (
              try (Overlay.remove_whiteout v.overlay (overlay_visible_path v p))
              >> (ino_for_path p >>= λ ino. file_attr ino upper >>= λ a. pure (entry a)))
      entry-Safe p upper = search (fs_rules, whiteout-Safe, file_attr-Looks) depth 12

      made_dir-Safe :
          (p upper : FilePath) (mode : ℕ)
          → Away dir upper
          → Safe (
              perform (create_dir_all upper)
              >> (perform (set_permissions upper (mode % 4096))
                  >> (try (Overlay.remove_whiteout v.overlay (overlay_visible_path v p))
                      >> (ino_for_path p >>= λ ino. file_attr ino upper >>= λ a. pure (entry a)))))
      made_dir-Safe p upper mode a =
          Keeps-bind _ _ (perform-Safe log dir _ (Quiet-create_dir_all dir upper a)) λ _.
            Keeps-bind _ _ (perform-Safe log dir _ (Quiet-set_permissions dir upper _ a))
              λ _. entry-Safe p upper

      handle_mkdir-Safe : (ino : ℕ) (name : Text) (mode : ℕ) → Safe (handle_mkdir v ino name mode)
      unfolding handle_mkdir
      handle_mkdir-Safe ino name mode = Keeps-bind _ _ (child_path-Looks _ ino name) λ p.
          Keeps-bind_lift _ _ λ upper e.
            Keeps-bind _ _ (Keeps-try _ (World.Keeps-exists upper)) λ present.
              Keeps-bind _ _ (search (fs_rules))
                λ _. made_dir-Safe p upper mode (upper-Away (overlay_visible_path v p) upper e)

      handle_unlink-Safe : (ino : ℕ) (name : Text) → Safe (handle_unlink v ino name)
      unfolding handle_unlink
      handle_unlink-Safe ino name =
          search (fs_rules, child_path-Looks, remove_file_and_update_whiteout-Safe)

      handle_rmdir-Safe : (ino : ℕ) (name : Text) → Safe (handle_rmdir v ino name)
      unfolding handle_rmdir
      handle_rmdir-Safe ino name =
          search
            (
              fs_rules, child_path-Looks, merged_dir_entries-Looks,
              remove_dir_and_update_whiteout-Safe,
            )
            depth 12

      linked-Safe :
          (p upper : FilePath) (target : Text)
          → Away dir upper
          → Safe (
              make_parent (parent upper)
              >> (perform (make_symlink target upper)
                  >> (try (Overlay.remove_whiteout v.overlay (overlay_visible_path v p))
                      >> (ino_for_path p >>= λ ino. file_attr ino upper >>= λ a. pure (entry a)))))
      linked-Safe p upper target a = Keeps-bind _ _ (make_parent-Safe log dir upper a) λ _.
          Keeps-bind _ _ (perform-Safe log dir _ (Quiet-make_symlink dir target upper a))
            λ _. entry-Safe p upper

      handle_symlink-Safe : (ino : ℕ) (name target : Text) → Safe (handle_symlink v ino name target)
      unfolding handle_symlink
      handle_symlink-Safe ino name target = Keeps-bind _ _ (child_path-Looks _ ino name) λ p.
          Keeps-bind_lift _ _
            λ upper e. linked-Safe p upper target (upper-Away (overlay_visible_path v p) upper e)

      renamed-Safe : (from to : FilePath) → Safe (try (Overlay.rename v.overlay from to))
      renamed-Safe from to = Keeps-try _ (rename-Safe log dir v.overlay apart from to)

      handle_rename-Safe :
          (ino : ℕ) (name : Text) (new_ino : ℕ) (new_name : Text)
          → Safe (handle_rename v ino name new_ino new_name)
      unfolding handle_rename
      handle_rename-Safe ino name new_ino new_name =
          search (fs_rules, child_path-Looks, renamed-Safe) depth 12

      created_file-Safe : (p upper : FilePath) → Safe (created_file v p upper)
      unfolding created_file
      created_file-Safe p upper = search (fs_rules, whiteout-Safe, file_attr-Looks) depth 12

      made_file-Safe :
          (p upper : FilePath) (o : OpenOptions)
          → Away dir upper
          → Safe (
              make_parent (parent upper)
              >> (open_io o upper >>= λ fd.
                  on_refusal (created_file v p upper) (drop_file fd) >>= λ a.
                  fresh_fh >>= λ fh. insert_file fh fd >> pure (created a fh)))
      made_file-Safe p upper o a = Keeps-bind _ _ (make_parent-Safe log dir upper a) λ _.
          Keeps-bind _ _ (open-Away-Safe log dir o upper a)
            λ fd. search (fs_rules, created_file-Safe, drop-Safe, insert-Safe) depth 12

      handle_create-Safe :
          (ino : ℕ) (name : Text) (mode flags : ℕ) → Safe (handle_create v ino name mode flags)
      unfolding handle_create
      handle_create-Safe ino name mode flags = Keeps-bind _ _ (child_path-Looks _ ino name) λ p.
          Keeps-bind_lift _ _
            λ upper e. made_file-Safe p upper _ (upper-Away (overlay_visible_path v p) upper e)

      -- The place found for the file, in the state in which the file is opened.
      placed :
          (p x : FilePath) (flags : ℕ) (write : Bool) (s : Fs H)
          → open_flags_write flags ≡ write
          → (storage_path_for_open v p write s).0 ≡ answered x
          → (reads_only (open_options flags write) ≡ true)
            ⊎ Away dir x
            ⊎ (kind H (storage_path_for_open v p write s).1.world.os x ≡ done other)
      unfolding Place
      placed p x flags true s w e = inr (storage_path_for_open-Place v apart p x s e)
      placed p x flags false s w e = inl (look_only flags w)

      opened-Spared :
          (p x : FilePath) (flags : ℕ) (s : Fs H)
          → Spared log dir s.world.os
          → (storage_path_for_open v p (open_flags_write flags) s).0 ≡ answered x
          → Spared log dir
              (open_io
                (open_options flags (open_flags_write flags))
                x
                (storage_path_for_open v p (open_flags_write flags) s).1).1.world.os
      unfolding open_io
      opened-Spared p x flags s u e =
          open_file-Spared log dir (open_options flags (open_flags_write flags)) x
            (storage_path_for_open v p (open_flags_write flags) s).1.world.os
            (placed p x flags (open_flags_write flags) s refl e)
            (((storage_path_for_open-Safe log dir v apart p (open_flags_write flags)).at s
              (record { os = u })).os)

      opening :
          (p : FilePath) (flags : ℕ) (r : Answer FilePath) (s : Fs H)
          → Spared log dir s.world.os
          → (storage_path_for_open v p (open_flags_write flags) s).0 ≡ r
          → Spared log dir
              ((lift r >>= open_io (open_options flags (open_flags_write flags)))
                (storage_path_for_open v p (open_flags_write flags) s).1).1.world.os
      unfolding ◌>>=◌ lift
      opening p flags (answered x) s u e = opened-Spared p x flags s u e
      opening p flags (refused x) s u e =
          ((storage_path_for_open-Safe log dir v apart p (open_flags_write flags)).at s
            (record { os = u })).os
      opening p flags (crashed x) s u e =
          ((storage_path_for_open-Safe log dir v apart p (open_flags_write flags)).at s
            (record { os = u })).os

      find_and_open-Safe :
          (p : FilePath) (flags : ℕ)
          → Safe (
              storage_path_for_open v p (open_flags_write flags)
              >>= open_io (open_options flags (open_flags_write flags)))
      unfolding ◌>>=◌ lift
      find_and_open-Safe p flags = record {
        at = λ s u. record { os = opening p flags _ s u.os refl };
      }

      handle_open-Safe : (ino flags : ℕ) → Safe (handle_open v ino flags)
      unfolding handle_open
      handle_open-Safe ino flags = Keeps-bind _ _ (Keeps-path_for_ino ino) λ p.
          Keeps-bind_assoc _ _ _ (
            Keeps-bind _ _ (find_and_open-Safe p flags)
              λ fd. search (fs_rules, insert-Safe) depth 12)

      handle-Safe : (full : List DirEntry → DirEntry → Bool) (r : Request) → Safe (handle v full r)
      unfolding handle
      handle-Safe full Request.init = search (fs_rules)
      handle-Safe full (Request.lookup ino name) = handle_lookup-Looks _ v ino name
      handle-Safe full (Request.getattr ino) = handle_getattr-Looks _ v ino
      handle-Safe full (Request.setattr ino mode size) = handle_setattr-Safe ino mode size
      handle-Safe full (Request.readlink ino) = handle_readlink-Looks _ v ino
      handle-Safe full (Request.mkdir ino name mode) = handle_mkdir-Safe ino name mode
      handle-Safe full (Request.unlink ino name) = handle_unlink-Safe ino name
      handle-Safe full (Request.rmdir ino name) = handle_rmdir-Safe ino name
      handle-Safe full (Request.symlink ino name target) = handle_symlink-Safe ino name target
      handle-Safe full (Request.rename ino name new_ino new_name) =
          handle_rename-Safe ino name new_ino new_name
      handle-Safe full (Request.open_path ino flags) = handle_open-Safe ino flags
      handle-Safe full (Request.access ino) = handle_access-Looks _ v ino
      handle-Safe full Request.getxattr = search (fs_rules)
      handle-Safe full (Request.listxattr size) = search (fs_rules)
      handle-Safe full Request.setxattr = search (fs_rules)
      handle-Safe full Request.removexattr = search (fs_rules)
      handle-Safe full (Request.create ino name mode flags) = handle_create-Safe ino name mode flags
      handle-Safe full (Request.read ino fh offset size) =
          handle_read-Safe log dir ino fh offset size
      handle-Safe full (Request.write fh offset l) = handle_write-Safe log dir fh offset l
      handle-Safe full (Request.fsync fh) = handle_fsync-Safe log dir fh
      handle-Safe full (Request.release fh) = handle_release-Safe log dir fh
      handle-Safe full (Request.readdir ino offset) = handle_readdir-Looks _ v full ino offset

      -- Whatever is asked of the view, and whatever the system answers, errors included, the calls spare a
      -- directory that lies apart from the upper layer and from the whiteouts, such as the lower layer.
      pub serve-Spared :
          (full : List DirEntry → DirEntry → Bool) (r : Request) (s : Fs H)
          → Spared log dir s.world.os
          → Spared log dir (serve v full r s).1.world.os
      unfolding serve
      serve-Spared full r s u = ((handle-Safe full r).at s (record { os = u })).os
