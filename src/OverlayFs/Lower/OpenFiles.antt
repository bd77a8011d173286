-- ===== src/OverlayFs/Lower/OpenFiles.antt =====
-- The calls of the steps on open files spare the directories that lie apart from the upper layer and from
-- the whiteouts.
use ipa_rs_agent_controller.OverlayFs.Looking.{handle_file-Looks}
use ipa_rs_agent_controller.Common.{ℕ, inl, inr, Option, none, some, List}
use ipa_rs_agent_controller.Path.{FilePath}
use ipa_rs_agent_controller.Host.{Host, FileCall, OpenOptions}
use ipa_rs_agent_controller.Host.Log.{Log}
use ipa_rs_agent_controller.Host.Spared.{
  Away, Spared, open_file-Spared, file_call-Spared, Quiet-set_permissions,
}
use ipa_rs_agent_controller.OverlayFs.Effect.{
  F, open_io, file_io, drop_file, insert_file, remove_file_entry,
}
use ipa_rs_agent_controller.OverlayFs.Keeps.{Keeps, Keeps-pure}
use ipa_rs_agent_controller.OverlayFs.Keeps.Os.{
  OnOs, Keeps-file_io, Keeps-drop_file, Keeps-insert_file, Keeps-remove_file_entry, fs_rules,
}
use ipa_rs_agent_controller.OverlayFs.OpenFiles.{
  set_size, set_mode, read_file, handle_read, handle_write, handle_fsync, handle_release,
}
use ipa_rs_agent_controller.OverlayFs.Lower.{perform-Safe}

module _ {H : Host} (log : Log H) (dir : FilePath) where
  abbrev Safe : {X : Type 0} → F H X → Type 0
  Safe m = Keeps H (OnOs (Spared log dir)) m

  call-Safe : (c : FileCall) (fd : ℕ) → Safe (file_io c fd)
  call-Safe c fd = Keeps-file_io (file_call-Spared log dir) c fd

  pub drop-Safe : (fd : ℕ) → Safe (drop_file fd)
  drop-Safe fd = Keeps-drop_file (file_call-Spared log dir) fd

  pub insert-Safe : (fh fd : ℕ) → Safe (insert_file fh fd)
  insert-Safe fh fd = Keeps-insert_file (file_call-Spared log dir) fh fd

  remove-Safe : (fh : ℕ) → Safe (remove_file_entry fh)
  remove-Safe fh = Keeps-remove_file_entry (file_call-Spared log dir) fh

  pub open-Away-Safe : (o : OpenOptions) (p : FilePath) → Away dir p → Safe (open_io o p)
  unfolding open_io
  open-Away-Safe o p a = record {
    at = λ s u. record { os = open_file-Spared log dir o p s.world.os (inr (inl a)) u.os };
  }

  pub set_size-Safe : (upper : FilePath) (o : Option ℕ) → Away dir upper → Safe (set_size upper o)
  unfolding set_size
  set_size-Safe upper none a = Keeps-pure tt
  set_size-Safe upper (some size) a =
      search (fs_rules, open-Away-Safe, call-Safe, drop-Safe) depth 12

  pub set_mode-Safe : (upper : FilePath) (o : Option ℕ) → Away dir upper → Safe (set_mode upper o)
  unfolding set_mode
  set_mode-Safe upper none a = Keeps-pure tt
  set_mode-Safe upper (some mode) a = perform-Safe log dir _ (Quiet-set_permissions dir upper _ a)

  read_file-Safe : (fh offset size : ℕ) → Safe (read_file fh offset size)
  unfolding read_file
  read_file-Safe fh offset size = search (fs_rules, handle_file-Looks, call-Safe)

  pub handle_read-Safe : (ino fh offset size : ℕ) → Safe (handle_read ino fh offset size)
  unfolding handle_read
  handle_read-Safe ino fh offset size = search (fs_rules, read_file-Safe) depth 12

  pub handle_write-Safe : (fh offset : ℕ) (l : List ℕ) → Safe (handle_write fh offset l)
  unfolding handle_write
  handle_write-Safe fh offset l = search (fs_rules, handle_file-Looks, call-Safe) depth 12

  pub handle_fsync-Safe : (fh : ℕ) → Safe (handle_fsync fh)
  unfolding handle_fsync
  handle_fsync-Safe fh = search (fs_rules, handle_file-Looks, call-Safe)

  pub handle_release-Safe : (fh : ℕ) → Safe (handle_release fh)
  unfolding handle_release
  handle_release-Safe fh = search (fs_rules, remove-Safe)
