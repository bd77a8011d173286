-- ===== src/OverlayFs/OpenFiles.antt =====
-- Open files and the handlers that work on them alone, of crates/agent-overlayfs/src/main.rs.
use ipa_rs_agent_controller.Common.{ℕ, ◌+◌, ◌%◌, Bool, true, false, Option, none, some, List}
use ipa_rs_agent_controller.Common.{◌==◌, list_eq, nat_eq, ltb, if◌then◌else◌}
use ipa_rs_agent_controller.Common.Lists.{length}
use ipa_rs_agent_controller.Path.{FilePath, component_eq, ◌/◌}
use ipa_rs_agent_controller.Host.{
  Host, OpenOptions, seek, read_some, write_bytes, sync_file, set_len, set_permissions,
}
use ipa_rs_agent_controller.OverlayFs.Fallback.{root}
use ipa_rs_agent_controller.OverlayFs.Effect.{
  eio, F, Answer, answered, refused, pure, lift, ◌>>=◌, ◌>>◌, attempt, on_refusal, open_io, file_io,
  drop_file, file_of, remove_file_entry, path_for_ino,
}
use ipa_rs_agent_controller.OverlayFs.Requests.{
  Reply, ok_reply, bytes_reply, written, slice, ready_data,
}
use ipa_rs_agent_controller.OverlayFs.Storage.{ready_file, perform}

abbrev min : ℕ → ℕ → ℕ
min a b = if ltb a b then a else b

abbrev open_write_options : OpenOptions
open_write_options = record {
  read = false;
  write = true;
  append = false;
  truncate = false;
  create = false;
  mode = none;
}

-- The bytes of the virtual file, if the inode is its own.
is_ready_path : Option FilePath → Bool
is_ready_path none = false
is_ready_path (some path) = path == root / ready_file

fd_or_eio : Option ℕ → Answer ℕ
fd_or_eio none = refused eio
fd_or_eio (some fd) = answered fd

module _ {H : Host} where
  unfoldable pub set_size : FilePath → Option ℕ → F H (Unit {0})
  set_size upper none = pure tt
  set_size upper (some size) = do
    fd ← open_io open_write_options upper
    on_refusal (file_io (set_len size) fd) (drop_file fd)
    drop_file fd

  unfoldable pub set_mode : FilePath → Option ℕ → F H (Unit {0})
  set_mode upper none = pure tt
  set_mode upper (some mode) = perform (set_permissions upper (mode % 4096))

  unfoldable pub handle_file : ℕ → F H ℕ
  unfolding fd_or_eio
  handle_file fh = file_of fh >>= λ found. lift (fd_or_eio found)

  unfoldable pub read_file : ℕ → ℕ → ℕ → F H (List ℕ)
  unfolding handle_file
  read_file fh offset size = do
    fd ← handle_file fh
    file_io (seek offset) fd
    file_io (read_some size) fd

  unfoldable pub handle_write : ℕ → ℕ → List ℕ → F H Reply
  unfolding handle_file
  handle_write fh offset contents = do
    fd ← handle_file fh
    file_io (seek offset) fd
    file_io (write_bytes contents) fd
    pure (written (length contents % 4294967296))

  unfoldable pub handle_fsync : ℕ → F H Reply
  unfolding handle_file
  handle_fsync fh = do fd ← handle_file fh; file_io sync_file fd; pure ok_reply

  unfoldable pub handle_release : ℕ → F H Reply
  handle_release fh = do remove_file_entry fh; pure ok_reply

  unfoldable pub handle_read : ℕ → ℕ → ℕ → ℕ → F H Reply
  unfolding is_ready_path read_file
  handle_read ino fh offset size = do
    path ← attempt (path_for_ino ino)
    (if is_ready_path path
        then pure (bytes_reply (slice ready_data offset (min (length ready_data) (offset + size))))
        else (do contents ← read_file fh offset size; pure (bytes_reply contents)))
