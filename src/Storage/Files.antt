-- ===== src/Storage/Files.antt =====
-- Writing a file by a temporary file and a rename, and reading JSON: crates/agent-core/src/storage.rs.
pub mod Temporary
pub mod Frame
pub mod Keeps
pub mod Laws
use ipa_rs_agent_controller.Common.{
  ℕ, ◌+◌, ◌%◌, Bool, true, false, Option, none, some, List, [], ◌∷◌, ◌++◌,
}
use ipa_rs_agent_controller.Common.{Result, ok, err, panic, context, ok_or, if◌then◌else◌}
use ipa_rs_agent_controller.Common.Text.{Text, text, show}
use ipa_rs_agent_controller.Path.{FilePath, parent, file_name, with_file_name, display}
use ipa_rs_agent_controller.Host.{
  Host, create_dir_all, create, write_all, sync_all, open_dir, rename, remove_file, Codec,
  io_result,
}
use ipa_rs_agent_controller.Host.Effect.{
  World, M, pure, bail, lift, ◌>>=◌, ◌>>◌, on_error, ignore, asks, perform, read,
}

or_metadata : Option Text → Text
or_metadata none = text "metadata.json"
or_metadata (some name) = name

unfoldable pub tmp_name : ℕ → FilePath → ℕ → FilePath
unfolding or_metadata
tmp_name process_id path counter = with_file_name path (
    text "."
    ++ (or_metadata (file_name path)
        ++ (text "." ++ (show process_id ++ (text "." ++ (show counter ++ text ".tmp"))))))

module _ {H : Host} where
  -- `.with_context(|| c)` on an action
  unfoldable pub with_context : {A : Type 0} → Text → M H A → M H A
  with_context c m w = let (r, w') = m w in (context c r, w')

  unfoldable pub unique_tmp_path : FilePath → M H FilePath
  unfolding tmp_name
  unique_tmp_path path w = (
    ok (tmp_name H.process_id path w.tmp_counter),
    record w { tmp_counter = (w.tmp_counter + 1) % 18446744073709551616 },
  )

  unfoldable pub sync_parent_dir : FilePath → M H (Unit {0})
  sync_parent_dir dir = do
    with_context (text "failed to open metadata dir " ++ display dir) (perform (open_dir dir))
    with_context (text "failed to sync metadata dir " ++ display dir) (perform (sync_all dir))

  -- Every call is made also if `path` is replaced and the last one fails.
  unfoldable pub write_tmp_and_rename :
      FilePath → FilePath → FilePath → Text → Bool → M H (Unit {0})
  unfolding sync_parent_dir
  write_tmp_and_rename path dir tmp contents trailing_newline = do
    perform (create tmp)
    perform (write_all tmp contents)
    (if trailing_newline then perform (write_all tmp (text "\n")) else pure tt)
    perform (sync_all tmp)
    with_context (text "failed to replace " ++ display path) (perform (rename tmp path))
    sync_parent_dir dir

  -- The body that `write_json` and `write_bytes_file` share.
  unfoldable pub write_file : Text → FilePath → Text → Bool → M H (Unit {0})
  unfolding write_tmp_and_rename unique_tmp_path
  write_file what path contents trailing_newline = do
    dir ← lift (ok_or (what ++ (text " " ++ (display path ++ text " has no parent"))) (parent path))
    perform (create_dir_all dir)
    tmp ← unique_tmp_path path
    on_error (write_tmp_and_rename path dir tmp contents trailing_newline)
        (λ e. ignore (perform (remove_file tmp)))

  unfoldable pub write_text_file : FilePath → Text → M H (Unit {0})
  unfolding write_file
  write_text_file path contents = write_file (text "path") path contents false

  unfoldable pub write_json : {A : Type 0} → Codec A → FilePath → A → M H (Unit {0})
  unfolding write_file
  write_json codec path value = write_file (text "json path") path (codec.to_json value) true

  unfoldable pub read_json : {A : Type 0} → Codec A → FilePath → M H A
  unfolding with_context
  read_json codec path = do
    contents ←
        with_context (text "failed to read " ++ display path) (read (λ s. H.read_to_string s path))
    lift (ok_or (text "invalid json in " ++ display path) (codec.from_json contents))
