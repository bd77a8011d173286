-- ===== src/Overlay/Paths.antt =====
-- The paths of crates/agent-core/src/path_overlay.rs: where a visible path is stored.
pub mod Laws
use ipa_rs_agent_controller.Common.{[], ◌∷◌, ◌++◌}
use ipa_rs_agent_controller.Common.{Result, ok, err, ◌>>=◌, if◌then◌else◌}
use ipa_rs_agent_controller.Common.Text.{text}
use ipa_rs_agent_controller.Path.{
  FilePath, root_dir, cur_dir, parent_dir, normal, is_absolute, join_path, display,
}

pub record PathOverlay : Type 0 where
  pub lower : FilePath
  pub upper : FilePath
  pub whiteouts : FilePath

-- The names among the components; `whole` is the path of the message.
unfoldable pub names_of : FilePath → FilePath → Result FilePath
names_of whole [] = ok []
names_of whole (root_dir ∷ p) = names_of whole p
names_of whole (cur_dir ∷ p) = names_of whole p
names_of whole (parent_dir ∷ p) =
    err (text "path-preserving overlay path must not contain parent components: " ++ display whole)
names_of whole (normal s ∷ p) = do rest ← names_of whole p; ok (normal s ∷ rest)

unfoldable pub absolute_path_as_overlay_relative : FilePath → Result FilePath
unfolding names_of
absolute_path_as_overlay_relative path =
    if is_absolute path
    then names_of path path
    else err (text "path-preserving overlay path must be absolute")

unfoldable pub storage_path : FilePath → FilePath → Result FilePath
storage_path root visible = do
  rel ← absolute_path_as_overlay_relative visible
  ok (join_path root rel)

abbrev pub lower_path : PathOverlay → FilePath → Result FilePath
lower_path o visible = storage_path o.lower visible

abbrev pub upper_path : PathOverlay → FilePath → Result FilePath
upper_path o visible = storage_path o.upper visible

abbrev pub whiteout_path : PathOverlay → FilePath → Result FilePath
whiteout_path o visible = storage_path o.whiteouts visible
