-- ===== src/Overlay/Reading.antt =====
-- Finding a path of the view or its whiteout changes nothing.
use ipa_rs_agent_controller.Common.{Option, some, none}
use ipa_rs_agent_controller.Common.{ℕ, false, none, List}
use ipa_rs_agent_controller.Path.{FilePath}
use ipa_rs_agent_controller.Host.{
  Host, Io, done, not_found, failed, Metadata, FileType, regular, directory, symlink, other,
}
use ipa_rs_agent_controller.Host.Effect.{World}
use ipa_rs_agent_controller.Host.Keeps.{Keeps, Keeps-pure, Keeps-bail, keeps_rules}
use ipa_rs_agent_controller.Storage.Files.Keeps.{Keeps-with_context}
use ipa_rs_agent_controller.Overlay.{
  resolve, resolve_below, is_directory_whiteout_marker, whiteout_marker_path, whiteout_exists,
  is_content, marker_of_type, marker_of,
}
use ipa_rs_agent_controller.Overlay.Paths.{PathOverlay}

module _ {H : Host} (P : World H → Type 0) where
  is_content-Keeps : (p : FilePath) (r : Io (List ℕ)) → Keeps P (is_content p r)
  unfolding is_content
  is_content-Keeps p (done c) = Keeps-pure _
  is_content-Keeps p not_found = Keeps-pure false
  is_content-Keeps p (failed e) = Keeps-with_context _ _ (Keeps-bail e)

  is_directory_whiteout_marker-Keeps : (p : FilePath) → Keeps P (is_directory_whiteout_marker p)
  unfolding is_directory_whiteout_marker
  is_directory_whiteout_marker-Keeps p = search (keeps_rules, is_content-Keeps)

  marker_of_type-Keeps : (p : FilePath) (t : FileType) → Keeps P (marker_of_type p t)
  unfolding marker_of_type
  marker_of_type-Keeps p regular = Keeps-pure _
  marker_of_type-Keeps p directory = search (keeps_rules, is_directory_whiteout_marker-Keeps)
  marker_of_type-Keeps p symlink = Keeps-pure none
  marker_of_type-Keeps p other = Keeps-pure none

  marker_of-Keeps : (p : FilePath) (r : Io Metadata) → Keeps P (marker_of p r)
  unfolding marker_of
  marker_of-Keeps p (done m) = marker_of_type-Keeps p m.file_type
  marker_of-Keeps p not_found = Keeps-pure none
  marker_of-Keeps p (failed e) = Keeps-with_context _ _ (Keeps-bail e)

  pub whiteout_marker_path-Keeps :
      (o : PathOverlay) (v : FilePath) → Keeps P (whiteout_marker_path o v)
  unfolding whiteout_marker_path
  whiteout_marker_path-Keeps o v = search (keeps_rules, marker_of-Keeps) depth 12

  pub whiteout_exists-Keeps : (o : PathOverlay) (v : FilePath) → Keeps P (whiteout_exists o v)
  unfolding whiteout_exists
  whiteout_exists-Keeps o v = search (keeps_rules, whiteout_marker_path-Keeps)

  resolve_below-Keeps :
      (o : PathOverlay) (v : FilePath) (m : Option FilePath) → Keeps P (resolve_below o v m)
  unfolding resolve_below
  resolve_below-Keeps o v (some marker) = Keeps-pure _
  resolve_below-Keeps o v none = search (keeps_rules) depth 20

  pub resolve-Keeps : (o : PathOverlay) (v : FilePath) → Keeps P (resolve o v)
  unfolding resolve
  resolve-Keeps o v = search (keeps_rules, whiteout_marker_path-Keeps, resolve_below-Keeps)
