-- ===== src/Overlay/Markers.antt =====
-- Where the marker of a whiteout stands.
use ipa_rs_agent_controller.Common.{◌≡◌, sym, ap, ◌∙◌, ◌⊎◌, inl, inr, some, arith}
use ipa_rs_agent_controller.Common.{ok, context}
use ipa_rs_agent_controller.Path.{FilePath, ◌/◌}
use ipa_rs_agent_controller.Host.{
  Host, Io, done, not_found, failed, Metadata, FileType, regular, directory, symlink, other,
}
use ipa_rs_agent_controller.Host.Effect.{World, pure, bail, asks, ◌>>=◌}
use ipa_rs_agent_controller.Host.Steps.{bind-inv, lift-inv}
use ipa_rs_agent_controller.Storage.Files.{with_context}
use ipa_rs_agent_controller.Overlay.{
  directory_whiteout_marker, is_directory_whiteout_marker, whiteout_marker_path, marker_of_type,
  marker_of,
}
use ipa_rs_agent_controller.Overlay.Paths.{PathOverlay, whiteout_path}

module _ {H : Host} where
  marker_of_type-some :
      (at m : FilePath) (t : FileType) (w : World H)
      → (marker_of_type at t w).0 ≡ ok (some m)
      → (m ≡ at) ⊎ (m ≡ at / directory_whiteout_marker)
  unfolding marker_of_type pure
  marker_of_type-some at m regular w e = inl (ground arith)
  marker_of_type-some at m directory w e =
      let (present, _, same) = bind-inv (is_directory_whiteout_marker _) _ w (some m) e in
      inr (ground arith)
  marker_of_type-some at m symlink w e = absurd (ground arith)
  marker_of_type-some at m other w e = absurd (ground arith)

  marker_of-some :
      (at m : FilePath) (r : Io Metadata) (w : World H)
      → (marker_of at r w).0 ≡ ok (some m)
      → (m ≡ at) ⊎ (m ≡ at / directory_whiteout_marker)
  unfolding marker_of pure bail with_context context
  marker_of-some at m (done d) w e = marker_of_type-some at m d.file_type w e
  marker_of-some at m not_found w e = absurd (ground arith)
  marker_of-some at m (failed x) w e = absurd (ground arith)

  -- A marker is the file of the whiteout itself, or stands in the directory of that name.
  pub whiteout_marker_path-some :
      (o : PathOverlay) (v m : FilePath) (w : World H)
      → (whiteout_marker_path o v w).0 ≡ ok (some m)
      → (at : FilePath) × (whiteout_path o v ≡ ok at)
        × ((m ≡ at) ⊎ (m ≡ at / directory_whiteout_marker))
  unfolding whiteout_marker_path asks ◌>>=◌
  whiteout_marker_path-some o v m w e =
      let (at, found, same) = lift-inv (whiteout_path o v) _ w (some m) e in
      (at, found, marker_of-some at m (H.symlink_metadata w.os at) w (ap (λ r. r.0) (sym same) ∙ e))
