-- ===== src/OverlayFs/Lower/Directory.antt =====
-- The calls that list a directory of the view and remove from it spare the same directories.
use ipa_rs_agent_controller.OverlayFs.Looking.{
  path_exists-Looks, should_whiteout_removed_path-Looks,
}
use ipa_rs_agent_controller.Common.{Bool, true, false, not, ◌&&◌}
use ipa_rs_agent_controller.Common.{if◌then◌else◌}
use ipa_rs_agent_controller.Path.{FilePath}
use ipa_rs_agent_controller.Host.{Host, Change, remove_file, remove_dir}
use ipa_rs_agent_controller.Host.Log.{Log}
use ipa_rs_agent_controller.Host.Spared.{Away, Spared, Quiet, Quiet-remove_file, Quiet-remove_dir}
use ipa_rs_agent_controller.Overlay.Paths.{upper_path}
use ipa_rs_agent_controller.Overlay.Lower.{Apart, remove_whiteout-Safe, create_whiteout-Safe}
use ipa_rs_agent_controller.OverlayFs.Effect.{View, F, enoent, or_eio, refuse, pure, ◌>>=◌, ◌>>◌}
use ipa_rs_agent_controller.OverlayFs.Keeps.{Keeps, Keeps-bind_lift}
use ipa_rs_agent_controller.OverlayFs.Keeps.Os.{OnOs, Keeps-try, fs_rules}
use ipa_rs_agent_controller.OverlayFs.Directory.{
  path_exists, should_whiteout_removed_path, update_whiteout, remove_and_update_whiteout,
  remove_file_and_update_whiteout, remove_dir_and_update_whiteout,
}
use ipa_rs_agent_controller.OverlayFs.Storage.{perform}
use ipa_rs_agent_controller.OverlayFs.Lower.{perform-Safe, upper_path-Away}

module _ {H : Host} (log : Log H) (dir : FilePath) where
  abbrev Safe : {X : Type 0} → F H X → Type 0
  Safe m = Keeps H (OnOs (Spared log dir)) m

  module _ (v : View) where
    module _ (apart : Apart v.overlay dir) where
      update_whiteout-Safe : (p : FilePath) (hide : Bool) → Safe (update_whiteout v p hide)
      unfolding update_whiteout
      update_whiteout-Safe p true = Keeps-try _ (create_whiteout-Safe log dir v.overlay apart p)
      update_whiteout-Safe p false = Keeps-try _ (remove_whiteout-Safe log dir v.overlay apart p)

      removed-Safe :
          (removal : FilePath → Change) (p upper : FilePath)
          → Quiet dir (removal upper)
          → Safe (
              path_exists upper >>= λ upper_exists.
              should_whiteout_removed_path v p >>= λ should_whiteout.
              (if not upper_exists && not should_whiteout then refuse enoent else pure tt)
              >> ((if upper_exists then perform (removal upper) else pure tt)
                  >> update_whiteout v p should_whiteout))
      removed-Safe removal p upper q =
          search
            (
              fs_rules, path_exists-Looks, should_whiteout_removed_path-Looks, perform-Safe,
              update_whiteout-Safe,
            )
            depth 20

      remove_and_update_whiteout-Safe :
          (removal : FilePath → Change) (p : FilePath)
          → ((upper : FilePath) → Away dir upper → Quiet dir (removal upper))
          → Safe (remove_and_update_whiteout v removal p)
      unfolding remove_and_update_whiteout
      remove_and_update_whiteout-Safe removal p quiet =
          Keeps-bind_lift (or_eio (upper_path v.overlay p)) _ λ upper e.
            removed-Safe removal p upper (quiet upper (upper_path-Away v apart p upper e))

      pub remove_file_and_update_whiteout-Safe :
          (p : FilePath) → Safe (remove_file_and_update_whiteout v p)
      unfolding remove_file_and_update_whiteout
      remove_file_and_update_whiteout-Safe p =
          remove_and_update_whiteout-Safe remove_file p (Quiet-remove_file dir)

      pub remove_dir_and_update_whiteout-Safe :
          (p : FilePath) → Safe (remove_dir_and_update_whiteout v p)
      unfolding remove_dir_and_update_whiteout
      remove_dir_and_update_whiteout-Safe p =
          remove_and_update_whiteout-Safe remove_dir p (Quiet-remove_dir dir)
