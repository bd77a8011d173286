-- ===== src/OverlayFs/Session/Spared.antt =====
-- What no call of a mounted view names.
use ipa_rs_agent_controller.Common.Text.{Text}
use ipa_rs_agent_controller.Host.{Host}
use ipa_rs_agent_controller.Host.Effect.{M}
use ipa_rs_agent_controller.Host.Keeps.{Keeps}
use ipa_rs_agent_controller.Host.Log.{Log}
use ipa_rs_agent_controller.Host.Spared.{Spared}
use ipa_rs_agent_controller.Overlay.Paths.{PathOverlay}
use ipa_rs_agent_controller.OverlayFs.Mount.{MountArgs}

abbrev overlay_of : MountArgs → PathOverlay
overlay_of args = record { lower = args.lower; upper = args.upper; whiteouts = args.whiteouts }

module _ {H : Host} (log : Log H) where
  module _ (args : MountArgs) where
    abbrev Safe : {A : Type 0} → M H A → Type 0
    Safe m = Keeps {H = H} (λ w. Spared log args.lower w.os) m
