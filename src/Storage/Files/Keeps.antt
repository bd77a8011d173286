-- ===== src/Storage/Files/Keeps.antt =====
-- What reading keeps.
use ipa_rs_agent_controller.Common.Text.{Text}
use ipa_rs_agent_controller.Path.{FilePath}
use ipa_rs_agent_controller.Host.{Host, Codec}
use ipa_rs_agent_controller.Host.Effect.{World, M}
use ipa_rs_agent_controller.Host.Keeps.{Keeps, keeps_rules}
use ipa_rs_agent_controller.Storage.Files.{with_context, read_json}

module _ {H : Host} {P : World H → Type 0} where
  pub Keeps-with_context :
      {A : Type 0} (c : Text) (m : M H A) → Keeps P m → Keeps P (with_context c m)
  unfolding with_context
  Keeps-with_context c m k = record { at = k.at }

  pub Keeps-read_json : {A : Type 0} (codec : Codec A) (p : FilePath) → Keeps P (read_json codec p)
  unfolding read_json
  Keeps-read_json codec p = search (keeps_rules, Keeps-with_context)
