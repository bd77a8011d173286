-- ===== src/Tests/Invariant.antt =====
-- The invariant of the stored metadata, at one host and one world.
use ipa_rs_agent_controller.Common.{none, ◌≡◌, [], ◌∷◌, list_eq, nat_eq}
use ipa_rs_agent_controller.Common.Text.{text}
use ipa_rs_agent_controller.Path.{FilePath, component_eq}
use ipa_rs_agent_controller.Model.{EnvState, env_state_eq, Env}
use ipa_rs_agent_controller.Host.Effect.{World}
use ipa_rs_agent_controller.Storage.Records.{write_env}
use ipa_rs_agent_controller.Service.Logs.{layout}
use ipa_rs_agent_controller.Common.{List, false, arith}
use ipa_rs_agent_controller.Common.Lists.{All}
use ipa_rs_agent_controller.Path.{is_absolute}
use ipa_rs_agent_controller.Host.{done, Io}
use ipa_rs_agent_controller.Service.Invariant.{Trusted, StoredValid}
use ipa_rs_agent_controller.Service.Invariant.Stored.{Keeps-write_env}
use ipa_rs_agent_controller.Tests.Machine.{machine, empty_world, machine-Lawful}
use ipa_rs_agent_controller.Protocol.{Request}
use ipa_rs_agent_controller.Service.Handle.{handle}
use ipa_rs_agent_controller.Service.Invariant.Requests.{handle-StoredValid}
use ipa_rs_agent_controller.Tests.Runs.{service, dev, env_json-law}

abbrev no_entries_found : Io (List FilePath)
no_entries_found = done []

no_entries :
    (rels : List FilePath)
    → no_entries_found ≡ done rels
    → All (λ rel. is_absolute rel ≡ false) rels
no_entries [] e = tt
no_entries (r ∷ rels) e = absurd (ground arith)

machine-Trusted : Trusted machine (layout service)
unfolding machine
machine-Trusted = record {
  files = machine-Lawful;
  json = env_json-law;
  programs = λ program args s id t r. r;
  walks = λ s p rels e. no_entries rels e;
}

-- No file can be read in the empty world.
empty_world-StoredValid : StoredValid (layout service) empty_world
unfolding machine empty_world
empty_world-StoredValid = record { valid = λ id t env h r j. absurd (ground arith) }

-- The environment `dev` while it runs.
abbrev live : Env
live = record dev { state = EnvState.running }

abbrev with_live : World machine
with_live = (write_env {H = machine} (layout service) live empty_world).1

with_live-StoredValid : StoredValid (layout service) with_live
with_live-StoredValid =
    (Keeps-write_env (layout service) machine-Trusted live).at empty_world empty_world-StoredValid

handle-StoredValid_example :
    StoredValid
      (layout service)
      (handle {H = machine} service (Request.exec (text "dev") (text "ls" ∷ []) none) with_live).1
handle-StoredValid_example =
    handle-StoredValid service machine-Trusted (Request.exec (text "dev") (text "ls" ∷ []) none)
      with_live with_live-StoredValid
