-- ===== src/Service/Invariant.antt =====
-- The metadata of every environment that is stored stays valid: the invariant, and what is relied on.
pub mod Files
pub mod Actions
pub mod Stored
pub mod Sessions
pub mod Machines
pub mod Operations
pub mod Envs
pub mod Targets
pub mod Starting
pub mod Creating
pub mod Freezing
pub mod Looking
pub mod Requests
use ipa_rs_agent_controller.Common.{◌≡◌, ◌≢◌, true, false, List, some, Bool}
use ipa_rs_agent_controller.Common.{ok}
use ipa_rs_agent_controller.Common.Lists.{All}
use ipa_rs_agent_controller.Common.Text.{Text}
use ipa_rs_agent_controller.Path.{FilePath, is_absolute}
use ipa_rs_agent_controller.Model.{Env}
use ipa_rs_agent_controller.Host.{Host, done}
use ipa_rs_agent_controller.Host.Effect.{World}
use ipa_rs_agent_controller.Host.Lawful.{Reads, Lawful}
use ipa_rs_agent_controller.Storage.Ids.{is_valid_id}
use ipa_rs_agent_controller.Storage.Layout.{Layout}
use ipa_rs_agent_controller.Storage.Metadata.{validate_env_metadata}
use ipa_rs_agent_controller.Storage.Records.{env_meta}
use ipa_rs_agent_controller.Storage.Records.Laws.{CodecLaw}

-- What the service relies on: the file system, serde_json, the programs that it runs, which leave the
-- metadata of environments alone, and walkdir, which gives paths from the directory that it walks.
pub record Trusted (H : Host) (l : Layout) : Type 0 where
  pub files : Lawful H
  pub json : CodecLaw H.env_json
  pub programs :
      (program : Text) (args : List Text) (s : H.State) (id t : Text)
      → Reads H (H.run_program program args s).1 (env_meta l id) t
      → Reads H s (env_meta l id) t
  pub walks :
      (s : H.State) (p : FilePath) (rels : List FilePath)
      → H.walk_dir s p ≡ done rels
      → All (λ rel. is_absolute rel ≡ false) rels

-- Every metadata file of an environment that can be read and is JSON passes the validation for its id.
pub record StoredValid {H : Host} (l : Layout) (w : World H) : Type 0 where
  pub valid :
      (id t : Text) (env : Env)
      → is_valid_id id ≡ true
      → Reads H w.os (env_meta l id) t
      → H.env_json.from_json t ≡ some env
      → validate_env_metadata H.floats l env (some id) ≡ ok tt
