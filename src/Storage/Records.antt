-- ===== src/Storage/Records.antt =====
-- Reading and writing the metadata of bases, environments and sessions: crates/agent-core/src/storage.rs.
pub mod Laws
use ipa_rs_agent_controller.Common.{
  Bool, true, false, Option, none, some, List, [], ◌∷◌, ◌++◌, if◌then◌else◌,
}
use ipa_rs_agent_controller.Common.Text.{Text, text, strip_suffix, is_empty}
use ipa_rs_agent_controller.Common.Sort.{sort_by}
use ipa_rs_agent_controller.Path.{FilePath, ◌/◌}
use ipa_rs_agent_controller.Model.{Base, Env, Session}
use ipa_rs_agent_controller.Host.{Host, create_dir_all}
use ipa_rs_agent_controller.Host.Effect.{
  M, pure, lift, ◌>>=◌, ◌>>◌, perform, read, exists, for_each,
}
use ipa_rs_agent_controller.Storage.Ids.{validate_id}
use ipa_rs_agent_controller.Storage.Layout.{
  Layout, bases_dir, envs_dir, cache_dir, runtime_dir, socket_dir, base_dir, env_dir, sessions_dir,
}
use ipa_rs_agent_controller.Storage.Metadata.{
  validate_base_metadata, validate_env_metadata, validate_session_metadata,
}
use ipa_rs_agent_controller.Storage.Files.{write_json, read_json}

-- The stem of a file name with the extension `json`. A name that starts with its only dot has no extension.
unfoldable pub json_stem : Text → Option Text
json_stem name = elim (strip_suffix name (text ".json")) [
  | none ↦ none
  | some stem ↦ if is_empty stem then none else some stem
]

unfoldable pub base_manifest : Layout → Text → FilePath
base_manifest l id = base_dir l id / text "manifest.json"

unfoldable pub env_meta : Layout → Text → FilePath
env_meta l id = env_dir l id / text "meta.json"

unfoldable pub session_meta : Layout → Text → Text → FilePath
session_meta l env_id session_id = sessions_dir l env_id / (session_id ++ text ".json")

module _ {H : Host} (l : Layout) where
  unfoldable pub ensure_agentfs : M H (Unit {0})
  ensure_agentfs =
      for_each
        (bases_dir l
          ∷ envs_dir l
          ∷ (cache_dir l / text "apt")
          ∷ (cache_dir l / text "compiler")
          ∷ (cache_dir l / text "package")
          ∷ (cache_dir l / text "ddc")
          ∷ (runtime_dir l / text "pty")
          ∷ (runtime_dir l / text "machines")
          ∷ socket_dir l
          ∷ [])
        (λ dir. perform (create_dir_all dir))

  unfoldable pub write_base : Base → M H (Unit {0})
  unfolding base_manifest
  write_base base = do
    lift (validate_base_metadata l base (some base.id))
    write_json H.base_json (base_manifest l base.id) base

  unfoldable pub read_base : Text → M H Base
  unfolding base_manifest
  read_base id = do
    lift (validate_id id)
    base ← read_json H.base_json (base_manifest l id)
    lift (validate_base_metadata l base (some id))
    pure base

  unfoldable pub write_env : Env → M H (Unit {0})
  unfolding env_meta
  write_env env = do
    lift (validate_env_metadata H.floats l env (some env.id))
    write_json H.env_json (env_meta l env.id) env

  unfoldable pub read_env : Text → M H Env
  unfolding env_meta
  read_env id = do
    lift (validate_id id)
    env ← read_json H.env_json (env_meta l id)
    lift (validate_env_metadata H.floats l env (some id))
    pure env

  unfoldable pub write_session : Session → M H (Unit {0})
  unfolding session_meta
  write_session session = do
    lift (validate_session_metadata l session (some session.env_id) (some session.id))
    write_json H.session_json (session_meta l session.env_id session.id) session

  unfoldable pub read_session : Text → Text → M H Session
  unfolding session_meta
  read_session env_id session_id = do
    lift (validate_id env_id)
    lift (validate_id session_id)
    session ← read_json H.session_json (session_meta l env_id session_id)
    lift (validate_session_metadata l session (some env_id) (some session_id))
    pure session

  -- The entries of the directory, in the order in which the system lists them.
  unfoldable pub list_env_entries : List Text → M H (List Env)
  list_env_entries [] = pure []
  list_env_entries (name ∷ names) = do
    present ← exists (env_meta l name)
    (if present
        then (do
          env ← read_json H.env_json (env_meta l name)
          lift (validate_env_metadata H.floats l env (some name))
          rest ← list_env_entries names
          pure (env ∷ rest))
        else list_env_entries names)

  unfoldable pub list_envs : M H (List Env)
  unfolding list_env_entries
  list_envs = do
    names ← read (λ s. H.read_dir s (envs_dir l))
    envs ← list_env_entries names
    pure (sort_by (λ (e : Env). e.id) envs)

  -- One entry of the directory, by the stem of its name; `others` reads those behind it.
  unfoldable pub session_entry : Text → Text → M H (List Session) → Option Text → M H (List Session)
  session_entry env_id name others none = others
  session_entry env_id name others (some stem) = do
    session ← read_json H.session_json (sessions_dir l env_id / name)
    lift (validate_session_metadata l session (some env_id) (some stem))
    rest ← others
    pure (session ∷ rest)

  unfoldable pub list_session_entries : Text → List Text → M H (List Session)
  unfolding session_entry
  list_session_entries env_id [] = pure []
  list_session_entries env_id (name ∷ names) =
      session_entry env_id name (list_session_entries env_id names) (json_stem name)

  unfoldable pub list_sessions : Text → M H (List Session)
  unfolding list_session_entries
  list_sessions env_id = do
    lift (validate_id env_id)
    present ← exists (sessions_dir l env_id)
    (if present
        then (do
          names ← read (λ s. H.read_dir s (sessions_dir l env_id))
          sessions ← list_session_entries env_id names
          pure (sort_by (λ (s : Session). s.id) sessions))
        else pure [])
