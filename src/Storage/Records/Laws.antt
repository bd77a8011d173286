-- ===== src/Storage/Records/Laws.antt =====
-- Reading back the metadata that was written.
use ipa_rs_agent_controller.Common.{◌≡◌, refl, sym, ap, ◌∙◌, Option, some, [], ◌∷◌, ◌++◌}
use ipa_rs_agent_controller.Common.{ok, >>=-eq-ok, ensure, ◌==◌, list_eq, nat_eq, arith}
use ipa_rs_agent_controller.Common.Text.{Text, text, all_chars}
use ipa_rs_agent_controller.Path.{FilePath, normal}
use ipa_rs_agent_controller.Path.Laws.{IsName, undotted-IsName, append_name}
use ipa_rs_agent_controller.Model.{Env, Session, machine_name}
use ipa_rs_agent_controller.Model.Limit
use ipa_rs_agent_controller.Model.Policy
use ipa_rs_agent_controller.Model.Limit.{Floats}
use ipa_rs_agent_controller.Host.{Host, Codec}
use ipa_rs_agent_controller.Host.Effect.{World, pure, lift}
use ipa_rs_agent_controller.Host.Steps.{lift-ok, lift-inv, bind-ok, bind-rest}
use ipa_rs_agent_controller.Host.Lawful.{Reads, Lawful}
use ipa_rs_agent_controller.Storage.Ids.{validate_id}
use ipa_rs_agent_controller.Storage.Layout.{Layout, env_dir}
use ipa_rs_agent_controller.Storage.Metadata.{
  validate_env_metadata, validate_session_metadata, check_id, validate_ids,
}
use ipa_rs_agent_controller.Storage.Files.{write_json, read_json}
use ipa_rs_agent_controller.Storage.Files.Laws.{write_json-ok, read_json-ok}
use ipa_rs_agent_controller.Storage.Records.{
  env_meta, write_env, read_env, session_meta, read_session,
}

-- serde_json reads back what it prints, with white space behind it.
pub record CodecLaw {A : Type 0} (codec : Codec A) : Type 0 where
  pub reads_back : (a : A) → codec.from_json (codec.to_json a ++ text "\n") ≡ some a

pub meta-IsName : IsName (text "meta.json")
unfolding text all_chars
meta-IsName = undotted-IsName _ _ refl refl

pub env_meta-name :
    (l : Layout) (id : Text) → env_meta l id ≡ env_dir l id ++ (normal (text "meta.json") ∷ [])
unfolding env_meta
env_meta-name l id = append_name (env_dir l id) (text "meta.json") meta-IsName

-- The first check of the metadata is that of the id.
pub validate_env_metadata-id :
    (F : Floats) (l : Layout) (env : Env) (expected : Option Text)
    → validate_env_metadata F l env expected ≡ ok tt
    → validate_id env.id ≡ ok tt
unfolding validate_env_metadata
validate_env_metadata-id F l env expected h =
    let (_, e, _) = >>=-eq-ok (validate_id env.id) _ h in e

-- The metadata that is read has passed the checks.
pub read_env-valid :
    {H : Host} (l : Layout) (id : Text) (env : Env) (w : World H)
    → (read_env l id w).0 ≡ ok env
    → validate_env_metadata H.floats l env (some id) ≡ ok tt
unfolding read_env pure lift
read_env-valid l id env w h =
    let (_, _, e1) = bind-rest (lift (validate_id id)) _ w env h in
    let (read, _, e2) = bind-rest (read_json _ (env_meta l id)) _ _ env e1 in
    let (_, valid, e3) = bind-rest (lift (validate_env_metadata _ l read (some id))) _ _ env e2 in
    let same : read ≡ env = ground arith in rw (← same) valid

pub read_session-valid :
    {H : Host} (l : Layout) (env_id id : Text) (session : Session) (w : World H)
    → (read_session l env_id id w).0 ≡ ok session
    → validate_session_metadata l session (some env_id) (some id) ≡ ok tt
unfolding read_session pure lift
read_session-valid l env_id id session w h =
    let (_, _, e1) = bind-rest (lift (validate_id env_id)) _ w session h in
    let (_, _, e2) = bind-rest (lift (validate_id id)) _ _ session e1 in
    let (read, _, e3) = bind-rest (read_json _ (session_meta l env_id id)) _ _ session e2 in
    let (_, valid, e4) =
      bind-rest (lift (validate_session_metadata l read (some env_id) (some id))) _ _ session e3 in
    let same : read ≡ session = ground arith in rw (← same) valid

-- The last check but one is that of the machine's name.
pub validate_env_metadata-machine :
    (F : Floats) (l : Layout) (env : Env) (expected : Option Text)
    → validate_env_metadata F l env expected ≡ ok tt
    → env.machine_name ≡ machine_name env.id
unfolding validate_env_metadata
validate_env_metadata-machine F l env expected h =
    let (_, _, h1) = >>=-eq-ok (validate_id env.id) _ h in
    let (_, _, h2) = >>=-eq-ok (check_id _ _ env.id expected) _ h1 in
    let (_, _, h3) = >>=-eq-ok (validate_id env.base_id) _ h2 in
    let (_, _, h4) = >>=-eq-ok (validate_id env.profile) _ h3 in
    let (_, _, h5) = >>=-eq-ok (Limit.validate F env.limits) _ h4 in
    let (_, _, h6) = >>=-eq-ok (Policy.validate env.network_policy) _ h5 in
    let (_, _, h7) = >>=-eq-ok (validate_ids env.sessions) _ h6 in
    let (_, m, _) = >>=-eq-ok (ensure (env.machine_name == machine_name env.id) _) _ h7 in
    ground arith

pure_step : {H : Host} {A : Type 0} (a : A) (v : World H) → pure {H = H} a v ≡ (ok a, v)
unfolding pure
pure_step a v = refl

module _ {H : Host} (law : Lawful H) (json : CodecLaw H.env_json) (l : Layout) (env : Env)
    (w : World H) where
  abbrev meta : FilePath
  meta = env_dir l env.id ++ (normal (text "meta.json") ∷ [])

  write_env-inv :
      (write_env l env w).0 ≡ ok tt
      → (validate_env_metadata H.floats l env (some env.id) ≡ ok tt)
        × (write_env l env w ≡ write_json H.env_json meta env w)
  unfolding write_env
  write_env-inv h =
      let (_, valid, same) =
        lift-inv (validate_env_metadata H.floats l env (some env.id))
          (λ _. write_json H.env_json (env_meta l env.id) env) w tt h in
      (valid, same ∙ ap (λ p. write_json H.env_json p env w) (env_meta-name l env.id))

  -- On a lawful host and with a JSON that is read back as it was printed: if `write_env` ends without an
  -- error, `read_env` with the environment's id then returns that environment with all its fields, and
  -- leaves the world as it is.
  pub write_env-read_env :
      (write_env l env w).0 ≡ ok tt
      → read_env l env.id (write_env l env w).1 ≡ (ok env, (write_env l env w).1)
  unfolding read_env
  write_env-read_env h =
      let v = (write_env l env w).1 in
      let (valid, same) = write_env-inv h in
      let wrote : (write_json H.env_json meta env w).0 ≡ ok tt = ap (λ r. r.0) (sym same) ∙ h in
      let there : Reads H v.os meta (H.env_json.to_json env ++ text "\n") = rw same (
        write_json-ok law H.env_json (env_dir l env.id) (text "meta.json") meta-IsName env w
          wrote) in
      let got : read_json H.env_json (env_meta l env.id) v ≡ (ok env, v) =
        rw (env_meta-name l env.id) (
          read_json-ok law H.env_json (env_dir l env.id) (text "meta.json") meta-IsName env w _ env
            there (json.reads_back env)) in
      lift-ok (validate_id env.id) _ (validate_env_metadata-id H.floats l env (some env.id) valid)
      ∙ bind-ok (read_json H.env_json (env_meta l env.id)) _ got
      ∙ lift-ok (validate_env_metadata H.floats l env (some env.id)) _ valid
      ∙ pure_step env v
