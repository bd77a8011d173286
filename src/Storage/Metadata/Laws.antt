-- ===== src/Storage/Metadata/Laws.antt =====
-- What metadata of an environment that passes the validation says.
use ipa_rs_agent_controller.Common.{◌≡◌, sym, ap, ◌∙◌, some, ◌==◌, list_eq, nat_eq, >>=-eq-ok}
use ipa_rs_agent_controller.Common.{Result, ok, err, panic, Eq, ◌>>◌, arith, ensure}
use ipa_rs_agent_controller.Common.Text.{Text}
use ipa_rs_agent_controller.Path.{component_eq}
use ipa_rs_agent_controller.Model.{Env, machine_name}
use ipa_rs_agent_controller.Model.Limit.{Floats}
use ipa_rs_agent_controller.Model.Limit
use ipa_rs_agent_controller.Model.Policy
use ipa_rs_agent_controller.Storage.Ids.{validate_id}
use ipa_rs_agent_controller.Storage.Layout.{Layout}
use ipa_rs_agent_controller.Storage.Metadata.{
  validate_env_metadata, check_id, check_path, validate_ids, expected_rootfs,
}

rest_ok : (step rest : Result (Unit {0})) → (step >> rest) ≡ ok tt → rest ≡ ok tt
rest_ok (ok x) rest e = e
rest_ok (err m) rest e = absurd (ground arith)
rest_ok (panic m) rest e = absurd (ground arith)

ensured : {A : Type 0} {a b : A} ⦃e : Eq A⦄ (m : Text) → ensure (a == b) m ≡ ok tt → a ≡ b
ensured m h = ground arith

-- Metadata of an environment that passes the validation for an id has that id, which is valid, the
-- machine name and the root directory that belong to the id and the backend, valid limits, a valid
-- policy and a valid id of its base.
pub validate_env_metadata-own :
    (F : Floats) (l : Layout) (env : Env) (id : Text)
    → validate_env_metadata F l env (some id) ≡ ok tt
    → (env.id ≡ id)
      × (validate_id id ≡ ok tt)
      × (env.machine_name ≡ machine_name id)
      × (env.rootfs_path ≡ expected_rootfs l env.backend id)
      × (Limit.validate F env.limits ≡ ok tt)
      × (Policy.validate env.network_policy ≡ ok tt)
      × (validate_id env.base_id ≡ ok tt)
unfolding validate_env_metadata check_path check_id
validate_env_metadata-own F l env id h =
    let (_, valid, h1) = >>=-eq-ok (validate_id env.id) _ h in
    let (_, named, h2) = >>=-eq-ok (check_id _ _ env.id (some id)) _ h1 in
    let (_, base, h3) = >>=-eq-ok (validate_id env.base_id) _ h2 in
    let h4 = rest_ok (validate_id env.profile) _ h3 in
    let (_, limits, h5) = >>=-eq-ok (Limit.validate F env.limits) _ h4 in
    let (_, policy, h6) = >>=-eq-ok (Policy.validate env.network_policy) _ h5 in
    let h7 = rest_ok (validate_ids env.sessions) _ h6 in
    let (_, m, r) = >>=-eq-ok (ensure (env.machine_name == machine_name env.id) _) _ h7 in
    let same : env.id ≡ id = ensured _ named in
    (
      same,
      rw (sym same) valid,
      ensured _ m ∙ ap machine_name same,
      ensured _ r ∙ ap (expected_rootfs l env.backend) same,
      limits,
      policy,
      base,
    )
