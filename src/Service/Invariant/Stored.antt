-- ===== src/Service/Invariant/Stored.antt =====
-- Writing metadata keeps the stored metadata valid.
use mathlib.Core.Logic.{dite}
use ipa_rs_agent_controller.Common.{
  ◌≡◌, ◌≢◌, sym, ap, ◌∙◌, inl, inr, true, [], ◌∷◌, ◌++◌, some, arith, list_eq, nat_eq,
}
use ipa_rs_agent_controller.Common.{ok}
use ipa_rs_agent_controller.Common.Lists.{snoc-injective}
use ipa_rs_agent_controller.Common.Text.{Text, text}
use ipa_rs_agent_controller.Path.{normal}
use ipa_rs_agent_controller.Model.{Env}
use ipa_rs_agent_controller.Host.{Host}
use ipa_rs_agent_controller.Host.Effect.{World}
use ipa_rs_agent_controller.Host.Keeps.{Keeps, Keeps-bind_lift}
use ipa_rs_agent_controller.Host.Lawful.{Reads}
use ipa_rs_agent_controller.Storage.Ids.{is_valid_id, validate_id}
use ipa_rs_agent_controller.Storage.Layout.{Layout, env_dir}
use ipa_rs_agent_controller.Storage.Layout.Laws.{env_dir-names}
use ipa_rs_agent_controller.Storage.Metadata.{validate_env_metadata}
use ipa_rs_agent_controller.Storage.Files.{write_json, tmp_name}
use ipa_rs_agent_controller.Storage.Files.Laws.{write_json-whole}
use ipa_rs_agent_controller.Storage.Files.Frame.{write_json-frame}
use ipa_rs_agent_controller.Storage.Records.{env_meta, write_env}
use ipa_rs_agent_controller.Storage.Records.Laws.{
  env_meta-name, meta-IsName, validate_env_metadata-id,
}
use ipa_rs_agent_controller.Service.Invariant.{Trusted, StoredValid}
use ipa_rs_agent_controller.Service.Invariant.Files.{Other, tmp-Other}

normal-injective : (a b : Text) → normal a ≡ normal b → a ≡ b
normal-injective a b e = ground arith

-- Two environments with valid ids have metadata in different files.
env_meta-injective :
    (l : Layout) (a b : Text)
    → is_valid_id a ≡ true
    → is_valid_id b ≡ true
    → env_meta l a ≡ env_meta l b
    → a ≡ b
env_meta-injective l a b ha hb e =
    let (dirs, _) =
      snoc-injective (env_dir l a) (env_dir l b) (normal (text "meta.json"))
        (normal (text "meta.json")) (sym (env_meta-name l a) ∙ e ∙ env_meta-name l b) in
    let (_, names) =
      snoc-injective _ _ (normal a) (normal b)
        (sym (env_dir-names l a ha) ∙ dirs ∙ env_dir-names l b hb) in
    normal-injective a b names

pub validate_id-valid : (id : Text) → validate_id id ≡ ok tt → is_valid_id id ≡ true
unfolding validate_id
validate_id-valid id h = ground arith

module _ {H : Host} (l : Layout) (trusted : Trusted H l) where
  -- The written file has the new metadata or the old one.
  same_file :
      (env found : Env) (w : World H) (t : Text)
      → validate_env_metadata H.floats l env (some env.id) ≡ ok tt
      → StoredValid l w
      → is_valid_id env.id ≡ true
      → Reads H (write_json H.env_json (env_meta l env.id) env w).1.os (env_meta l env.id) t
      → H.env_json.from_json t ≡ some found
      → validate_env_metadata H.floats l found (some env.id) ≡ ok tt
  same_file env found w t valid h ok_id r j =
      let meta = env_dir l env.id ++ (normal (text "meta.json") ∷ []) in
      let read_it : Reads H (write_json H.env_json meta env w).1.os meta t =
        rw (sym (env_meta-name l env.id)) r in
      elim (write_json-whole trusted.files H.env_json (env_dir l env.id) (text "meta.json")
        meta-IsName env w t read_it) [
          | inl new ↦
              let decoded : some env ≡ some found =
                sym (trusted.json.reads_back env) ∙ ap H.env_json.from_json (sym new) ∙ j in
              let same : env ≡ found = ground arith in rw (sym same) valid
          | inr old ↦ h.valid env.id t found ok_id (rw (env_meta-name l env.id) old) j
        ]

  -- Every other environment's metadata is as before.
  other_file :
      (env : Env) (id : Text) (w : World H) (t : Text)
      → is_valid_id id ≡ true
      → is_valid_id env.id ≡ true
      → id ≢ env.id
      → Reads H (write_json H.env_json (env_meta l env.id) env w).1.os (env_meta l id) t
      → Reads H w.os (env_meta l id) t
  other_file env id w t ok_id ok_env other r =
      write_json-frame trusted.files H.env_json (env_meta l env.id) (env_meta l id) env w t
        (λ e. other (env_meta-injective l id env.id ok_id ok_env e))
        (λ counter.
          let o : Other l (tmp_name H.process_id (env_meta l env.id) counter) =
            rw (env_meta-name l env.id) (
              tmp-Other l H.process_id (env_dir l env.id) (text "meta.json") counter meta-IsName) in
          o.apart id ok_id)
        r

  written_env :
      (env : Env)
      → validate_env_metadata H.floats l env (some env.id) ≡ ok tt
      → Keeps {H = H} (StoredValid l) (write_json H.env_json (env_meta l env.id) env)
  written_env env valid =
      let ok_env =
        validate_id-valid env.id (validate_env_metadata-id H.floats l env (some env.id) valid) in
      record {
        at = λ w h. record {
          valid = λ id t found ok_id r j.
              dite (list_eq.dec id env.id)
                (λ e.
                  let there =
                    ap
                      (λ i.
                        H.read_to_string (write_json H.env_json (env_meta l env.id) env w).1.os
                          (env_meta l i))
                      (sym e)
                    ∙ r in
                  rw e (same_file env found w t valid h ok_env there j))
                (λ n. h.valid id t found ok_id (other_file env id w t ok_id ok_env n r) j);
        };
      }

  pub Keeps-write_env : (env : Env) → Keeps {H = H} (StoredValid l) (write_env l env)
  unfolding write_env
  Keeps-write_env env =
      Keeps-bind_lift (validate_env_metadata H.floats l env (some env.id)) _
        (λ _ e. written_env env e)
