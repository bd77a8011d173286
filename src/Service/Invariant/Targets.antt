-- ===== src/Service/Invariant/Targets.antt =====
-- Files that are no environment's metadata: by the last name of their path, or by its depth.
use ipa_rs_agent_controller.Common.{
  ◌≡◌, ◌≢◌, refl, sym, ap, ◌∙◌, Bool, true, false, [], ◌∷◌, ◌++◌, arith, list_eq, nat_eq,
}
use ipa_rs_agent_controller.Common.Lists.{length, length-append, append_assoc, append-nil}
use ipa_rs_agent_controller.Common.Text.{Text, text, all_chars}
use ipa_rs_agent_controller.Path.{
  FilePath, root_dir, cur_dir, parent_dir, normal, path, join_path, ◌/◌, is_absolute,
}
use ipa_rs_agent_controller.Path.Laws.{IsName, undotted-IsName, append_name}
use ipa_rs_agent_controller.Overlay.Paths.Laws.{plain, join_path-plain}
use ipa_rs_agent_controller.Path.Prefix.{join_path-relative}
use ipa_rs_agent_controller.Model.{Env, machine_name}
use ipa_rs_agent_controller.Storage.Ids.{is_valid_id}
use ipa_rs_agent_controller.Storage.Ids.Laws.{is_valid_id-IsName}
use ipa_rs_agent_controller.Storage.Layout.{Layout, env_dir, env_rootfs}
use ipa_rs_agent_controller.Storage.Files.Temporary.{no_slash-append}
use ipa_rs_agent_controller.Storage.Records.Laws.{env_meta-name}
use ipa_rs_agent_controller.Nspawn.{config_path}
use ipa_rs_agent_controller.Service.Invariant.Sessions.{env_dir-length}
use ipa_rs_agent_controller.Service.Invariant.Files.{
  Other, Named, other_name, other_name-IsName, snoc-Other, Named-join,
}

-- A path of names whose last name is not that of the metadata.
abbrev pub other_path : FilePath → Bool
other_path [] = false
other_path (normal n ∷ []) = other_name n
other_path (normal n ∷ c ∷ p) = other_path (c ∷ p)
other_path (root_dir ∷ p) = false
other_path (cur_dir ∷ p) = false
other_path (parent_dir ∷ p) = false

other_path-plain : (p : FilePath) → other_path p ≡ true → plain p ≡ true
other_path-plain [] h = refl
other_path-plain (normal n ∷ []) h = refl
other_path-plain (normal n ∷ c ∷ p) h = other_path-plain (c ∷ p) h
other_path-plain (root_dir ∷ p) h = absurd (ground arith)
other_path-plain (cur_dir ∷ p) h = absurd (ground arith)
other_path-plain (parent_dir ∷ p) h = absurd (ground arith)

other_path-last :
    (p : FilePath)
    → other_path p ≡ true
    → (d : FilePath) × (n : Text) × (p ≡ d ++ (normal n ∷ [])) × (other_name n ≡ true)
other_path-last [] h = absurd (ground arith)
other_path-last (normal n ∷ []) h = ([], n, refl, h)
other_path-last (normal n ∷ c ∷ p) h =
    let (d, m, e, k) = other_path-last (c ∷ p) h in (normal n ∷ d, m, ap (λ q. normal n ∷ q) e, k)
other_path-last (root_dir ∷ p) h = absurd (ground arith)
other_path-last (cur_dir ∷ p) h = absurd (ground arith)
other_path-last (parent_dir ∷ p) h = absurd (ground arith)

other_name-ne : (n : Text) → other_name n ≡ true → n ≢ text "meta.json"
other_name-ne [] h e = absurd (ground arith)
other_name-ne (c ∷ s) h e = absurd (ground arith)

-- A fixed path below a directory.
below_last :
    (r : FilePath) (t : Text)
    → other_path (path t) ≡ true
    → (d : FilePath) × (n : Text) × (r / t ≡ d ++ (normal n ∷ [])) × (other_name n ≡ true)
unfolding ◌/◌
below_last r t h =
    let (d, n, e, k) = other_path-last (path t) h in
    (
      r ++ d,
      n,
      join_path-plain r (path t) (other_path-plain (path t) h)
          ∙ ap (λ p. r ++ p) e
          ∙ sym (append_assoc r d (normal n ∷ [])),
      k,
    )

pub below-Other :
    (l : Layout) (r : FilePath) (t : Text) → other_path (path t) ≡ true → Other l (r / t)
below-Other l r t h =
    let (d, n, e, k) = below_last r t h in rw e (snoc-Other l d n (other_name-ne n k))

pub below-Named : (r : FilePath) (t : Text) → other_path (path t) ≡ true → Named (r / t)
below-Named r t h =
    let (d, n, e, k) = below_last r t h in
    record { dir = d; name = n; shape = e; named = other_name-IsName n k }

module _ (env : Env) (valid : is_valid_id env.id ≡ true)
    (named : env.machine_name ≡ machine_name env.id) where
  config_file-IsName : IsName (env.machine_name ++ text ".nspawn")
  unfolding machine_name text all_chars
  config_file-IsName =
      let slashless = (is_valid_id-IsName env.id valid).0.slashless in
      rw named (
        undotted-IsName b'a' _
          (no_slash-append (text "af-" ++ env.id) (text ".nspawn")
            (no_slash-append (text "af-") env.id refl slashless) refl)
          refl)

  config_file-ne : (env.machine_name ++ text ".nspawn") ≢ text "meta.json"
  unfolding machine_name text
  config_file-ne e = absurd (ground (arith, named))

  pub config_path-Other : (l : Layout) → Other l (config_path env)
  unfolding config_path
  config_path-Other l = rw (append_name _ _ config_file-IsName) (snoc-Other l _ _ config_file-ne)

  pub config_path-Named : Named (config_path env)
  unfolding config_path
  config_path-Named = Named-join _ _ config_file-IsName

rootfs-IsName : IsName (text "rootfs")
unfolding text all_chars
rootfs-IsName = undotted-IsName _ _ refl refl

deeper-Other :
    (l : Layout) (id : Text) (r : FilePath)
    → is_valid_id id ≡ true
    → Other l ((env_dir l id ++ (normal (text "rootfs") ∷ [])) ++ r)
unfolding text
deeper-Other l id [] valid =
    rw (append-nil (env_dir l id ++ (normal (text "rootfs") ∷ [])))
      (snoc-Other l (env_dir l id) (text "rootfs") (λ e. absurd (ground arith)))
deeper-Other l id (c ∷ r) valid = record {
  apart = λ other v e.
      let lengths = ap length (sym (env_meta-name l other) ∙ e) in
      absurd (
        omega (
          arith,
          lengths,
          env_dir-length l other v,
          env_dir-length l id valid,
          length-append (env_dir l other) (normal (text "meta.json") ∷ []),
          length-append (env_dir l id ++ (normal (text "rootfs") ∷ [])) (c ∷ r),
          length-append (env_dir l id) (normal (text "rootfs") ∷ []),
        ));
}

joined-Other :
    (l : Layout) (id : Text) (p rel : FilePath)
    → is_valid_id id ≡ true
    → is_absolute rel ≡ false
    → p ≡ env_dir l id ++ (normal (text "rootfs") ∷ [])
    → Other l (join_path p rel)
joined-Other l id [] rel valid relative e =
    absurd (omega (arith, ap length e, length-append (env_dir l id) (normal (text "rootfs") ∷ [])))
joined-Other l id (c ∷ p) rel valid relative e =
    let (r, joined) = join_path-relative c p rel relative in
    let whole = joined ∙ ap (λ x. x ++ r) e in rw whole (deeper-Other l id r valid)

-- What is copied into the root of an environment lies deeper than the metadata, or is the root itself.
pub rootfs_entry-Other :
    (l : Layout) (id : Text) (rel : FilePath)
    → is_valid_id id ≡ true
    → is_absolute rel ≡ false
    → Other l (join_path (env_rootfs l id) rel)
unfolding env_rootfs
rootfs_entry-Other l id rel valid relative =
    joined-Other l id (env_rootfs l id) rel valid relative
      (append_name (env_dir l id) (text "rootfs") rootfs-IsName)
