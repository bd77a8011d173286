-- ===== src/OverlayFs/Mount/Layout.antt =====
-- What a mount is checked for: the layers are siblings with fixed names, so that none lies in another.
use ipa_rs_agent_controller.Common.{◌≡◌, sym, ap, ◌∙◌, Option, some, [], ◌∷◌, ◌++◌, arith}
use ipa_rs_agent_controller.Common.{ok, ok_or, option_eq, list_eq, nat_eq, if◌then◌else◌}
use ipa_rs_agent_controller.Common.Text.{Text, text}
use ipa_rs_agent_controller.Path.{
  FilePath, Component, root_dir, cur_dir, parent_dir, normal, component_eq, file_name, parent,
}
use ipa_rs_agent_controller.Path.Prefix.{parent-eq-some}
use ipa_rs_agent_controller.Host.{Host}
use ipa_rs_agent_controller.Host.Effect.{World, pure, bail, lift, ◌>>=◌}
use ipa_rs_agent_controller.Host.Steps.{bind-rest}
use ipa_rs_agent_controller.OverlayFs.Mount.{
  MountArgs, check_sibling, check_locations, check_env_dir, check_places, validate_mount_layout,
  validate_mount_args,
}

-- The layers of one environment.
pub record Siblings (lower upper whiteouts : FilePath) : Type 0 where
  pub env_dir : FilePath
  pub lower_at : lower ≡ env_dir ++ (normal (text "lower") ∷ [])
  pub upper_at : upper ≡ env_dir ++ (normal (text "upper") ∷ [])
  pub whiteouts_at : whiteouts ≡ env_dir ++ (normal (text "whiteouts") ∷ [])

last-name :
    (d : FilePath) (c : Component) (s : Text) → file_name (d ++ (c ∷ [])) ≡ some s → c ≡ normal s
unfolding file_name
last-name [] (normal t) s e = ground arith
last-name [] root_dir s e = absurd (ground arith)
last-name [] cur_dir s e = absurd (ground arith)
last-name [] parent_dir s e = absurd (ground arith)
last-name (k ∷ []) c s e = last-name [] c s e
last-name (k ∷ j ∷ d) c s e = last-name (j ∷ d) c s e

named-sibling :
    (p d : FilePath) (s : Text)
    → parent p ≡ some d
    → file_name p ≡ some s
    → p ≡ d ++ (normal s ∷ [])
named-sibling p d s up name =
    let (c, same) = parent-eq-some p d up in
    let last = last-name d c s (ap file_name (sym same) ∙ name) in
    same ∙ ap (λ x. d ++ (x ∷ [])) last

module _ {H : Host} where
  check_sibling-ok :
      (name : Text) (p d : FilePath) (w : World H)
      → (check_sibling name p d w).0 ≡ ok tt
      → p ≡ d ++ (normal name ∷ [])
  unfolding check_sibling pure bail ◌>>=◌ lift
  check_sibling-ok name p d w e = named-sibling p d name (ground arith) (ground arith)

  module _ (mount_point : FilePath) (visible_root : Option FilePath)
      (lower upper whiteouts : FilePath) where
    check_env_dir-ok :
        (d : FilePath) (w : World H)
        → (check_env_dir d mount_point visible_root lower upper whiteouts w).0 ≡ ok tt
        → Siblings lower upper whiteouts
    unfolding check_env_dir
    check_env_dir-ok d w e =
        let (_, a, e1) = bind-rest (check_sibling (text "lower") lower d) _ w tt e in
        let (_, b, e2) = bind-rest (check_sibling (text "upper") upper d) _ _ tt e1 in
        let (_, c, _) = bind-rest (check_sibling (text "whiteouts") whiteouts d) _ _ tt e2 in
        record {
          env_dir = d;
          lower_at = check_sibling-ok _ lower d _ a;
          upper_at = check_sibling-ok _ upper d _ b;
          whiteouts_at = check_sibling-ok _ whiteouts d _ c;
        }

    check_places-ok :
        (w : World H)
        → (check_places mount_point visible_root lower upper whiteouts w).0 ≡ ok tt
        → Siblings lower upper whiteouts
    unfolding check_places
    check_places-ok w e =
        let (d, _, e1) = bind-rest (lift (ok_or _ (parent lower))) _ w tt e in
        let (g, _, e2) = bind-rest (lift (ok_or _ (parent d))) _ _ tt e1 in
        let (_, _, e3) = bind-rest (if _ then pure tt else bail _) _ _ tt e2 in
        check_env_dir-ok d _ e3

    pub validate_mount_layout-ok :
        (w : World H)
        → (validate_mount_layout mount_point visible_root lower upper whiteouts w).0 ≡ ok tt
        → Siblings lower upper whiteouts
    unfolding validate_mount_layout
    validate_mount_layout-ok w e =
        let (_, _, e1) =
          bind-rest (check_locations mount_point visible_root lower upper whiteouts) _ w tt e in
        check_places-ok _ e1

  -- The layers of a mount that passed the checks.
  pub validate_mount_args-ok :
      (args : MountArgs) (w : World H)
      → (validate_mount_args args w).0 ≡ ok tt
      → Siblings args.lower args.upper args.whiteouts
  unfolding validate_mount_args
  validate_mount_args-ok args w e =
      let (_, layout, _) =
        bind-rest
          (validate_mount_layout args.mount_point args.visible_root args.lower args.upper
            args.whiteouts)
          _ w tt e in
      validate_mount_layout-ok args.mount_point args.visible_root args.lower args.upper
        args.whiteouts w layout
