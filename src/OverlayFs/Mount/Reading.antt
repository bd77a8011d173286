-- ===== src/OverlayFs/Mount/Reading.antt =====
-- The checks of the arguments of a mount only look: the first steps of `validate_mount_args` of
-- crates/agent-overlayfs/src/main.rs.
use ipa_rs_agent_controller.Common.{List, [], ◌∷◌, ◌++◌, Option, none, some}
use ipa_rs_agent_controller.Common.Text.{Text}
use ipa_rs_agent_controller.Path.{FilePath}
use ipa_rs_agent_controller.Host.{Host}
use ipa_rs_agent_controller.Host.Effect.{World}
use ipa_rs_agent_controller.Host.Keeps.{
  Keeps, Keeps-pure, Keeps-bind, Keeps-if, Keeps-bail, Keeps-lift, Keeps-asks, keeps_rules,
}
use ipa_rs_agent_controller.Reflink.{is_dir}
use ipa_rs_agent_controller.OverlayFs.Mount.{
  symlink_free, reject_existing_symlink_components, check_location, check_visible_root,
  check_sibling, check_mount_point, place_of, check_locations, check_env_dir, check_places,
  validate_mount_layout, validate_fallback_roots,
}

module _ {H : Host} (P : World H → Type 0) where
  symlink_free-Keeps : (name : Text) (current p : FilePath) → Keeps P (symlink_free name current p)
  unfolding symlink_free
  symlink_free-Keeps name current [] = Keeps-pure tt
  symlink_free-Keeps name current (c ∷ rest) =
      Keeps-bind _ _ (Keeps-asks _)
        λ linked. Keeps-if _ _ _ (Keeps-bail _) (symlink_free-Keeps name (current ++ (c ∷ [])) rest)

  location-Keeps : (name : Text) (p : FilePath) → Keeps P (check_location name p)
  unfolding check_location reject_existing_symlink_components
  location-Keeps name p = search (keeps_rules, symlink_free-Keeps)

  visible_root-Keeps : (o : Option FilePath) → Keeps P (check_visible_root o)
  unfolding check_visible_root
  visible_root-Keeps none = Keeps-pure tt
  visible_root-Keeps (some p) = location-Keeps _ p

  sibling-Keeps : (name : Text) (p d : FilePath) → Keeps P (check_sibling name p d)
  unfolding check_sibling
  sibling-Keeps name p d = search (keeps_rules)

  mount_point-Keeps : (d p : FilePath) → Keeps P (check_mount_point d p)
  unfolding check_mount_point
  mount_point-Keeps d p = search (keeps_rules)

  place-Keeps : (d p : FilePath) (o : Option FilePath) → Keeps P (place_of d p o)
  unfolding place_of
  place-Keeps d p none = mount_point-Keeps d p
  place-Keeps d p (some v) = search (keeps_rules)

  module _ (m : FilePath) (v : Option FilePath) (lower upper whiteouts : FilePath) where
    locations-Keeps : Keeps P (check_locations m v lower upper whiteouts)
    unfolding check_locations
    locations-Keeps = search (keeps_rules, location-Keeps, visible_root-Keeps) depth 12

    env_dir-Keeps : (d : FilePath) → Keeps P (check_env_dir d m v lower upper whiteouts)
    unfolding check_env_dir
    env_dir-Keeps d = search (keeps_rules, sibling-Keeps, place-Keeps) depth 12

    places-Keeps : Keeps P (check_places m v lower upper whiteouts)
    unfolding check_places
    places-Keeps = search (keeps_rules, env_dir-Keeps) depth 12

    pub validate_mount_layout-Keeps : Keeps P (validate_mount_layout m v lower upper whiteouts)
    unfolding validate_mount_layout
    validate_mount_layout-Keeps = search (keeps_rules, locations-Keeps, places-Keeps)

  pub validate_fallback_roots-Keeps : (l : List FilePath) → Keeps P (validate_fallback_roots l)
  unfolding validate_fallback_roots
  validate_fallback_roots-Keeps [] = Keeps-pure tt
  validate_fallback_roots-Keeps (p ∷ l) =
      Keeps-bind _ _ (Keeps-if _ _ _ (Keeps-pure tt) (Keeps-bail _)) λ _.
        Keeps-bind _ _ (Keeps-lift _) λ _.
          Keeps-bind _ _ (Keeps-if _ _ _ (Keeps-pure tt) (Keeps-bail _))
            λ _. validate_fallback_roots-Keeps l

  pub is_dir-Keeps : (p : FilePath) → Keeps P (is_dir p)
  unfolding is_dir
  is_dir-Keeps p = Keeps-asks _
