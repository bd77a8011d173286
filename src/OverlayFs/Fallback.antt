-- ===== src/OverlayFs/Fallback.antt =====
-- The parts of the system that a view falls back to: `FallbackRoots` of crates/agent-overlayfs/src/main.rs.
pub mod Allowlist
use ipa_rs_agent_controller.Common.{
  Bool, true, false, not, ◌&&◌, ◌||◌, Option, none, some, List, [], ◌∷◌, ◌++◌, map,
}
use ipa_rs_agent_controller.Common.{◌==◌, list_eq, nat_eq, contains, if◌then◌else◌}
use ipa_rs_agent_controller.Common.Sort.{sort_by, dedup}
use ipa_rs_agent_controller.Common.Text.{Text}
use ipa_rs_agent_controller.Path.{
  FilePath, Component, root_dir, cur_dir, parent_dir, normal, component_eq, part_text, strip_path,
  path_starts_with,
}
use ipa_rs_agent_controller.Host.{
  Host, Io, done, not_found, failed, Metadata, regular, directory, symlink, other,
}
use ipa_rs_agent_controller.Common.{◌+◌}

pub record FallbackRoot : Type 0 where
  pub visible : FilePath
  pub real : FilePath

abbrev pub root : FilePath
root = root_dir ∷ []

-- The order of `PathBuf`, component by component, as an order of texts.
component_key : Component → Text
component_key root_dir = 1 ∷ []
component_key cur_dir = 2 ∷ []
component_key parent_dir = 3 ∷ []
component_key (normal s) = 4 ∷ (map (λ c. c + 1) s ++ (0 ∷ []))

path_key : FilePath → Text
unfolding component_key
path_key [] = []
path_key (c ∷ p) = component_key c ++ path_key p

with_real : FilePath → Io FilePath → List FallbackRoot → List FallbackRoot
with_real visible (done real) roots = record { visible = visible; real = real } ∷ roots
with_real visible not_found roots = roots
with_real visible (failed e) roots = roots

canonical_roots : (FilePath → Io FilePath) → List FilePath → List FallbackRoot
unfolding with_real
canonical_roots canonicalize [] = []
canonical_roots canonicalize (visible ∷ rest) =
    with_real visible (canonicalize visible) (canonical_roots canonicalize rest)

-- `FallbackRoots::new`; the argument is `canonicalize` at that time.
unfoldable pub new_roots : (FilePath → Io FilePath) → List FilePath → List FallbackRoot
unfolding canonical_roots path_key
new_roots canonicalize roots = canonical_roots canonicalize (dedup (sort_by path_key roots))

abbrev pub within : FilePath → FilePath → Bool
within path dir = (path == dir) || path_starts_with path dir

unfoldable pub contains_visible : List FallbackRoot → FilePath → Bool
contains_visible [] visible = false
contains_visible (r ∷ roots) visible = within visible r.visible || contains_visible roots visible

-- A path strictly above a root.
abbrev pub above : FilePath → FilePath → Bool
above visible dir = not (dir == visible) && path_starts_with dir visible

above_any : List FallbackRoot → FilePath → Bool
above_any [] visible = false
above_any (r ∷ roots) visible = above visible r.visible || above_any roots visible

unfoldable pub is_virtual_dir : List FallbackRoot → FilePath → Bool
unfolding above_any
is_virtual_dir roots visible = not (visible == root) && above_any roots visible

first_part : FilePath → Option Text
first_part [] = none
first_part (c ∷ p) = some (part_text c)

second_part : FilePath → Option Text
unfolding first_part
second_part [] = none
second_part (c ∷ p) = first_part p

below : Option FilePath → Option Text
unfolding first_part
below none = none
below (some relative) = first_part relative

child_name : FilePath → FilePath → Option Text
unfolding second_part below
child_name visible dir =
    if visible == root
    then second_part dir
    else if above visible dir
    then below (strip_path dir visible)
    else none

add_name : Option Text → List Text → List Text
add_name none names = names
add_name (some name) names = if contains names name then names else names ++ (name ∷ [])

add_child_names : List FallbackRoot → FilePath → List Text → List Text
unfolding child_name add_name
add_child_names [] visible names = names
add_child_names (r ∷ roots) visible names =
    add_child_names roots visible (add_name (child_name visible r.visible) names)

unfoldable pub child_names : List FallbackRoot → FilePath → List Text
unfolding add_child_names
child_names roots visible = add_child_names roots visible []

unfoldable pub find_root : List FallbackRoot → FilePath → Option FallbackRoot
find_root [] visible = none
find_root (r ∷ roots) visible =
    let rest = find_root roots visible in if within visible r.visible then some r else rest

unfoldable pub is_found : {A : Type 0} → Io A → Bool
is_found (done a) = true
is_found not_found = false
is_found (failed e) = false

inside : FilePath → FallbackRoot → Io FilePath → Option FilePath
inside visible r (done real) = if within real r.real then some visible else none
inside visible r not_found = none
inside visible r (failed e) = none

inside_root : (H : Host) → H.State → FilePath → Option FallbackRoot → Option FilePath
unfolding inside is_found
inside_root H s visible none = none
inside_root H s visible (some r) =
    if is_found (H.metadata s visible) then inside visible r (H.canonicalize s visible) else none

-- `FallbackRoots::path`
unfoldable pub fallback : (H : Host) → List FallbackRoot → H.State → FilePath → Option FilePath
unfolding inside_root
fallback H roots s visible = inside_root H s visible (find_root roots visible)

unfoldable pub special : Io Metadata → Io Bool
special (done m) =
    done (elim m.file_type [ regular ↦ false | directory ↦ false | symlink ↦ false | other ↦ true ])
special not_found = not_found
special (failed e) = failed e

unfoldable pub fallback_is_special_file : (H : Host) → H.State → FilePath → Io Bool
unfolding special
fallback_is_special_file H s path = special (H.symlink_metadata s path)
