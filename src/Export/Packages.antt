-- ===== src/Export/Packages.antt =====
-- `package_versions` and `dpkg_delta` of crates/agent-core/src/export.rs, on the texts of the manifests.
pub mod Laws
use ipa_rs_agent_controller.Common.{
  Bool, true, false, Option, none, some, List, [], ◌∷◌, ◌++◌, ◌==◌, list_eq, nat_eq, if◌then◌else◌,
}
use ipa_rs_agent_controller.Common.Text.{Text, text, lines, split_whitespace}
use ipa_rs_agent_controller.Common.Dict.{lookup}
use ipa_rs_agent_controller.Common.Sort.{text_le}

abbrev pub Packages : Type 0
Packages = List (Text × Text)

-- `BTreeMap::insert`: the keys stay in order.
unfoldable pub insert : Text → Text → Packages → Packages
insert k v [] = (k, v) ∷ []
insert k v ((j, w) ∷ m) =
    let rest = insert k v m in
    if k == j then (k, v) ∷ m else if text_le k j then (k, v) ∷ (j, w) ∷ m else (j, w) ∷ rest

-- A line is a name, and a version if there is one.
add_line : List Text → Packages → Packages
add_line [] m = m
add_line (name ∷ []) m = insert name (text "unknown") m
add_line (name ∷ version ∷ _) m = insert name version m

add_lines : List Text → Packages → Packages
add_lines [] m = m
add_lines (line ∷ rest) m = add_lines rest (add_line (split_whitespace line) m)

unfoldable pub package_versions : Text → Packages
unfolding add_line add_lines
package_versions contents = add_lines (lines contents) []

-- What the first loop writes of one package of the environment.
unfoldable pub changed_line : Option Text → Text → Text → Text
changed_line none pkg version = text "installed " ++ (pkg ++ (text " " ++ (version ++ text "\n")))
changed_line (some base_version) pkg version =
    if base_version == version
    then []
    else text "upgraded "
      ++ (pkg ++ (text " " ++ (base_version ++ (text " -> " ++ (version ++ text "\n")))))

unfoldable pub removed_line : Option Text → Text → Text → Text
removed_line none pkg version = text "removed " ++ (pkg ++ (text " " ++ (version ++ text "\n")))
removed_line (some _) pkg version = []

changed_lines : Packages → Packages → Text
changed_lines base [] = []
changed_lines base ((pkg, version) ∷ env) =
    changed_line (lookup pkg base) pkg version ++ changed_lines base env

removed_lines : Packages → Packages → Text
removed_lines env [] = []
removed_lines env ((pkg, version) ∷ base) =
    removed_line (lookup pkg env) pkg version ++ removed_lines env base

unfoldable pub delta : Packages → Packages → Text
unfolding changed_lines removed_lines
delta base env = changed_lines base env ++ removed_lines env base
