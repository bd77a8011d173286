-- ===== src/Overlay/Paths/Laws.antt =====
-- Where a visible path is stored: below the root of the layer, by its names.
use ipa_rs_agent_controller.Common.{◌≡◌, refl, Bool, true, false, [], ◌∷◌, ◌++◌, arith, >>=-eq-ok}
use ipa_rs_agent_controller.Common.{ok}
use ipa_rs_agent_controller.Path.{FilePath, root_dir, cur_dir, parent_dir, normal, join_path}
use ipa_rs_agent_controller.Overlay.Paths.{
  names_of, absolute_path_as_overlay_relative, storage_path,
}

-- A path of names only.
abbrev pub plain : FilePath → Bool
plain [] = true
plain (normal s ∷ p) = plain p
plain (root_dir ∷ p) = false
plain (cur_dir ∷ p) = false
plain (parent_dir ∷ p) = false

names_of-plain : (whole p rel : FilePath) → names_of whole p ≡ ok rel → plain rel ≡ true
unfolding names_of
names_of-plain whole [] rel e = ground arith
names_of-plain whole (root_dir ∷ p) rel e = names_of-plain whole p rel e
names_of-plain whole (cur_dir ∷ p) rel e = names_of-plain whole p rel e
names_of-plain whole (parent_dir ∷ p) rel e = absurd (ground arith)
names_of-plain whole (normal s ∷ p) rel e =
    let (rest, r, same) = >>=-eq-ok (names_of whole p) _ e in
    ground (arith, names_of-plain whole p rest r)

pub join_path-plain : (p rel : FilePath) → plain rel ≡ true → join_path p rel ≡ p ++ rel
unfolding join_path
join_path-plain [] rel h = refl
join_path-plain (c ∷ p) [] h = refl
join_path-plain (c ∷ p) (normal s ∷ rel) h = refl
join_path-plain (c ∷ p) (root_dir ∷ rel) h = absurd (ground arith)
join_path-plain (c ∷ p) (cur_dir ∷ rel) h = absurd (ground arith)
join_path-plain (c ∷ p) (parent_dir ∷ rel) h = absurd (ground arith)

relative-plain :
    (v rel : FilePath) → absolute_path_as_overlay_relative v ≡ ok rel → plain rel ≡ true
unfolding absolute_path_as_overlay_relative
relative-plain v rel e = ground (arith, names_of-plain v v rel)

-- What is stored for a visible path in a layer: the names of the path behind the root.
pub storage_path-ok :
    (root v p : FilePath)
    → storage_path root v ≡ ok p
    → (rel : FilePath) × (absolute_path_as_overlay_relative v ≡ ok rel)
      × (plain rel ≡ true)
      × (p ≡ root ++ rel)
unfolding storage_path
storage_path-ok root v p e =
    let (rel, r, same) = >>=-eq-ok (absolute_path_as_overlay_relative v) _ e in
    let h = relative-plain v rel r in (rel, r, h, ground (arith, join_path-plain root rel h))
