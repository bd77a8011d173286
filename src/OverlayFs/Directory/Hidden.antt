-- ===== src/OverlayFs/Directory/Hidden.antt =====
-- A hidden name is not listed: `merged_dir_entries` of crates/agent-overlayfs/src/main.rs.
use ipa_rs_agent_controller.Common.{
  ◌≡◌, refl, ◌⊎◌, inl, inr, Bool, true, false, none, some, List, [], ◌∷◌, ok, ◌==◌, list_eq, nat_eq,
  if◌then◌else◌,
}
use ipa_rs_agent_controller.Common.Lists.{All}
use ipa_rs_agent_controller.Common.Dict.{lookup}
use ipa_rs_agent_controller.Common.Sort.{text_le}
use ipa_rs_agent_controller.Common.Text.{Text}
use ipa_rs_agent_controller.Path.{FilePath, component_eq}
use ipa_rs_agent_controller.Host.{Host, FileType, regular}
use ipa_rs_agent_controller.Host.Effect.{World}
use ipa_rs_agent_controller.Overlay.{whiteout_exists}
use ipa_rs_agent_controller.OverlayFs.Effect.{View, Fs, answered}
use ipa_rs_agent_controller.OverlayFs.Storage.{child, ready_file, overlay_visible_path}
use ipa_rs_agent_controller.OverlayFs.Directory.{
  insert_entry, entry_or_insert, add_entry, add_dir, add_child, merged_dir_entries,
}
use ipa_rs_agent_controller.OverlayFs.Directory.Yields.{
  Yields, Yields-fold_each, add_entry-Yields, add_dir-Yields, add_child-Yields,
  merged_dir_entries-Yields,
}

All-if :
    {A : Type 0} (P : A → Type 0) (b : Bool) (l m : List A)
    → All P l
    → All P m
    → All P (if b then l else m)
All-if P true l m h k = h
All-if P false l m h k = k

-- What holds of the entries and of a new one holds after it was put in.
insert_entry-All :
    (P : Text × FileType → Type 0) (name : Text) (kind : FileType) (l : List (Text × FileType))
    → P (name, kind)
    → All P l
    → All P (insert_entry name kind l)
unfolding insert_entry
insert_entry-All P name kind [] q h = (q, tt)
insert_entry-All P name kind ((n, k) ∷ l) q (p, h) =
    let rest = insert_entry-All P name kind l q h in
    All-if P (name == n) _ _ (q, h) (All-if P (text_le name n) _ _ (q, (p, h)) (p, rest))

entry_or_insert-All :
    (P : Text × FileType → Type 0) (name : Text) (kind : FileType) (l : List (Text × FileType))
    → P (name, kind)
    → All P l
    → All P (entry_or_insert name kind l)
unfolding entry_or_insert
entry_or_insert-All P name kind l q h =
    elim (lookup name l)
      as (λ o. All P (elim o [ some old ↦ l | none ↦ insert_entry name kind l ])) [
        | some old ↦ h
        | none ↦ insert_entry-All P name kind l q h
      ]

module _ {H : Host} (v : View) (visible : FilePath) (w : World H) where
  -- The name is not hidden by a whiteout, or it is the file that says that the view is ready.
  abbrev pub Shown : Text × FileType → Type 0
  Shown e = ((whiteout_exists v.overlay (child visible e.0) w).0 ≡ ok false) ⊎ (e.0 ≡ ready_file)

  add_entry-Shown :
      (dir : FilePath) (name : Text) (entries : List (Text × FileType))
      → All Shown entries
      → Yields H w (All Shown) (add_entry v visible dir name entries)
  add_entry-Shown dir name entries h =
      add_entry-Yields v visible w (All Shown) dir name entries (λ _. h)
        (λ kind e. insert_entry-All Shown name kind entries (inl e) h)

  add_dir-Shown :
      (dir : FilePath) (entries : List (Text × FileType))
      → All Shown entries
      → Yields H w (All Shown) (add_dir v visible dir entries)
  add_dir-Shown dir entries h =
      add_dir-Yields v visible w (All Shown) dir entries (λ _. h)
        λ names _.
          Yields-fold_each (All Shown) names entries _ h (λ name l k. add_entry-Shown dir name l k)

  add_child-Shown :
      (name : Text) (entries : List (Text × FileType))
      → All Shown entries
      → Yields H w (All Shown) (add_child v visible name entries)
  add_child-Shown name entries h =
      add_child-Yields v visible w (All Shown) name entries h
        (λ kind e. entry_or_insert-All Shown name kind entries (inl e) h)

merged_dir_entries-Shown :
    {H : Host} (v : View) (mount_path : FilePath) (w : World H)
    → Yields H w
        (All (Shown v (overlay_visible_path v mount_path) w))
        (merged_dir_entries v mount_path)
merged_dir_entries-Shown v mount_path w =
    let visible = overlay_visible_path v mount_path in
    merged_dir_entries-Yields v mount_path w (All (Shown v visible w))
      (λ fallback_root lower upper _ _.
        Yields-fold_each (All (Shown v visible w)) _ [] _ tt
          (λ dir l h. add_dir-Shown v visible w dir l h))
      (λ entries h. insert_entry-All (Shown v visible w) ready_file regular entries (inr refl) h)
      (λ name entries h. add_child-Shown v visible w name entries h)

-- Where a directory is read with success, the world is as it was before, and each name that is listed is not
-- hidden by a whiteout in that directory, or is the name of the file that says that the view is ready: a
-- name that a whiteout hides is in no listing, whichever layer or part of the system has it.
pub merged_dir_entries-shown :
    {H : Host} (v : View) (mount_path : FilePath) (s : Fs H) (entries : List (Text × FileType))
    → (merged_dir_entries v mount_path s).0 ≡ answered entries
    → ((merged_dir_entries v mount_path s).1.world ≡ s.world)
      × All (Shown v (overlay_visible_path v mount_path) s.world) entries
merged_dir_entries-shown v mount_path s entries e =
    let (same, shown) = (merged_dir_entries-Shown v mount_path s.world).at s refl in
    (same, shown entries e)
