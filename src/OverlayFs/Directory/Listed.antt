-- ===== src/OverlayFs/Directory/Listed.antt =====
-- What the layers have and no whiteout hides is listed: `merged_dir_entries` of
-- crates/agent-overlayfs/src/main.rs.
use ipa_rs_agent_controller.Common.{
  ◌≡◌, refl, ◌⊎◌, inl, inr, Bool, true, false, ◌||◌, Option, none, some, List, [], ◌∷◌, ok, Result,
  Eq, ◌==◌, ==_refl, contains, list_eq, nat_eq, arith, Bool-cases,
}
use ipa_rs_agent_controller.Common.Dict.{lookup}
use ipa_rs_agent_controller.Common.Text.{Text}
use ipa_rs_agent_controller.Path.{FilePath, component_eq}
use ipa_rs_agent_controller.Host.{Host, FileType, done}
use ipa_rs_agent_controller.Host.Effect.{World, exists}
use ipa_rs_agent_controller.Host.Steps.{read-ok}
use ipa_rs_agent_controller.Overlay.{whiteout_exists}
use ipa_rs_agent_controller.Overlay.Paths.{lower_path, upper_path}
use ipa_rs_agent_controller.OverlayFs.Effect.{View, Fs, F, answered, fold_each}
use ipa_rs_agent_controller.OverlayFs.Storage.{child, overlay_visible_path}
use ipa_rs_agent_controller.OverlayFs.Directory.{
  insert_entry, entry_or_insert, first_roots, add_entry, add_dir, add_child, merged_dir_entries,
}
use ipa_rs_agent_controller.OverlayFs.Directory.Yields.{
  Yields, Yields-bind, Yields-fold_each, add_entry-Yields, add_dir-Yields, add_child-Yields,
  merged_dir_entries-Yields,
}

unfoldable pub is_listed : Text → List (Text × FileType) → Bool
is_listed name [] = false
is_listed name ((n, kind) ∷ entries) = name == n || is_listed name entries

insert_entry-listed :
    (name : Text) (kind : FileType) (l : List (Text × FileType))
    → is_listed name (insert_entry name kind l) ≡ true
unfolding insert_entry is_listed
insert_entry-listed name kind [] = ground (arith, ==_refl name)
insert_entry-listed name kind ((n, k) ∷ l) =
    ground (arith, ==_refl name, insert_entry-listed name kind l)

insert_entry-keeps :
    (name n : Text) (kind : FileType) (l : List (Text × FileType))
    → is_listed name l ≡ true
    → is_listed name (insert_entry n kind l) ≡ true
unfolding insert_entry is_listed
insert_entry-keeps name n kind [] h = absurd (ground arith)
insert_entry-keeps name n kind ((m, k) ∷ l) h = ground (arith, insert_entry-keeps name n kind l)

entry_or_insert-keeps :
    (name n : Text) (kind : FileType) (l : List (Text × FileType))
    → is_listed name l ≡ true
    → is_listed name (entry_or_insert n kind l) ≡ true
unfolding entry_or_insert
entry_or_insert-keeps name n kind l h =
    elim (lookup n l)
      as (λ o. is_listed name (elim o [ some old ↦ l | none ↦ insert_entry n kind l ]) ≡ true) [
        | some old ↦ h
        | none ↦ insert_entry-keeps name n kind l h
      ]

in_pair :
    (lower upper dir : FilePath)
    → (dir ≡ lower) ⊎ (dir ≡ upper)
    → contains (lower ∷ upper ∷ []) dir ≡ true
unfolding contains
in_pair lower upper dir (inl e) = rw e (ground (arith, ==_refl lower))
in_pair lower upper dir (inr e) = rw e (ground (arith, ==_refl upper))

in_layers :
    (fallback_root : Option FilePath) (lower upper dir : FilePath)
    → (dir ≡ lower) ⊎ (dir ≡ upper)
    → contains (first_roots fallback_root (lower ∷ upper ∷ [])) dir ≡ true
unfolding first_roots contains
in_layers none lower upper dir layer = in_pair lower upper dir layer
in_layers (some root) lower upper dir layer = ground (arith, in_pair lower upper dir layer)

-- A loop in which one of the elements brings about what the others keep.
fold_each-reaches :
    {H : Host} {w : World H} {A B : Type 0} ⦃e : Eq A⦄ (Q : B → Type 0) (l : List A) (a : A) (b : B)
    (f : A → B → F H B)
    → contains l a ≡ true
    → ((c : B) → Yields H w Q (f a c))
    → ((x : A) (c : B) → Yields H w (λ _. Unit {0}) (f x c))
    → ((x : A) (c : B) → Q c → Yields H w Q (f x c))
    → Yields H w Q (fold_each l b f)
unfolding fold_each contains
fold_each-reaches Q [] a b f h new any keep = absurd (ground arith)
fold_each-reaches Q (x ∷ l) a b f h new any keep = elim (Bool-cases (a == x)) [
  | inl t ↦
      let same : a ≡ x = ground arith in
      Yields-bind Q _ _ (rw (← same) (new b)) λ c q. Yields-fold_each Q l c f q keep
  | inr t ↦
      Yields-bind _ _ _ (any x b) λ c _. fold_each-reaches Q l a c f (ground arith) new any keep
]

module _ {H : Host} (v : View) (visible : FilePath) (w : World H) (name : Text) where
  abbrev Listed : List (Text × FileType) → Type 0
  Listed entries = is_listed name entries ≡ true

  add_entry-any :
      (dir : FilePath) (n : Text) (entries : List (Text × FileType))
      → Yields H w (λ _. Unit {0}) (add_entry v visible dir n entries)
  add_entry-any dir n entries = add_entry-Yields v visible w _ dir n entries (λ _. tt) (λ _ _. tt)

  add_entry-keeps :
      (dir : FilePath) (n : Text) (entries : List (Text × FileType))
      → Listed entries
      → Yields H w Listed (add_entry v visible dir n entries)
  add_entry-keeps dir n entries h =
      add_entry-Yields v visible w Listed dir n entries (λ _. h)
        (λ kind _. insert_entry-keeps name n kind entries h)

  add_dir-any :
      (dir : FilePath) (entries : List (Text × FileType))
      → Yields H w (λ _. Unit {0}) (add_dir v visible dir entries)
  add_dir-any dir entries =
      add_dir-Yields v visible w _ dir entries (λ _. tt)
        λ names _. Yields-fold_each _ names entries _ tt (λ n l _. add_entry-any dir n l)

  add_dir-keeps :
      (dir : FilePath) (entries : List (Text × FileType))
      → Listed entries
      → Yields H w Listed (add_dir v visible dir entries)
  add_dir-keeps dir entries h =
      add_dir-Yields v visible w Listed dir entries (λ _. h)
        λ names _. Yields-fold_each Listed names entries _ h (λ n l k. add_entry-keeps dir n l k)

  add_child-keeps :
      (n : Text) (entries : List (Text × FileType))
      → Listed entries
      → Yields H w Listed (add_child v visible n entries)
  add_child-keeps n entries h =
      add_child-Yields v visible w Listed n entries h
        (λ kind _. entry_or_insert-keeps name n kind entries h)

  module _ (shown : (whiteout_exists v.overlay (child visible name) w).0 ≡ ok false) where
    add_entry-lists :
        (dir : FilePath) (entries : List (Text × FileType))
        → Yields H w Listed (add_entry v visible dir name entries)
    add_entry-lists dir entries =
        add_entry-Yields v visible w Listed dir name entries
          (λ t. absurd (ground (arith, shown, t))) (λ kind _. insert_entry-listed name kind entries)

    add_dir-lists :
        (dir : FilePath) (names : List Text) (entries : List (Text × FileType))
        → (exists {H = H} dir w).0 ≡ ok true
        → H.read_dir w.os dir ≡ done names
        → contains names name ≡ true
        → Yields H w Listed (add_dir v visible dir entries)
    add_dir-lists dir names entries present listing has =
        add_dir-Yields v visible w Listed dir entries (λ t. absurd (ground (arith, present, t)))
          λ found e.
            let same : names ≡ found = ground (arith, read-ok (λ s. H.read_dir s dir) w found e) in
            fold_each-reaches Listed found name entries _ (rw (← same) has)
              (λ l. add_entry-lists dir l) (λ n l. add_entry-any dir n l)
              (λ n l k. add_entry-keeps dir n l k)

    layers-list :
        (fallback_root : Option FilePath) (lower upper dir : FilePath) (names : List Text)
        → (dir ≡ lower) ⊎ (dir ≡ upper)
        → (exists {H = H} dir w).0 ≡ ok true
        → H.read_dir w.os dir ≡ done names
        → contains names name ≡ true
        → Yields H w Listed
            (fold_each (first_roots fallback_root (lower ∷ upper ∷ [])) [] (add_dir v visible))
    layers-list fallback_root lower upper dir names layer present listing has =
        fold_each-reaches Listed _ dir [] _ (in_layers fallback_root lower upper dir layer)
          (λ l. add_dir-lists dir names l present listing has) (λ d l. add_dir-any d l)
          (λ d l k. add_dir-keeps d l k)

is_layer :
    (lower upper dir : FilePath) (at_lower at_upper : Result FilePath)
    → (at_lower ≡ ok dir) ⊎ (at_upper ≡ ok dir)
    → at_lower ≡ ok lower
    → at_upper ≡ ok upper
    → (dir ≡ lower) ⊎ (dir ≡ upper)
is_layer lower upper dir at_lower at_upper (inl e) l u = inl (ground arith)
is_layer lower upper dir at_lower at_upper (inr e) l u = inr (ground arith)

module _ {H : Host} (v : View) (mount_path : FilePath) (s : Fs H)
    (entries : List (Text × FileType)) where
  abbrev visible : FilePath
  visible = overlay_visible_path v mount_path

  -- Where a directory is read with success, and one of the two layers has it as a directory with an entry that no
  -- whiteout hides, the entry is listed, whatever the other layer and the parts of the system have.
  pub merged_dir_entries-lists :
      (dir : FilePath) (names : List Text) (name : Text)
      → (lower_path v.overlay visible ≡ ok dir) ⊎ (upper_path v.overlay visible ≡ ok dir)
      → (exists {H = H} dir s.world).0 ≡ ok true
      → H.read_dir s.world.os dir ≡ done names
      → contains names name ≡ true
      → (whiteout_exists v.overlay (child visible name) s.world).0 ≡ ok false
      → (merged_dir_entries v mount_path s).0 ≡ answered entries
      → is_listed name entries ≡ true
  merged_dir_entries-lists dir names name layer present listing has shown answers =
      let listed =
        merged_dir_entries-Yields v mount_path s.world (λ l. is_listed name l ≡ true)
          (λ fallback_root lower upper l u.
            layers-list v visible s.world name shown fallback_root lower upper dir names
              (is_layer lower upper dir _ _ layer l u) present listing has)
          (λ l h. insert_entry-keeps name _ _ l h)
          (λ n l h. add_child-keeps v visible s.world name n l h) in
      (listed.at s refl).1 entries answers
