-- ===== src/OverlayFs/Directory/Yields.antt =====
-- Actions that only look, and what they answer: the rules, and the steps of `merged_dir_entries` of
-- crates/agent-overlayfs/src/main.rs.
use ipa_rs_agent_controller.Common.{
  ◌≡◌, refl, ◌∙◌, ap, Bool, true, false, not, Option, none, some, List, [], ◌∷◌, ok, ◌==◌, list_eq,
  nat_eq, arith, if◌then◌else◌,
}
use ipa_rs_agent_controller.Common.Text.{Text}
use ipa_rs_agent_controller.Path.{FilePath, component_eq}
use ipa_rs_agent_controller.Host.{Host, FileType, regular}
use ipa_rs_agent_controller.Host.Effect.{World, M}
use ipa_rs_agent_controller.Host.Keeps.{Keeps as Kept, keeps_rules, Keeps-exists, Keeps-read}
use ipa_rs_agent_controller.Overlay.Reading.{whiteout_exists-Keeps}
use ipa_rs_agent_controller.Overlay.{whiteout_exists}
use ipa_rs_agent_controller.Reflink.{is_dir}
use ipa_rs_agent_controller.OverlayFs.Fallback.{root, contains_visible}
use ipa_rs_agent_controller.OverlayFs.Effect.{
  View, Fs, F, Errno, Answer, answered, refused, crashed, pure, refuse, lift, ◌>>=◌, try, asks,
  fold_each,
}
use ipa_rs_agent_controller.Common.{Result}
use ipa_rs_agent_controller.Host.Effect.{exists, read}
use ipa_rs_agent_controller.Overlay.Paths.{lower_path, upper_path}
use ipa_rs_agent_controller.OverlayFs.Lower.{or_eio-answered}
use ipa_rs_agent_controller.OverlayFs.Storage.{
  child, ready_file, overlay_visible_path, fallback_path,
}
use ipa_rs_agent_controller.OverlayFs.Directory.{
  insert_entry, entry_or_insert, dir_only, fuser_kind, kind_or_directory, fallback_entries_root,
  add_entry, add_dir, add_child, merged_dir_entries, first_roots,
}

-- The action leaves the world as it is, and what it answers has the property.
pub record Yields (H : Host) (w : World H) {A : Type 0} (Q : A → Type 0) (m : F H A) : Type 0 where
  pub at : (s : Fs H) → s.world ≡ w → ((m s).1.world ≡ w) × ((a : A) → (m s).0 ≡ answered a → Q a)

module _ {H : Host} {w : World H} where
  pub Yields-pure : {A : Type 0} {Q : A → Type 0} (a : A) → Q a → Yields H w Q (pure a)
  unfolding pure
  Yields-pure {A} {Q} a q = record {
    at = λ s e. (e, λ b h. let same : a ≡ b = ground arith in rw (← same) q);
  }

  Yields-refuse : {A : Type 0} {Q : A → Type 0} (x : Errno) → Yields H w Q (refuse x)
  unfolding refuse
  Yields-refuse x = record { at = λ s e. (e, λ b h. absurd (ground arith)) }

  Yields-lift :
      {A : Type 0} {Q : A → Type 0} (r : Answer A) → ((a : A) → Q a) → Yields H w Q (lift r)
  unfolding lift
  Yields-lift r q = record { at = λ s e. (e, λ a h. q a) }

  -- The answer is that of the check.
  Yields-checked : {A : Type 0} (r : Answer A) → Yields H w (λ a. r ≡ answered a) (lift r)
  unfolding lift
  Yields-checked r = record { at = λ s e. (e, λ a h. h) }

  Yields-asks :
      {A : Type 0} {Q : A → Type 0} (f : H.State → A) → ((a : A) → Q a) → Yields H w Q (asks f)
  unfolding asks
  Yields-asks f q = record { at = λ s e. (e, λ a h. q a) }

  Yields-answer :
      {A B : Type 0} (R : B → Type 0) (r : Answer A) (f : A → F H B) (s : Fs H)
      → s.world ≡ w
      → ((a : A) → r ≡ answered a → Yields H w R (f a))
      → (((lift r >>= f) s).1.world ≡ w) × ((b : B) → ((lift r >>= f) s).0 ≡ answered b → R b)
  unfolding ◌>>=◌ lift
  Yields-answer R (answered a) f s e k = (k a refl).at s e
  Yields-answer R (refused x) f s e k = (e, λ b h. absurd (ground arith))
  Yields-answer R (crashed x) f s e k = (e, λ b h. absurd (ground arith))

  pub Yields-bind :
      {A B : Type 0} (Q : A → Type 0) {R : B → Type 0} (m : F H A) (f : A → F H B)
      → Yields H w Q m
      → ((a : A) → Q a → Yields H w R (f a))
      → Yields H w R (m >>= f)
  unfolding ◌>>=◌ lift
  Yields-bind Q {R} m f first behind = record {
    at = λ s e.
        let (same, answers) = first.at s e in
        Yields-answer R (m s).0 f (m s).1 same (λ a h. behind a (answers a h));
  }

  Yields-try :
      {A : Type 0} (m : M H A)
      → Kept {H = H} (λ u. u ≡ w) m
      → Yields H w (λ a. (m w).0 ≡ ok a) (try m)
  unfolding try
  Yields-try m k = record {
    at = λ s e. (k.at s.world e, λ a h. rw (← e) (or_eio-answered (m s.world).0 a h));
  }

  pub Yields-fold_each :
      {A B : Type 0} (Q : B → Type 0) (l : List A) (b : B) (f : A → B → F H B)
      → Q b
      → ((a : A) (c : B) → Q c → Yields H w Q (f a c))
      → Yields H w Q (fold_each l b f)
  unfolding fold_each
  Yields-fold_each Q [] b f q k = Yields-pure b q
  Yields-fold_each Q (a ∷ l) b f q k =
      Yields-bind Q (f a b) _ (k a b q) λ c qc. Yields-fold_each Q l c f qc k

  Yields-if :
      {A : Type 0} {Q : A → Type 0} (b : Bool) (m n : F H A)
      → Yields H w Q m
      → Yields H w Q n
      → Yields H w Q (if b then m else n)
  Yields-if true m n k l = k
  Yields-if false m n k l = l

  Yields-cases :
      {A : Type 0} {Q : A → Type 0} (b : Bool) (m n : F H A)
      → (b ≡ true → Yields H w Q m)
      → (b ≡ false → Yields H w Q n)
      → Yields H w Q (if b then m else n)
  Yields-cases true m n k l = k refl
  Yields-cases false m n k l = l refl

module _ {H : Host} (w : World H) where
  abbrev Reads : {A : Type 0} → F H A → Type 0
  Reads m = Yields H w (λ _. Unit {0}) m

  fuser_kind-Reads : (p : FilePath) → Reads (fuser_kind p)
  unfolding fuser_kind
  fuser_kind-Reads p =
      Yields-bind _ _ _
        (Yields-bind (λ _. Unit {0}) _ _ (Yields-asks _ (λ _. tt)) λ r _. Yields-lift _ (λ _. tt))
        λ m _. Yields-pure _ tt

  kind_or_directory-Reads : (o : Option FilePath) → Reads (kind_or_directory o)
  unfolding kind_or_directory
  kind_or_directory-Reads none = Yields-pure _ tt
  kind_or_directory-Reads (some p) = fuser_kind-Reads p

  is_dir-Still : (p : FilePath) → Kept {H = H} (λ u. u ≡ w) (is_dir p)
  unfolding is_dir
  is_dir-Still p = search (keeps_rules)

  dir_only-Reads : (o : Option FilePath) → Reads (dir_only o)
  unfolding dir_only
  dir_only-Reads none = Yields-pure _ tt
  dir_only-Reads (some p) =
      Yields-bind _ _ _ (Yields-try _ (is_dir-Still p)) λ is_directory _. Yields-pure _ tt

  module _ (v : View) where
    fallback_path-Reads : (p : FilePath) → Reads (fallback_path v p)
    unfolding fallback_path
    fallback_path-Reads p = Yields-asks _ (λ _. tt)

    fallback_entries_root-Reads : (p : FilePath) → Reads (fallback_entries_root v p)
    unfolding fallback_entries_root
    fallback_entries_root-Reads p = Yields-if (p == root) _ _ (Yields-pure none tt) (
        Yields-if (not (contains_visible v.fallback_roots p)) _ _ (Yields-pure none tt)
          (Yields-bind _ _ _ (fallback_path-Reads p) λ found _. dir_only-Reads found))

module _ {H : Host} (v : View) (visible : FilePath) (w : World H)
    (Q : List (Text × FileType) → Type 0) where
  abbrev hidden : Text → Result Bool
  hidden name = (whiteout_exists v.overlay (child visible name) w).0

  -- An entry of a layer is put in where no whiteout hides it.
  pub add_entry-Yields :
      (dir : FilePath) (name : Text) (entries : List (Text × FileType))
      → (hidden name ≡ ok true → Q entries)
      → ((kind : FileType) → hidden name ≡ ok false → Q (insert_entry name kind entries))
      → Yields H w Q (add_entry v visible dir name entries)
  unfolding add_entry
  add_entry-Yields dir name entries old new =
      Yields-bind _ _ _ (Yields-try _ (whiteout_exists-Keeps _ v.overlay (child visible name)))
        λ hides e.
          Yields-cases hides _ _ (λ t. Yields-pure _ (old (e ∙ ap ok t)))
            λ f.
              Yields-bind _ _ _ (fuser_kind-Reads w _)
                λ kind _. Yields-pure _ (new kind (e ∙ ap ok f))

  -- The entries of a directory are put in one after the other, where it exists.
  pub add_dir-Yields :
      (dir : FilePath) (entries : List (Text × FileType))
      → ((exists {H = H} dir w).0 ≡ ok false → Q entries)
      → ((names : List Text)
          → (read (λ s. H.read_dir s dir) w).0 ≡ ok names
          → Yields H w Q (fold_each names entries (add_entry v visible dir)))
      → Yields H w Q (add_dir v visible dir entries)
  unfolding add_dir
  add_dir-Yields dir entries absent found =
      Yields-bind _ _ _ (Yields-try _ (Keeps-exists dir)) λ present e.
        Yields-cases (not present) _ _ (λ t. Yields-pure _ (absent (ground arith)))
          λ _. Yields-bind _ _ _ (Yields-try _ (is_dir-Still w dir)) λ is_directory _.
            Yields-cases (not is_directory) _ _ (λ _. Yields-refuse _)
              λ _. Yields-bind _ _ _ (Yields-try _ (Keeps-read _)) λ names h. found names h

  pub add_child-Yields :
      (name : Text) (entries : List (Text × FileType))
      → Q entries
      → ((kind : FileType) → hidden name ≡ ok false → Q (entry_or_insert name kind entries))
      → Yields H w Q (add_child v visible name entries)
  unfolding add_child
  add_child-Yields name entries old new =
      Yields-bind _ _ _ (Yields-try _ (whiteout_exists-Keeps _ v.overlay (child visible name)))
        λ hides e.
          Yields-cases hides _ _ (λ _. Yields-pure _ old)
            λ f. Yields-bind _ _ _ (fallback_path-Reads w v _) λ found _.
              Yields-bind _ _ _ (kind_or_directory-Reads w found)
                λ kind _. Yields-pure _ (new kind (e ∙ ap ok f))

if-both : {A : Type 0} (Q : A → Type 0) {x y : A} (b : Bool) → Q x → Q y → Q (if b then x else y)
if-both Q true q r = q
if-both Q false q r = r

-- The layers, then the file that says that the view is ready, then the directories above fallback roots.
pub merged_dir_entries-Yields :
    {H : Host} (v : View) (mount_path : FilePath) (w : World H)
    (Q : List (Text × FileType) → Type 0)
    → ((fallback_root : Option FilePath) (lower upper : FilePath)
        → lower_path v.overlay (overlay_visible_path v mount_path) ≡ ok lower
        → upper_path v.overlay (overlay_visible_path v mount_path) ≡ ok upper
        → Yields H w Q (
            fold_each
              (first_roots fallback_root (lower ∷ upper ∷ []))
              []
              (add_dir v (overlay_visible_path v mount_path))))
    → ((entries : List (Text × FileType)) → Q entries → Q (insert_entry ready_file regular entries))
    → ((name : Text) (entries : List (Text × FileType))
        → Q entries
        → Yields H w Q (add_child v (overlay_visible_path v mount_path) name entries))
    → Yields H w Q (merged_dir_entries v mount_path)
unfolding merged_dir_entries
merged_dir_entries-Yields v mount_path w Q layers ready above =
    Yields-bind _ _ _ (fallback_entries_root-Reads w v _) λ fallback_root _.
      Yields-bind _ _ _ (Yields-checked _) λ lower l.
        Yields-bind _ _ _ (Yields-checked _) λ upper u.
          Yields-bind _ _ _
            (layers fallback_root lower upper (or_eio-answered _ lower l)
              (or_eio-answered _ upper u))
            λ stored q.
              Yields-fold_each Q _ _ _ (if-both Q (mount_path == root) (ready stored q) q)
                (λ name entries k. above name entries k)
