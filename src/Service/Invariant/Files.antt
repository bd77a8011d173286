-- ===== src/Service/Invariant/Files.antt =====
-- Which changes of files keep the stored metadata valid.
use ipa_rs_agent_controller.Common.{
  ℕ, ◌≡◌, ◌≢◌, refl, sym, ◌∙◌, Bool, true, false, not, ◌&&◌, [], ◌∷◌, ◌++◌, arith, eqb, ◌==◌,
  list_eq, nat_eq,
}
use ipa_rs_agent_controller.Common.Lists.{snoc-injective}
use ipa_rs_agent_controller.Common.Text.{Text, text}
use ipa_rs_agent_controller.Path.{FilePath, normal, ◌/◌, component_eq}
use ipa_rs_agent_controller.Path.Laws.{IsName, no_slash, undotted-IsName, append_name}
use ipa_rs_agent_controller.Host.{
  Host, Change, create_dir_all, create, create_new, open_append, write_all, sync_all, open_dir,
  rename, reflink, remove_file, remove_dir_all, make_symlink, set_permissions, sleep, touches,
}
use ipa_rs_agent_controller.Host.Lawful.{Reads}
use ipa_rs_agent_controller.Storage.Ids.{is_valid_id}
use ipa_rs_agent_controller.Storage.Layout.{Layout, env_dir}
use ipa_rs_agent_controller.Storage.Files.{tmp_name}
use ipa_rs_agent_controller.Storage.Files.Temporary.{beside, tmp_name-dotted}
use ipa_rs_agent_controller.Storage.Records.{env_meta}
use ipa_rs_agent_controller.Storage.Records.Laws.{env_meta-name}
use ipa_rs_agent_controller.Service.Invariant.{Trusted}

-- The path is that of no environment's metadata.
pub record Other (l : Layout) (p : FilePath) : Type 0 where
  pub apart : (id : Text) → is_valid_id id ≡ true → env_meta l id ≢ p

-- A file name, and not that of the metadata.
abbrev pub other_name : Text → Bool
other_name [] = false
other_name (c ∷ s) = no_slash (c ∷ s) && (not (eqb c b'.') && not ((c ∷ s) == text "meta.json"))

pub other_name-IsName : (n : Text) → other_name n ≡ true → IsName n
other_name-IsName [] h = absurd (ground arith)
other_name-IsName (c ∷ s) h = undotted-IsName c s (ground arith) (ground arith)

other_name-other : (n : Text) → other_name n ≡ true → n ≢ text "meta.json"
other_name-other [] h e = absurd (ground arith)
other_name-other (c ∷ s) h e = absurd (ground arith)

pub snoc-Other :
    (l : Layout) (d : FilePath) (n : Text) → n ≢ text "meta.json" → Other l (d ++ (normal n ∷ []))
snoc-Other l d n h = record {
  apart = λ id v e.
      let (_, same) =
        snoc-injective (env_dir l id) d (normal (text "meta.json")) (normal n)
          (sym (env_meta-name l id) ∙ e) in
      h (ground arith);
}

-- The path ends in a file name.
pub record Named (p : FilePath) : Type 0 where
  pub dir : FilePath
  pub name : Text
  pub shape : p ≡ dir ++ (normal name ∷ [])
  pub named : IsName name

pub Named-join : (d : FilePath) (n : Text) → IsName n → Named (d / n)
Named-join d n h = record { dir = d; name = n; shape = append_name d n h; named = h }

-- A file with another name, in whatever directory.
pub join-Other : (l : Layout) (d : FilePath) (n : Text) → other_name n ≡ true → Other l (d / n)
join-Other l d n h =
    rw (append_name d n (other_name-IsName n h)) (snoc-Other l d n (other_name-other n h))

-- The temporary file beside a named file: its name has a dot first.
pub tmp-Other :
    (l : Layout) (process_id : ℕ) (d : FilePath) (n : Text) (counter : ℕ)
    → IsName n
    → Other l (tmp_name process_id (d ++ (normal n ∷ [])) counter)
unfolding text
tmp-Other l process_id d n counter h =
    rw (tmp_name-dotted process_id d n counter h)
      (snoc-Other l d (b'.' ∷ beside process_id n counter) (λ e. absurd (ground arith)))

module _ {H : Host} (l : Layout) (trusted : Trusted H l) where
  -- The change adds nothing to the metadata of environments.
  pub record Quiet (c : Change) : Type 0 where
    pub adds_nothing :
        (id t : Text) (s : H.State)
        → is_valid_id id ≡ true
        → Reads H (H.perform c s).1 (env_meta l id) t
        → Reads H s (env_meta l id) t

  pub untouched-Quiet :
      (c : Change)
      → ((id : Text) → is_valid_id id ≡ true → touches c (env_meta l id) ≡ false)
      → Quiet c
  untouched-Quiet c h = record {
    adds_nothing = λ id t s v r. trusted.files.adds_nothing c s (env_meta l id) t (h id v) r;
  }

  apart-== :
      (p : FilePath) (o : Other l p) (id : Text)
      → is_valid_id id ≡ true
      → (env_meta l id == p) ≡ false
  apart-== p o id v = ground (arith, o.apart id v)

  pub Quiet-create_dir_all : (p : FilePath) → Quiet (create_dir_all p)
  unfolding touches
  Quiet-create_dir_all p = untouched-Quiet (create_dir_all p) (λ id v. refl)

  pub Quiet-sync_all : (p : FilePath) → Quiet (sync_all p)
  unfolding touches
  Quiet-sync_all p = untouched-Quiet (sync_all p) (λ id v. refl)

  pub Quiet-open_dir : (p : FilePath) → Quiet (open_dir p)
  unfolding touches
  Quiet-open_dir p = untouched-Quiet (open_dir p) (λ id v. refl)

  pub Quiet-set_permissions : (p : FilePath) (mode : ℕ) → Quiet (set_permissions p mode)
  unfolding touches
  Quiet-set_permissions p mode = untouched-Quiet (set_permissions p mode) (λ id v. refl)

  pub Quiet-sleep : (ms : ℕ) → Quiet (sleep ms)
  unfolding touches
  Quiet-sleep ms = untouched-Quiet (sleep ms) (λ id v. refl)

  pub Quiet-create : (p : FilePath) → Other l p → Quiet (create p)
  unfolding touches
  Quiet-create p o = untouched-Quiet (create p) (apart-== p o)

  pub Quiet-create_new : (p : FilePath) → Other l p → Quiet (create_new p)
  unfolding touches
  Quiet-create_new p o = untouched-Quiet (create_new p) (apart-== p o)

  pub Quiet-open_append : (p : FilePath) → Other l p → Quiet (open_append p)
  unfolding touches
  Quiet-open_append p o = untouched-Quiet (open_append p) (apart-== p o)

  pub Quiet-write_all : (p : FilePath) (t : Text) → Other l p → Quiet (write_all p t)
  unfolding touches
  Quiet-write_all p t o = untouched-Quiet (write_all p t) (apart-== p o)

  pub Quiet-reflink : (a b : FilePath) → Other l b → Quiet (reflink a b)
  unfolding touches
  Quiet-reflink a b o = untouched-Quiet (reflink a b) (apart-== b o)

  pub Quiet-make_symlink : (t : Text) (p : FilePath) → Other l p → Quiet (make_symlink t p)
  unfolding touches
  Quiet-make_symlink t p o = untouched-Quiet (make_symlink t p) (apart-== p o)

  pub Quiet-rename : (a b : FilePath) → Other l a → Other l b → Quiet (rename a b)
  unfolding touches
  Quiet-rename a b oa ob =
      untouched-Quiet (rename a b) (λ id v. ground (arith, apart-== a oa id v, apart-== b ob id v))

  pub Quiet-remove_file : (p : FilePath) → Quiet (remove_file p)
  Quiet-remove_file p = record {
    adds_nothing = λ id t s v r. trusted.files.removed p (env_meta l id) t s r;
  }

  pub Quiet-remove_dir_all : (p : FilePath) → Quiet (remove_dir_all p)
  Quiet-remove_dir_all p = record {
    adds_nothing = λ id t s v r. trusted.files.removed_all p (env_meta l id) t s r;
  }
