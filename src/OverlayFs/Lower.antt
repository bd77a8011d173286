-- ===== src/OverlayFs/Lower.antt =====
-- Finding and preparing the stored file of a path uses calls that spare every directory that lies apart from the
-- upper layer and from the whiteouts.
pub mod Opening
pub mod Directory
pub mod Handlers
pub mod OpenFiles
use ipa_rs_agent_controller.OverlayFs.Looking.{fallback_path-Looks, storage_path_for_read-Looks}
use ipa_rs_agent_controller.Overlay.Reading.{resolve-Keeps}
use ipa_rs_agent_controller.Common.{
  ℕ, ◌≡◌, refl, sym, ap, ◌∙◌, ◌⊎◌, inl, inr, Bool, true, false, not, Option, none, some, List,
  arith,
}
use ipa_rs_agent_controller.Common.{Result, ok, err, panic}
use ipa_rs_agent_controller.Common.Text.{Text}
use ipa_rs_agent_controller.Path.{FilePath, parent}
use ipa_rs_agent_controller.Host.{
  Host, Io, done, not_found, failed, FileType, regular, directory, symlink, other, Change, create,
  create_dir_all,
}
use ipa_rs_agent_controller.Host.Effect as Act
use ipa_rs_agent_controller.Host.Keeps as World
use ipa_rs_agent_controller.Host.Keeps.{keeps_rules}
use ipa_rs_agent_controller.Host.Log.{Log, kind}
use ipa_rs_agent_controller.Host.Spared.{
  Away, Spared, Keeps-perform, Quiet, Quiet-create, Quiet-create_dir_all, Quiet-create_parent,
  Quiet-make_symlink, Quiet-copy, Quiet-set_permissions,
}
use ipa_rs_agent_controller.Overlay
use ipa_rs_agent_controller.Overlay.{OverlayLookup, found, whiteout, missing}
use ipa_rs_agent_controller.Overlay.Paths.{upper_path}
use ipa_rs_agent_controller.Overlay.Lower.{Apart, storage_path-Away, remove_whiteout-Safe}
use ipa_rs_agent_controller.OverlayFs.Effect.{
  View, Fs, F, Answer, answered, refused, crashed, or_eio, pure, lift, ◌>>=◌, ◌>>◌, try, asks,
}
use ipa_rs_agent_controller.OverlayFs.Keeps.{
  Keeps, Keeps-pure, Keeps-bind, Keeps-bind_lift, Keeps-bind_answer, Keeps-lift, Keeps-asks,
  Keeps-if,
}
use ipa_rs_agent_controller.OverlayFs.Keeps.Os.{OnOs, Keeps-try, fs_rules}
use ipa_rs_agent_controller.OverlayFs.Attributes
use ipa_rs_agent_controller.OverlayFs.Attributes.{copy_up}
use ipa_rs_agent_controller.OverlayFs.Storage.{
  child_path, fallback_path, file_attr, missing_attr, lookup_resolved, lookup_path, read_resolved,
  storage_path_for_read, perform, make_parent, fill_missing, fill_upper, make_upper,
  ensure_upper_for_write, special_or_upper, storage_path_for_open, overlay_visible_path,
}

-- The stored path of a layer, with the error as a number.
pub or_eio-answered : {A : Type 0} (r : Result A) (a : A) → or_eio r ≡ answered a → r ≡ ok a
or_eio-answered (ok b) a e = ground arith
or_eio-answered (err m) a e = absurd (ground arith)
or_eio-answered (panic m) a e = absurd (ground arith)

-- A path of the upper layer lies apart from a directory that the upper layer lies apart from.
pub upper_path-Away :
    (v : View) {dir : FilePath} (apart : Apart v.overlay dir) (p upper : FilePath)
    → or_eio (upper_path v.overlay p) ≡ answered upper
    → Away dir upper
upper_path-Away v {dir} apart p upper e =
    storage_path-Away dir v.overlay.upper p upper apart.from_upper (or_eio-answered _ upper e)

module _ {H : Host} (log : Log H) (dir : FilePath) where
  abbrev Safe : {X : Type 0} → F H X → Type 0
  Safe m = Keeps H (OnOs (Spared log dir)) m

  abbrev Still : {X : Type 0} → Act.M H X → Type 0
  Still m = World.Keeps {H = H} (λ w. Spared log dir w.os) m

  pub perform-Safe : (c : Change) → Quiet dir c → Safe (perform c)
  unfolding perform
  perform-Safe c q = Keeps-try _ (Keeps-perform log dir c q)

  made-Safe :
      (p : FilePath) (d : Option FilePath) → Away dir p → parent p ≡ d → Safe (make_parent d)
  unfolding make_parent
  made-Safe p none a e = Keeps-pure tt
  made-Safe p (some d) a e = perform-Safe _ (Quiet-create_parent dir p d a e)

  pub make_parent-Safe : (p : FilePath) → Away dir p → Safe (make_parent (parent p))
  make_parent-Safe p a = made-Safe p (parent p) a refl

  up_parent-Still :
      (p : FilePath) (d : Option FilePath)
      → Away dir p
      → parent p ≡ d
      → Still (Attributes.make_parent d)
  unfolding Attributes.make_parent
  up_parent-Still p none a e = World.Keeps-pure tt
  up_parent-Still p (some d) a e = Keeps-perform log dir _ (Quiet-create_parent dir p d a e)

  link_to-Still : (p : FilePath) (t : Text) → Away dir p → Still (Attributes.link_to p t)
  unfolding Attributes.link_to
  link_to-Still p t a = search (Keeps-perform, Quiet-make_symlink)

  copy_plain-Still :
      (src dst : FilePath) (m : ℕ) → Away dir dst → Still (Attributes.copy_plain src dst m)
  unfolding Attributes.copy_plain
  copy_plain-Still src dst m a =
      World.Keeps-bind (Attributes.make_parent (parent dst)) _
        (up_parent-Still dst (parent dst) a refl)
        λ _. search (keeps_rules, Keeps-perform, Quiet-copy, Quiet-set_permissions)

  copy_node-Still :
      (src dst : FilePath) (m : ℕ) (t : FileType)
      → Away dir dst
      → Still (Attributes.copy_node src dst m t)
  unfolding Attributes.copy_node
  copy_node-Still src dst m directory a = search (Keeps-perform, Quiet-create_dir_all)
  copy_node-Still src dst m symlink a =
      World.Keeps-bind (Attributes.make_parent (parent dst)) _
        (up_parent-Still dst (parent dst) a refl) λ _. search (keeps_rules, link_to-Still)
  copy_node-Still src dst m regular a = copy_plain-Still src dst m a
  copy_node-Still src dst m other a = copy_plain-Still src dst m a

  copy_up-Still : (src dst : FilePath) → Away dir dst → Still (copy_up src dst)
  unfolding copy_up
  copy_up-Still src dst a = search (keeps_rules, copy_node-Still)

  module _ (v : View) where
    fill_missing-Safe :
        (upper : FilePath) (o : Option FilePath) → Away dir upper → Safe (fill_missing upper o)
    unfolding fill_missing
    fill_missing-Safe upper (some path) a = Keeps-try _ (copy_up-Still path upper a)
    fill_missing-Safe upper none a = perform-Safe _ (Quiet-create dir upper a)

    fill_upper-Safe :
        (p upper : FilePath) (l : OverlayLookup) → Away dir upper → Safe (fill_upper v p upper l)
    unfolding fill_upper
    fill_upper-Safe p upper (found r) a = Keeps-try _ (copy_up-Still r.storage_path upper a)
    fill_upper-Safe p upper (whiteout marker) a = perform-Safe _ (Quiet-create dir upper a)
    fill_upper-Safe p upper missing a = search (fs_rules, fallback_path-Looks, fill_missing-Safe)

    module _ (apart : Apart v.overlay dir) where
      make_upper-Safe : (p upper : FilePath) → Away dir upper → Safe (make_upper v p upper)
      unfolding make_upper
      make_upper-Safe p upper a =
          search
            (
              fs_rules, make_parent-Safe, Keeps-try, resolve-Keeps, fill_upper-Safe,
              remove_whiteout-Safe,
            )
            depth 20

      pub ensure_upper_for_write-Safe : (p : FilePath) → Safe (ensure_upper_for_write v p)
      unfolding ensure_upper_for_write
      ensure_upper_for_write-Safe p =
          Keeps-bind_lift (or_eio (upper_path v.overlay (overlay_visible_path v p))) _ λ upper e.
            Keeps-bind (try (Act.exists upper)) _ (Keeps-try _ (World.Keeps-exists upper)) λ here.
              Keeps-if here _ _ (Keeps-pure upper) (
                make_upper-Safe (overlay_visible_path v p) upper
                  (upper_path-Away v apart (overlay_visible_path v p) upper e))

      special_or_upper-Safe : (m : FilePath) (o : Option FilePath) → Safe (special_or_upper v m o)
      unfolding special_or_upper
      special_or_upper-Safe m none = ensure_upper_for_write-Safe m
      special_or_upper-Safe m (some path) = search (fs_rules, ensure_upper_for_write-Safe)

      pub storage_path_for_open-Safe :
          (p : FilePath) (write : Bool) → Safe (storage_path_for_open v p write)
      unfolding storage_path_for_open
      storage_path_for_open-Safe p write =
          search (fs_rules, storage_path_for_read-Looks, fallback_path-Looks, special_or_upper-Safe)
            depth 12
