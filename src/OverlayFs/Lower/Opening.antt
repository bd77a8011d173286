-- ===== src/OverlayFs/Lower/Opening.antt =====
-- What is opened for writing lies in the upper layer, or is a special file of the system.
use ipa_rs_agent_controller.Common.{
  ◌≡◌, refl, sym, ap, ◌∙◌, ◌⊎◌, inl, inr, Bool, true, false, Option, none, some, arith,
  if◌then◌else◌,
}
use ipa_rs_agent_controller.Path.{FilePath, parent}
use ipa_rs_agent_controller.Host.{
  Host, Io, done, not_found, failed, Metadata, FileType, regular, directory, symlink, other,
}
use ipa_rs_agent_controller.Host.Effect as Act
use ipa_rs_agent_controller.Host.Log.{kind, type_only}
use ipa_rs_agent_controller.Host.Spared.{Away}
use ipa_rs_agent_controller.Overlay
use ipa_rs_agent_controller.Overlay.Paths.{upper_path}
use ipa_rs_agent_controller.Overlay.Lower.{Apart}
use ipa_rs_agent_controller.OverlayFs.Effect.{
  View, Fs, answered, io_or_eio, or_eio, pure, lift, asks, ◌>>=◌, try,
}
use ipa_rs_agent_controller.OverlayFs.Steps.{lift-inv, bind-inv, pure-inv}
use ipa_rs_agent_controller.OverlayFs.Fallback.{fallback_is_special_file, special}
use ipa_rs_agent_controller.OverlayFs.Storage.{
  fallback_path, make_parent, fill_upper, make_upper, ensure_upper_for_write, special_or_upper,
  storage_path_for_open, overlay_visible_path,
}
use ipa_rs_agent_controller.OverlayFs.Lower.{upper_path-Away}

special_type :
    (t : FileType) (m : Metadata)
    → m.file_type ≡ t
    → special (done m) ≡ done true
    → type_only (done m) ≡ done other
unfolding special type_only
special_type regular m e h = absurd (ground arith)
special_type directory m e h = absurd (ground arith)
special_type symlink m e h = absurd (ground arith)
special_type other m e h = ap done e

special-other : (r : Io Metadata) → special r ≡ done true → type_only r ≡ done other
unfolding special
special-other (done m) h = special_type m.file_type m refl h
special-other not_found h = absurd cc
special-other (failed e) h = absurd cc

module _ {H : Host} (v : View) where
  make_upper-answered :
      (p upper x : FilePath) (s : Fs H) → (make_upper v p upper s).0 ≡ answered x → upper ≡ x
  unfolding make_upper
  make_upper-answered p upper x s h =
      let (_, _, e) = bind-inv (make_parent (parent upper)) _ s x h in
      let s1 = (make_parent (parent upper) s).1 in
      let h1 = ap (λ r. r.0) (sym e) ∙ h in
      let (l, _, f) = bind-inv (try (Overlay.resolve v.overlay p)) _ s1 x h1 in
      let s2 = (try (Overlay.resolve v.overlay p) s1).1 in
      let h2 = ap (λ r. r.0) (sym f) ∙ h1 in
      let (_, _, g) = bind-inv (fill_upper v p upper l) _ s2 x h2 in
      let s3 = (fill_upper v p upper l s2).1 in
      let h3 = ap (λ r. r.0) (sym g) ∙ h2 in
      let (_, _, k) = bind-inv (try (Overlay.remove_whiteout v.overlay p)) _ s3 x h3 in
      pure-inv upper x _ (ap (λ r. r.0) (sym k) ∙ h3)

  module _ {dir : FilePath} (apart : Apart v.overlay dir) where
    chosen :
        (p upper x : FilePath) (present : Bool) (s : Fs H)
        → ((if present then pure upper else make_upper v p upper) s).0 ≡ answered x
        → upper ≡ x
    chosen p upper x true s h = pure-inv upper x s h
    chosen p upper x false s h = make_upper-answered p upper x s h

    -- A file made ready for writing lies in the upper layer.
    pub ensure_upper_for_write-Away :
        (p x : FilePath) (s : Fs H) → (ensure_upper_for_write v p s).0 ≡ answered x → Away dir x
    unfolding ensure_upper_for_write
    ensure_upper_for_write-Away p x s h =
        let visible = overlay_visible_path v p in
        let (upper, stored, e) = lift-inv (or_eio (upper_path v.overlay visible)) _ s x h in
        let h1 = ap (λ r. r.0) (sym e) ∙ h in
        let (present, _, f) = bind-inv (try (Act.exists upper)) _ s x h1 in
        let same =
          chosen visible upper x present (try (Act.exists upper) s).1
            (ap (λ r. r.0) (sym f) ∙ h1) in
        rw (← same) (upper_path-Away v apart visible upper stored)

    unfoldable pub Place : FilePath → Fs H → Type 0
    Place x s = Away dir x ⊎ (kind H s.world.os x ≡ done other)

    by_special :
        (m path x : FilePath) (is_special : Bool) (s : Fs H)
        → fallback_is_special_file H s.world.os path ≡ done is_special
        → ((if is_special then pure path else ensure_upper_for_write v m) s).0 ≡ answered x
        → Place x ((if is_special then pure path else ensure_upper_for_write v m) s).1
    unfolding Place fallback_is_special_file kind pure
    by_special m path x true s e h =
        let same = pure-inv path x s h in
        inr (rw (← same) (special-other (H.symlink_metadata s.world.os path) e))
    by_special m path x false s e h = inl (ensure_upper_for_write-Away m x s h)

    by_answer :
        (m path x : FilePath) (r : Io Bool) (s : Fs H)
        → fallback_is_special_file H s.world.os path ≡ r
        → ((lift (io_or_eio r) >>= λ is_special.
              if is_special then pure path else ensure_upper_for_write v m)
            s).0
          ≡ answered x
        → Place x
            ((lift (io_or_eio r) >>= λ is_special.
                if is_special then pure path else ensure_upper_for_write v m)
              s).1
    unfolding lift ◌>>=◌
    by_answer m path x (done b) s e h = by_special m path x b s e h
    by_answer m path x not_found s e h = absurd cc
    by_answer m path x (failed t) s e h = absurd cc

    special_or_upper-Place :
        (m x : FilePath) (o : Option FilePath) (s : Fs H)
        → (special_or_upper v m o s).0 ≡ answered x
        → Place x (special_or_upper v m o s).1
    unfolding special_or_upper asks lift ◌>>=◌ Place
    special_or_upper-Place m x none s h = inl (ensure_upper_for_write-Away m x s h)
    special_or_upper-Place m x (some path) s h =
        by_answer m path x (fallback_is_special_file H s.world.os path) s refl h

    -- What is opened for writing.
    pub storage_path_for_open-Place :
        (m x : FilePath) (s : Fs H)
        → (storage_path_for_open v m true s).0 ≡ answered x
        → Place x (storage_path_for_open v m true s).1
    unfolding storage_path_for_open
    storage_path_for_open-Place m x s h =
        let (o, _, e) = bind-inv (fallback_path v (overlay_visible_path v m)) _ s x h in
        let placed =
          special_or_upper-Place m x o (fallback_path v (overlay_visible_path v m) s).1
            (ap (λ r. r.0) (sym e) ∙ h) in
        rw e placed
