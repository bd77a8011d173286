-- ===== src/Overlay/Lower.antt =====
-- The calls of the operations on the view spare every directory that lies apart from the upper layer and
-- from the whiteouts, as the lower layer does.
use ipa_rs_agent_controller.Common.{
  ℕ, zero, suc, ◌≡◌, refl, sym, ap, ◌∙◌, inl, inr, Option, none, some, List, [], ◌∷◌, arith,
}
use ipa_rs_agent_controller.Common.{ok}
use ipa_rs_agent_controller.Common.Lists.{All}
use ipa_rs_agent_controller.Common.Text.{Text, text, all_chars}
use ipa_rs_agent_controller.Path.{FilePath, ◌/◌, parent}
use ipa_rs_agent_controller.Path.Laws.{IsName}
use ipa_rs_agent_controller.Host.{
  Host, FileType, regular, directory, symlink, other, create_dir_all, rename_tree,
}
use ipa_rs_agent_controller.Host.Effect.{
  World, M, lift, ◌>>=◌, pure, asks, exists, read, perform, for_each,
}
use ipa_rs_agent_controller.Host.Keeps.{
  Keeps, Keeps-lift, Keeps-read, Keeps-bind_ok, Keeps-bind_lift, Keeps-bind, Keeps-if, Keeps-exists,
  Keeps-pure, Keeps-bail, keeps_rules,
}
use ipa_rs_agent_controller.Host.Steps.{bind-inv, lift-inv, read-ok}
use ipa_rs_agent_controller.Host.Log.{Log}
use ipa_rs_agent_controller.Host.Spared.{
  Away, Away-join, Away-append, Spared, Keeps-perform, Quiet-create, Quiet-write_all,
  Quiet-create_dir_all, Quiet-create_parent, Quiet-remove_file, Quiet-make_symlink, Quiet-copy,
  Quiet-rename_tree,
}
use ipa_rs_agent_controller.Storage.Files.{with_context}
use ipa_rs_agent_controller.Storage.Files.Keeps.{Keeps-with_context}
use ipa_rs_agent_controller.Overlay.{
  OverlayLookup, OverlaySource, ResolvedPath, upper_source, lower_source, found, whiteout, missing,
  directory_whiteout_marker, whiteout_marker_path, whiteout_exists, remove_whiteout, resolve,
  write_new, make_parent, is_real_dir, create_whiteout, copy_tree_within, copy_tree, rename,
  remove_marker, resolve_below, link_to, copy_node, rename_resolved,
}
use ipa_rs_agent_controller.Overlay.Paths.{
  PathOverlay, upper_path, lower_path, whiteout_path, storage_path,
}
use ipa_rs_agent_controller.Overlay.Markers.{whiteout_marker_path-some}
use ipa_rs_agent_controller.Overlay.Paths.Laws.{storage_path-ok}
use ipa_rs_agent_controller.Overlay.Reading.{
  whiteout_marker_path-Keeps, whiteout_exists-Keeps, resolve-Keeps,
}

-- The directory lies apart from what the view may change.
pub record Apart (o : PathOverlay) (dir : FilePath) : Type 0 where
  pub from_upper : Away dir o.upper
  pub from_whiteouts : Away dir o.whiteouts

pub storage_path-Away :
    (dir root v p : FilePath) → Away dir root → storage_path root v ≡ ok p → Away dir p
storage_path-Away dir root v p a e =
    let (rel, _, _, same) = storage_path-ok root v p e in rw same (Away-append dir root rel a)

marker-IsName : IsName directory_whiteout_marker
unfolding text all_chars
marker-IsName = record {
  slashless = refl;
  nonempty = λ e. absurd (ground arith);
  not_dot = λ e. absurd (ground arith);
  not_dot_dot = λ e. absurd (ground arith);
}

module _ {H : Host} (log : Log H) (dir : FilePath) where
  abbrev Safe : {X : Type 0} → M H X → Type 0
  Safe m = Keeps {H = H} (λ w. Spared log dir w.os) m

  whiteout_marker_path-Safe : (o : PathOverlay) (v : FilePath) → Safe (whiteout_marker_path o v)
  whiteout_marker_path-Safe o v = whiteout_marker_path-Keeps _ o v

  pub whiteout_exists-Safe : (o : PathOverlay) (v : FilePath) → Safe (whiteout_exists o v)
  whiteout_exists-Safe o v = whiteout_exists-Keeps _ o v

  write_new-Safe : (p : FilePath) (t : Text) → Away dir p → Safe (write_new p t)
  unfolding write_new
  write_new-Safe p t a = search (keeps_rules, Keeps-perform, Quiet-create, Quiet-write_all) depth 12

  made-Safe :
      (p : FilePath) (d : Option FilePath) → Away dir p → parent p ≡ d → Safe (make_parent d)
  unfolding make_parent
  made-Safe p none a e = Keeps-pure tt
  made-Safe p (some d) a e =
      Keeps-with_context _ _ (Keeps-perform log dir _ (Quiet-create_parent dir p d a e))

  make_parent-Safe : (p : FilePath) → Away dir p → Safe (make_parent (parent p))
  make_parent-Safe p a = made-Safe p (parent p) a refl

  is_real_dir-Safe : (p : FilePath) → Safe (is_real_dir p)
  unfolding is_real_dir
  is_real_dir-Safe p = search (keeps_rules)

  remove_marker-Safe :
      (m : Option FilePath) → ((p : FilePath) → m ≡ some p → Away dir p) → Safe (remove_marker m)
  unfolding remove_marker
  remove_marker-Safe none a = Keeps-pure tt
  remove_marker-Safe (some p) a =
      Keeps-with_context _ _ (Keeps-perform log dir _ (Quiet-remove_file dir p (a p refl)))

  copied-Safe :
      (deeper : FilePath → FilePath → M H (Unit {0})) (src dst : FilePath) (names : List Text)
      → ((a b : FilePath) → Away dir b → Safe (deeper a b))
      → Away dir dst
      → All IsName names
      → Safe (for_each names (λ name. deeper (src / name) (dst / name)))
  unfolding for_each
  copied-Safe deeper src dst [] d a n = Keeps-pure tt
  copied-Safe deeper src dst (name ∷ names) d a n =
      Keeps-bind (deeper (src / name) (dst / name)) _
        (d (src / name) (dst / name) (Away-join dir dst name n.0 a))
        λ _. copied-Safe deeper src dst names d a n.1

  link_to-Safe : (dst : FilePath) (t : Text) → Away dir dst → Safe (link_to dst t)
  unfolding link_to
  link_to-Safe dst t a = search (Keeps-perform, Quiet-make_symlink)

  copy_node-Safe :
      (deeper : FilePath → FilePath → M H (Unit {0})) (src dst : FilePath) (t : FileType)
      → ((a b : FilePath) → Away dir b → Safe (deeper a b))
      → Away dir dst
      → Safe (copy_node deeper src dst t)
  unfolding copy_node
  copy_node-Safe deeper src dst directory d a =
      Keeps-bind (with_context _ (perform (create_dir_all dst))) _
        (search (keeps_rules, Keeps-with_context, Keeps-perform, Quiet-create_dir_all))
        λ _. Keeps-bind_ok (read (λ s. H.read_dir s src)) _ (Keeps-read _) λ names w e.
          copied-Safe deeper src dst names d a
            (log.names w.os src names (read-ok (λ s. H.read_dir s src) w names e))
  copy_node-Safe deeper src dst regular d a =
      search (keeps_rules, Keeps-with_context, Keeps-perform, Quiet-copy)
  copy_node-Safe deeper src dst symlink d a = search (keeps_rules, link_to-Safe)
  copy_node-Safe deeper src dst other d a = Keeps-pure tt

  copy_tree_within-Safe :
      (depth : ℕ) (src dst : FilePath) → Away dir dst → Safe (copy_tree_within depth src dst)
  unfolding copy_tree_within
  copy_tree_within-Safe zero src dst a = Keeps-lift _
  copy_tree_within-Safe (suc depth) src dst a =
      Keeps-bind (with_context _ (read (λ s. H.symlink_metadata s src))) _
        (search (keeps_rules, Keeps-with_context))
        λ m.
          copy_node-Safe (copy_tree_within depth) src dst m.file_type
            (λ a b w. copy_tree_within-Safe depth a b w) a

  copy_tree-Safe : (src dst : FilePath) → Away dir dst → Safe (copy_tree src dst)
  unfolding copy_tree
  copy_tree-Safe src dst a = copy_tree_within-Safe 4096 src dst a

  module _ (o : PathOverlay) (apart : Apart o dir) where
    marker-Away :
        (v m : FilePath) (w : World H) → (whiteout_marker_path o v w).0 ≡ ok (some m) → Away dir m
    marker-Away v m w e =
        let (at, stored, place) = whiteout_marker_path-some o v m w e in
        let a = storage_path-Away dir o.whiteouts v at apart.from_whiteouts stored in
        elim place [
          | inl same ↦ rw same a
          | inr inside ↦ rw inside (Away-join dir at _ marker-IsName a)
        ]

    pub remove_whiteout-Safe : (v : FilePath) → Safe (remove_whiteout o v)
    unfolding remove_whiteout
    remove_whiteout-Safe v =
        Keeps-bind_ok (whiteout_marker_path o v) _ (whiteout_marker_path-Safe o v)
          λ m w e. remove_marker-Safe m λ p is. marker-Away v p w (rw (← is) e)

    pub create_whiteout-Safe : (v : FilePath) → Safe (create_whiteout o v)
    unfolding create_whiteout
    create_whiteout-Safe v = Keeps-bind_lift (whiteout_path o v) _ λ at e.
        let a = storage_path-Away dir o.whiteouts v at apart.from_whiteouts e in
        let inside = Away-join dir at directory_whiteout_marker marker-IsName a in
        Keeps-bind (is_real_dir at) _ (is_real_dir-Safe at) λ is_dir.
          Keeps-if is_dir _ _
            (Keeps-with_context _ _ (write_new-Safe (at / directory_whiteout_marker) _ inside))
            (Keeps-bind (make_parent (parent at)) _ (make_parent-Safe at a)
              λ _. Keeps-with_context _ _ (write_new-Safe at [] a))

    upper_found :
        (v upper : FilePath) (r : ResolvedPath) (w : World H)
        → upper_path o v ≡ ok upper
        → (resolve_below o v none w).0 ≡ ok (found r)
        → r.source ≡ upper_source
        → r.storage_path ≡ upper
    unfolding resolve_below pure exists asks lift ◌>>=◌
    upper_found v upper r w stored e s = ground arith

    below-Away :
        (v : FilePath) (m : Option FilePath) (r : ResolvedPath) (w : World H)
        → (resolve_below o v m w).0 ≡ ok (found r)
        → r.source ≡ upper_source
        → Away dir r.storage_path
    unfolding resolve_below pure exists asks lift ◌>>=◌
    below-Away v (some marker) r w e s = absurd (ground arith)
    below-Away v none r w e s =
        let (upper, stored, same) = lift-inv (upper_path o v) _ w (found r) e in
        let there = upper_found v upper r w stored e s in
        rw there (storage_path-Away dir o.upper v upper apart.from_upper stored)

    resolved-Away :
        (v : FilePath) (l : OverlayLookup) (w : World H)
        → (resolve o v w).0 ≡ ok l
        → (r : ResolvedPath) → l ≡ found r
        → r.source ≡ upper_source
        → Away dir r.storage_path
    unfolding resolve
    resolved-Away v l w e r f s =
        let (m, _, same) = bind-inv (whiteout_marker_path o v) _ w l e in
        below-Away v m r (whiteout_marker_path o v w).1 (ap (λ x. x.0) (sym same) ∙ e ∙ ap ok f) s

    moved-Safe :
        {to_upper : FilePath} (r : ResolvedPath) (source : OverlaySource)
        → r.source ≡ source
        → Away dir to_upper
        → (r.source ≡ upper_source → Away dir r.storage_path)
        → Safe (elim source [
          | lower_source ↦ copy_tree r.storage_path to_upper
          | upper_source ↦ perform (rename_tree r.storage_path to_upper)
        ])
    moved-Safe r upper_source is a k =
        Keeps-perform log dir _ (Quiet-rename_tree dir r.storage_path _ (k is) a)
    moved-Safe r lower_source is a k = copy_tree-Safe r.storage_path _ a

    renamed-Safe :
        (from to to_upper : FilePath) (l : OverlayLookup)
        → Away dir to_upper
        → ((r : ResolvedPath) → l ≡ found r → r.source ≡ upper_source → Away dir r.storage_path)
        → Safe (rename_resolved o from to to_upper l)
    unfolding rename_resolved
    renamed-Safe from to to_upper (found r) a k =
        Keeps-bind _ _ (moved-Safe r r.source refl a (k r refl)) λ _.
          Keeps-bind (remove_whiteout o to) _ (remove_whiteout-Safe to)
            λ _. create_whiteout-Safe from
    renamed-Safe from to to_upper (whiteout marker) a k = Keeps-bail _
    renamed-Safe from to to_upper missing a k = Keeps-bail _

    pub rename-Safe : (from to : FilePath) → Safe (rename o from to)
    unfolding rename
    rename-Safe from to = Keeps-bind_lift (upper_path o from) _ λ from_upper e.
        Keeps-bind_lift (lower_path o from) _ λ from_lower _.
          Keeps-bind_lift (upper_path o to) _ λ to_upper f.
            let a = storage_path-Away dir o.upper from from_upper apart.from_upper e in
            let b = storage_path-Away dir o.upper to to_upper apart.from_upper f in
            let resolved : Safe (resolve o from >>= rename_resolved o from to to_upper) =
              Keeps-bind_ok (resolve o from) _ (resolve-Keeps _ o from)
                λ l w g. renamed-Safe from to to_upper l b (resolved-Away from l w g) in
            let moving : Safe (perform (rename_tree from_upper to_upper)) =
              Keeps-perform log dir _ (Quiet-rename_tree dir from_upper to_upper a b) in
            Keeps-bind (make_parent (parent to_upper)) _ (make_parent-Safe to_upper b) λ _.
              Keeps-bind (exists from_upper) _ (Keeps-exists from_upper) λ in_upper.
                Keeps-if in_upper _ _
                  (Keeps-bind (exists from_lower) _ (Keeps-exists from_lower) λ in_lower.
                    Keeps-bind (with_context _ (perform (rename_tree from_upper to_upper))) _
                      (Keeps-with_context _ _ moving)
                      λ _. Keeps-bind (remove_whiteout o to) _ (remove_whiteout-Safe to) λ _.
                        Keeps-if in_lower _ _ (create_whiteout-Safe from)
                          (remove_whiteout-Safe from))
                  resolved
