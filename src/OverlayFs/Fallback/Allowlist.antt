-- ===== src/OverlayFs/Fallback/Allowlist.antt =====
-- A fallback never leaves the allowlist: `FallbackRoots` of crates/agent-overlayfs/src/main.rs.
use ipa_rs_agent_controller.Common.{
  ◌≡◌, refl, true, Option, none, some, List, [], ◌∷◌, list_eq, contains, arith, ==_refl, Bool-cases,
  inl, inr,
}
use ipa_rs_agent_controller.Common.Lists.{All, All-map}
use ipa_rs_agent_controller.Common.Sort.Laws.{sort_by-All, dedup-All}
use ipa_rs_agent_controller.Path.{FilePath, component_eq}
use ipa_rs_agent_controller.Host.{Host, Io, done, not_found, failed}
use ipa_rs_agent_controller.OverlayFs.Fallback.{
  FallbackRoot, path_key, with_real, canonical_roots, new_roots, within, find_root, is_found,
  inside, inside_root, fallback,
}

contains_self : (l : List FilePath) → All (λ p. contains l p ≡ true) l
unfolding contains
contains_self [] = tt
contains_self (p ∷ l) =
    (ground (arith, ==_refl p), All-map (λ q h. ground arith) l (contains_self l))

-- A root that stands in the list of paths and whose real path was found when the list was read.
pub record Allowed (canonicalize : FilePath → Io FilePath) (paths : List FilePath)
    (r : FallbackRoot) : Type 0 where
  pub listed : contains paths r.visible ≡ true
  pub resolved : canonicalize r.visible ≡ done r.real

module _ (canonicalize : FilePath → Io FilePath) (paths : List FilePath) where
  abbrev Listed : FilePath → Type 0
  Listed p = contains paths p ≡ true

  with_real-Allowed :
      (p : FilePath) (found : Io FilePath) (roots : List FallbackRoot)
      → Listed p
      → canonicalize p ≡ found
      → All (Allowed canonicalize paths) roots
      → All (Allowed canonicalize paths) (with_real p found roots)
  unfolding with_real
  with_real-Allowed p (done real) roots l e h = (record { listed = l; resolved = e }, h)
  with_real-Allowed p not_found roots l e h = h
  with_real-Allowed p (failed m) roots l e h = h

  canonical_roots-Allowed :
      (l : List FilePath)
      → All Listed l
      → All (Allowed canonicalize paths) (canonical_roots canonicalize l)
  unfolding canonical_roots
  canonical_roots-Allowed [] h = tt
  canonical_roots-Allowed (p ∷ l) (hp, h) =
      with_real-Allowed p (canonicalize p) (canonical_roots canonicalize l) hp refl
        (canonical_roots-Allowed l h)

  new_roots-Allowed : All (Allowed canonicalize paths) (new_roots canonicalize paths)
  unfolding new_roots
  new_roots-Allowed =
      canonical_roots-Allowed _
        (dedup-All Listed _ (sort_by-All Listed path_key paths (contains_self paths)))

find_root-inv :
    (P : FallbackRoot → Type 0) (roots : List FallbackRoot) (visible : FilePath) (r : FallbackRoot)
    → All P roots
    → find_root roots visible ≡ some r
    → P r × (within visible r.visible ≡ true)
unfolding find_root
find_root-inv P [] visible r h e = absurd (ground arith)
find_root-inv P (x ∷ roots) visible r (hx, h) e = elim (Bool-cases (within visible x.visible)) [
  | inl w ↦ let same : x ≡ r = ground arith in rw (← same) (hx, w)
  | inr w ↦ find_root-inv P roots visible r h (ground arith)
]

inside-inv :
    (visible p : FilePath) (r : FallbackRoot) (found : Io FilePath)
    → inside visible r found ≡ some p
    → (p ≡ visible) × (target : FilePath) × (found ≡ done target) × (within target r.real ≡ true)
unfolding inside
inside-inv visible p r (done target) e = elim (Bool-cases (within target r.real)) [
  | inl w ↦ (ground arith, target, refl, w)
  | inr w ↦ absurd (ground arith)
]
inside-inv visible p r not_found e = absurd (ground arith)
inside-inv visible p r (failed m) e = absurd (ground arith)

inside_root-inv :
    (H : Host) (s : H.State) (visible p : FilePath) (o : Option FallbackRoot)
    → inside_root H s visible o ≡ some p
    → (r : FallbackRoot) × (o ≡ some r) × (inside visible r (H.canonicalize s visible) ≡ some p)
unfolding inside_root
inside_root-inv H s visible p none e = absurd (ground arith)
inside_root-inv H s visible p (some r) e = elim (Bool-cases (is_found (H.metadata s visible))) [
  | inl w ↦ (r, refl, ground arith)
  | inr w ↦ absurd (ground arith)
]

-- What stands behind a path that a view shows from the system.
pub record Outside (canonicalize now : FilePath → Io FilePath) (paths : List FilePath)
    (visible p : FilePath) : Type 0 where
  pub same_path : p ≡ visible
  pub dir : FallbackRoot
  pub allowed : Allowed canonicalize paths dir
  pub below_root : within visible dir.visible ≡ true
  pub target : FilePath
  pub leads_to : now visible ≡ done target
  pub stays : within target dir.real ≡ true

-- A path that a view shows from the system is the visible path itself; it lies at or below a path of the
-- allowlist of the mount, and all its links followed at the time of the request, it lies at or below the
-- real directory that this path had when the view was mounted: no link leads out of the allowlist.
pub fallback-Outside :
    (H : Host) (canonicalize : FilePath → Io FilePath) (paths : List FilePath) (s : H.State)
    (visible p : FilePath)
    → fallback H (new_roots canonicalize paths) s visible ≡ some p
    → Outside canonicalize (H.canonicalize s) paths visible p
unfolding fallback
fallback-Outside H canonicalize paths s visible p e =
    let (r, found, e1) =
      inside_root-inv H s visible p (find_root (new_roots canonicalize paths) visible) e in
    let (same, target, leads, stays) = inside-inv visible p r (H.canonicalize s visible) e1 in
    let (allowed, under) =
      find_root-inv (Allowed canonicalize paths) (new_roots canonicalize paths) visible r
        (new_roots-Allowed canonicalize paths) found in
    record {
      same_path = same;
      dir = r;
      allowed = allowed;
      below_root = under;
      target = target;
      leads_to = leads;
      stays = stays;
    }
