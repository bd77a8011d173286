-- ===== src/Path/Prefix.antt =====
-- Paths that begin with another path.
use ipa_rs_agent_controller.Common.{
  ◌≡◌, refl, true, false, none, some, [], ◌∷◌, ◌++◌, arith, Option-cases, inl, inr,
}
use ipa_rs_agent_controller.Path.{
  FilePath, Component, component_eq, root_dir, cur_dir, parent_dir, normal, strip_path,
  path_starts_with, parent, join_path, is_absolute,
}
use ipa_rs_agent_controller.Path.Laws.{strip_path-append}

pub path_starts_with-append : (p r : FilePath) → path_starts_with (p ++ r) p ≡ true
unfolding path_starts_with
path_starts_with-append p r = ground (arith, strip_path-append p r)

strip_path-eq-some : (p q r : FilePath) → strip_path p q ≡ some r → p ≡ q ++ r
unfolding strip_path
strip_path-eq-some p [] r e = ground arith
strip_path-eq-some [] (d ∷ q) r e = absurd (ground arith)
strip_path-eq-some (c ∷ p) (d ∷ q) r e = ground (arith, strip_path-eq-some p q r)

pub path_starts_with-eq-true :
    (p q : FilePath) → path_starts_with p q ≡ true → (r : FilePath) × (p ≡ q ++ r)
unfolding path_starts_with
path_starts_with-eq-true p q e = elim (Option-cases (strip_path p q)) [
  | inl n ↦ absurd (ground arith)
  | inr (r, s) ↦ (r, strip_path-eq-some p q r s)
]

-- Where neither of two paths begins with the other, nothing behind them does.
pub apart-append :
    (a b r t : FilePath)
    → path_starts_with a b ≡ false
    → path_starts_with b a ≡ false
    → path_starts_with (a ++ r) (b ++ t) ≡ false
unfolding path_starts_with strip_path
apart-append [] b r t ab ba = absurd (ground arith)
apart-append (c ∷ a) [] r t ab ba = absurd (ground arith)
apart-append (c ∷ a) (d ∷ b) r t ab ba = ground (arith, apart-append a b r t)

strip_path-append_left : (d p q : FilePath) → strip_path (d ++ p) (d ++ q) ≡ strip_path p q
unfolding strip_path
strip_path-append_left [] p q = refl
strip_path-append_left (c ∷ d) p q = ground (arith, strip_path-append_left d p q)

pub path_starts_with-append_left :
    (d p q : FilePath) → path_starts_with (d ++ p) (d ++ q) ≡ path_starts_with p q
unfolding path_starts_with
path_starts_with-append_left d p q = ground (arith, strip_path-append_left d p q)

parent-eq-none : (c : Component) (p : FilePath) → parent (c ∷ p) ≡ none → p ≡ []
unfolding parent
parent-eq-none c [] h = refl
parent-eq-none c (d ∷ p) h = absurd (ground arith)

pub parent-eq-some : (p d : FilePath) → parent p ≡ some d → (c : Component) × (p ≡ d ++ (c ∷ []))
unfolding parent
parent-eq-some [] d h = absurd (ground arith)
parent-eq-some (c ∷ []) d h = (c, ground arith)
parent-eq-some (c ∷ k ∷ p) d h = elim (Option-cases (parent (k ∷ p))) [
  | inl n ↦ (k, ground (arith, parent-eq-none k p n))
  | inr (q, s) ↦ let (last, same) = parent-eq-some (k ∷ p) q s in (last, ground arith)
]

-- A path joined with a relative path begins with it.
pub join_path-relative :
    (c : Component) (p rel : FilePath)
    → is_absolute rel ≡ false
    → (r : FilePath) × (join_path (c ∷ p) rel ≡ (c ∷ p) ++ r)
unfolding join_path is_absolute
join_path-relative c p [] h = ([], refl)
join_path-relative c p (normal s ∷ rel) h = (normal s ∷ rel, refl)
join_path-relative c p (cur_dir ∷ rel) h = (rel, refl)
join_path-relative c p (parent_dir ∷ rel) h = (parent_dir ∷ rel, refl)
join_path-relative c p (root_dir ∷ rel) h = absurd (ground arith)
