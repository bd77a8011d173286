-- ===== src/Path/Laws.antt =====
-- Facts about paths that are built by `join`.
use ipa_rs_agent_controller.Common.{
  ℕ, ◌≡◌, ◌≢◌, refl, sym, Bool, true, false, not, some, [], ◌∷◌, ◌++◌, arith,
}
use ipa_rs_agent_controller.Common.{list_eq, nat_eq, ◌==◌, eqb}
use ipa_rs_agent_controller.Common.Text.{Text, split_on, all_chars}
use ipa_rs_agent_controller.Path.{
  Component, normal, FilePath, path, component, components_of, first_part, join_path, ◌/◌,
  file_name, parent, dot, dot_dot, strip_path, component_eq, path_starts_with, with_file_name,
}

abbrev pub no_slash : Text → Bool
no_slash s = all_chars (λ c. not (eqb c b'/')) s

-- A text that is one component of a path.
pub record IsName (s : Text) : Type 0 where
  pub slashless : no_slash s ≡ true
  pub nonempty : s ≢ []
  pub not_dot : s ≢ dot
  pub not_dot_dot : s ≢ dot_dot

split_on-no_slash :
    (c : ℕ) (s : Text) → no_slash (c ∷ s) ≡ true → split_on b'/' (c ∷ s) ≡ (c ∷ s) ∷ []
unfolding split_on all_chars
split_on-no_slash c [] h = ground arith
split_on-no_slash c (d ∷ s) h =
    let ih : split_on b'/' (d ∷ s) ≡ (d ∷ s) ∷ [] = split_on-no_slash d s (ground arith) in
    rw ih (ground arith)

pub undotted-IsName :
    (c : ℕ) (s : Text) → no_slash (c ∷ s) ≡ true → eqb c b'.' ≡ false → IsName (c ∷ s)
undotted-IsName c s h undotted = record {
  slashless = h;
  nonempty = λ e. absurd (ground arith);
  not_dot = λ e. absurd (ground arith);
  not_dot_dot = λ e. absurd (ground arith);
}

no_slash-head : (c : ℕ) (s : Text) → no_slash (c ∷ s) ≡ true → eqb c b'/' ≡ false
unfolding all_chars
no_slash-head c s h = ground arith

component-name : (s : Text) → IsName s → component s ≡ normal s ∷ []
unfolding component
component-name [] h = absurd (h.nonempty refl)
component-name (c ∷ s) h = ground (arith, h.not_dot, h.not_dot_dot)

pub path-name : (s : Text) → IsName s → path s ≡ normal s ∷ []
unfolding path components_of first_part
path-name [] h = absurd (h.nonempty refl)
path-name (c ∷ s) h =
    let no_root : eqb c b'/' ≡ false = no_slash-head c s h.slashless in
    let no_cur : first_part ((c ∷ s) ∷ []) ≡ [] = ground (arith, h.not_dot) in
    rw (no_root, split_on-no_slash c s h.slashless, no_cur, component-name (c ∷ s) h)

join_path-name : (p : FilePath) (s : Text) → join_path p (normal s ∷ []) ≡ p ++ (normal s ∷ [])
unfolding join_path
join_path-name [] s = refl
join_path-name (c ∷ p) s = refl

pub append_name : (p : FilePath) (s : Text) → IsName s → p / s ≡ p ++ (normal s ∷ [])
unfolding ◌/◌
append_name p s h = rw (path-name s h) (join_path-name p s)

pub file_name-snoc : (p : FilePath) (s : Text) → file_name (p ++ (normal s ∷ [])) ≡ some s
unfolding file_name
file_name-snoc [] s = refl
file_name-snoc (c ∷ []) s = refl
file_name-snoc (c ∷ d ∷ p) s = file_name-snoc (d ∷ p) s

pub parent-snoc :
    (c : Component) (p : FilePath) (s : Text) → parent (c ∷ (p ++ (normal s ∷ []))) ≡ some (c ∷ p)
unfolding parent
parent-snoc c [] s = refl
parent-snoc c (d ∷ p) s = rw (parent-snoc d p s)

pub strip_path-append : (p q : FilePath) → strip_path (p ++ q) p ≡ some q
unfolding strip_path
strip_path-append [] q = refl
strip_path-append (c ∷ p) q = ground (arith, strip_path-append p q)

-- A common directory plays no part in `strip_prefix`.
pub strip_path-common : (d p q : FilePath) → strip_path (d ++ p) (d ++ q) ≡ strip_path p q
unfolding strip_path
strip_path-common [] p q = refl
strip_path-common (c ∷ d) p q = ground (arith, strip_path-common d p q)

-- Two names are the same component exactly if they are equal.
normal-== : (a b : Text) → (normal a == normal b) ≡ (a == b)
normal-== a b = ground arith

-- Below one directory, a path starts with a name only if that is its own first name.
pub path_starts_with-below :
    (d p : FilePath) (a b : Text)
    → path_starts_with (d ++ (normal a ∷ p)) (d ++ (normal b ∷ [])) ≡ (a == b)
unfolding path_starts_with strip_path
path_starts_with-below d p a b =
    rw (path_starts_with, strip_path-common d (normal a ∷ p) (normal b ∷ []), sym (normal-== a b))
      (ground arith)

pub with_file_name-snoc :
    (d : FilePath) (n s : Text)
    → IsName s
    → with_file_name (d ++ (normal n ∷ [])) s ≡ d ++ (normal s ∷ [])
unfolding with_file_name parent file_name
with_file_name-snoc [] n s h = append_name [] s h
with_file_name-snoc (c ∷ d) n s h =
    rw (with_file_name, file_name-snoc (c ∷ d) n, parent-snoc c d n, append_name (c ∷ d) s h)
