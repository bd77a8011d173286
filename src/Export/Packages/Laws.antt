-- ===== src/Export/Packages/Laws.antt =====
-- The map of packages, and the delta of two maps.
use ipa_rs_agent_controller.Common.{
  ◌≡◌, ◌≢◌, ◌↔◌, refl, sym, ◌∙◌, false, Option, none, some, List, [], ◌∷◌, ◌++◌, arith,
}
use ipa_rs_agent_controller.Common.{
  ==_refl, list_eq, nat_eq, ◌==◌, if◌then◌else◌, Bool-cases, Option-cases, inl, inr,
}
use ipa_rs_agent_controller.Common.Lists.{All, All-map, All-zip}
use ipa_rs_agent_controller.Common.Dict.{lookup}
use ipa_rs_agent_controller.Common.Sort.{text_le}
use ipa_rs_agent_controller.Common.Sort.Laws.{text_le_antisym, text_lt_trans, text_le_refl}
use ipa_rs_agent_controller.Common.Text.{Text, text, lines, split_whitespace}
use ipa_rs_agent_controller.Export.Packages.{
  Packages, insert, add_line, add_lines, package_versions, changed_line, changed_lines,
  removed_line, removed_lines, delta,
}

-- A package that is inserted is found with its new version, and every other one as before.
insert-lookup :
    (k v j : Text) (m : Packages)
    → lookup j (insert k v m) ≡ (if j == k then some v else lookup j m)
unfolding insert lookup
insert-lookup k v j [] = refl
insert-lookup k v j ((i, w) ∷ m) = ground (arith, insert-lookup k v j m)

-- Every package of the map comes behind the key.
abbrev Behind : Text → Packages → Type 0
Behind k m = All (λ e. text_le e.0 k ≡ false) m

-- The packages stand in strictly ascending order, so none stands twice.
abbrev IsMap : Packages → Type 0
IsMap [] = Unit
IsMap (e ∷ m) = Behind e.0 m × IsMap m

Behind-insert :
    (i k v : Text) (m : Packages) → text_le k i ≡ false → Behind i m → Behind i (insert k v m)
unfolding insert
Behind-insert i k v [] h f = (h, tt)
Behind-insert i k v ((j, w) ∷ m) h f = elim (Bool-cases (k == j)) [
  | inl same ↦ rw same (h, f.1)
  | inr other ↦ elim (Bool-cases (text_le k j)) [
    | inl before ↦ rw (other, before) (h, f)
    | inr after ↦ rw (other, after) (f.0, Behind-insert i k v m h f.1)
  ]
]

insert-IsMap : (k v : Text) (m : Packages) → IsMap m → IsMap (insert k v m)
unfolding insert
insert-IsMap k v [] h = (tt, tt)
insert-IsMap k v ((j, w) ∷ m) h = elim (Bool-cases (k == j)) [
  | inl same ↦ let e : k ≡ j = ground arith in rw (same, e) h
  | inr other ↦ elim (Bool-cases (text_le k j)) [
    | inl before ↦
        let first : text_le j k ≡ false = ground (arith, text_le_antisym k j) in
        rw (other, before) ((first, All-map (λ e b. text_lt_trans k j e.0 first b) m h.0), h)
    | inr after ↦ rw (other, after) (Behind-insert j k v m after h.0, insert-IsMap k v m h.1)
  ]
]

added : (ws : List Text) (m : Packages) → IsMap m → IsMap (add_line ws m)
unfolding add_line
added [] m h = h
added (name ∷ []) m h = insert-IsMap name (text "unknown") m h
added (name ∷ version ∷ _) m h = insert-IsMap name version m h

add_lines-IsMap : (ls : List Text) (m : Packages) → IsMap m → IsMap (add_lines ls m)
unfolding add_lines
add_lines-IsMap [] m h = h
add_lines-IsMap (line ∷ ls) m h =
    add_lines-IsMap ls (add_line (split_whitespace line) m) (added (split_whitespace line) m h)

package_versions-IsMap : (contents : Text) → IsMap (package_versions contents)
unfolding package_versions
package_versions-IsMap contents = add_lines-IsMap (lines contents) [] tt

abbrev Found : Packages → Packages → Type 0
Found m = All (λ e. lookup e.0 m ≡ some e.1)

found_behind :
    (k v : Text) (m : Packages) (e : Text × Text)
    → text_le e.0 k ≡ false
    → lookup e.0 m ≡ some e.1
    → lookup e.0 ((k, v) ∷ m) ≡ some e.1
unfolding lookup
found_behind k v m e b f = ground (arith, text_le_refl k)

Found-self : (m : Packages) → IsMap m → Found m m
unfolding lookup
Found-self [] h = tt
Found-self ((k, v) ∷ m) h =
    (rw (==_refl k), All-zip (λ e b f. found_behind k v m e b f) m h.0 (Found-self m h.1))

lookup-All :
    (P : Text → Text → Type 0) (j v : Text) (m : Packages)
    → All (λ e. P e.0 e.1) m
    → lookup j m ≡ some v
    → P j v
unfolding lookup
lookup-All P j v [] h e = absurd cc
lookup-All P j v ((k, w) ∷ m) h e = elim (Bool-cases (j == k)) [
  | inl same ↦
      let key : j ≡ k = ground arith in let value : w ≡ v = ground arith in rw (key, sym value) h.0
  | inr other ↦ lookup-All P j v m h.1 (ground arith)
]

append-empty : (s t : Text) → s ++ t ≡ [] → (s ≡ []) × (t ≡ [])
append-empty [] t h = (refl, h)
append-empty (c ∷ s) t h = absurd (ground arith)

changed_line-empty : (o : Option Text) (k v : Text) → (changed_line o k v ≡ []) ↔ (o ≡ some v)
unfolding changed_line text
changed_line-empty none k v = (λ h. absurd (ground arith), λ h. absurd (ground arith))
changed_line-empty (some old) k v = (λ h. ground arith, λ h. ground arith)

removed_line-empty : (o : Option Text) (k v : Text) → (removed_line o k v ≡ []) ↔ (o ≢ none)
unfolding removed_line text
removed_line-empty none k v = (λ h. absurd (ground arith), λ h. absurd (h refl))
removed_line-empty (some old) k v = (λ h. ground arith, λ h. refl)

-- Packages that are found with their versions in another map, which has no others.
same_lookup :
    (base env : Packages)
    → Found base env
    → All (λ e. lookup e.0 env ≢ none) base
    → (pkg : Text) → lookup pkg base ≡ lookup pkg env
same_lookup base env found present pkg = elim (Option-cases (lookup pkg env)) [
  | inr (v, e) ↦ lookup-All (λ k w. lookup k base ≡ some w) pkg v env found e ∙ sym e
  | inl missing ↦ elim (Option-cases (lookup pkg base)) [
    | inl gone ↦ gone ∙ sym missing
    | inr (v, e) ↦ absurd (lookup-All (λ k w. lookup k env ≢ none) pkg v base present e missing)
  ]
]

present :
    (base env : Packages) (p : Text × Text)
    → lookup p.0 base ≡ lookup p.0 env
    → lookup p.0 base ≡ some p.1
    → lookup p.0 env ≢ none
present base env p h f = λ n. absurd cc

changed_lines-empty : (base env : Packages) → (changed_lines base env ≡ []) ↔ Found base env
unfolding changed_lines
changed_lines-empty base [] = (λ _. tt, λ _. refl)
changed_lines-empty base ((k, v) ∷ env) = (
  λ h.
      let (line, rest) =
        append-empty (changed_line (lookup k base) k v) (changed_lines base env) h in
      ((changed_line-empty (lookup k base) k v).0 line, (changed_lines-empty base env).0 rest),
  λ h. rw ((changed_line-empty (lookup k base) k v).1 h.0) ((changed_lines-empty base env).1 h.1),
)

abbrev Present : Packages → Packages → Type 0
Present m = All (λ e. lookup e.0 m ≢ none)

removed_lines-empty : (env base : Packages) → (removed_lines env base ≡ []) ↔ Present env base
unfolding removed_lines
removed_lines-empty env [] = (λ _. tt, λ _. refl)
removed_lines-empty env ((k, v) ∷ base) = (
  λ h.
      let (line, rest) =
        append-empty (removed_line (lookup k env) k v) (removed_lines env base) h in
      ((removed_line-empty (lookup k env) k v).0 line, (removed_lines-empty env base).0 rest),
  λ h. rw ((removed_line-empty (lookup k env) k v).1 h.0) ((removed_lines-empty env base).1 h.1),
)

-- The delta of two package manifests is empty exactly if both have the same packages with the same versions.
pub delta-empty :
    (base env : Text)
    → (delta (package_versions base) (package_versions env) ≡ [])
      ↔ ((pkg : Text) → lookup pkg (package_versions base) ≡ lookup pkg (package_versions env))
unfolding delta
delta-empty base env =
    let b = package_versions base in
    let e = package_versions env in
    (
      λ h.
          let (changed, removed) = append-empty (changed_lines b e) (removed_lines e b) h in
          same_lookup b e ((changed_lines-empty b e).0 changed)
            ((removed_lines-empty e b).0 removed),
      λ h. rw (
        (changed_lines-empty b e).1
            (All-map (λ p f. h p.0 ∙ f) e (Found-self e (package_versions-IsMap env))),
        (removed_lines-empty e b).1 (
            All-map (λ p f. present b e p (h p.0) f) b
              (Found-self b (package_versions-IsMap base))),
      ),
    )
