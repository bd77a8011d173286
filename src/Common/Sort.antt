-- ===== src/Common/Sort.antt =====
-- `sort`, `sort_by` and `dedup`: a stable sort by the order of texts.
pub mod Laws
use mathlib.Core.Bool.{Bool, true, false}
use mathlib.Core.List.{List, [], ◌∷◌}
use ipa_rs_agent_controller.Common.Tests.{ltb, eqb, Eq, ◌==◌, if◌then◌else◌}
use ipa_rs_agent_controller.Common.Text.{Text}

-- `a <= b` for texts: code points and UTF-8 bytes give the same order.
unfoldable pub text_le : Text → Text → Bool
text_le [] t = true
text_le (c ∷ s) [] = false
text_le (c ∷ s) (d ∷ t) = let rest = text_le s t in if eqb c d then rest else ltb c d

module _ {A : Type 0} (key : A → Text) where
  insert_by : A → List A → List A
  insert_by a [] = a ∷ []
  insert_by a (b ∷ l) =
      let rest = insert_by a l in if text_le (key a) (key b) then a ∷ b ∷ l else b ∷ rest

  -- `l.sort_by(|a, b| key(a).cmp(&key(b)))`
  unfoldable pub sort_by : List A → List A
  unfolding insert_by
  sort_by [] = []
  sort_by (a ∷ l) = insert_by a (sort_by l)

-- `l.sort()`
unfoldable pub sort : List Text → List Text
unfolding sort_by
sort = sort_by (λ t. t)

-- `l.dedup()`
unfoldable pub dedup {ℓ} : {A : Type ℓ} ⦃e : Eq A⦄ → List A → List A
dedup [] = []
dedup (a ∷ []) = a ∷ []
dedup (a ∷ b ∷ l) = let rest = dedup (b ∷ l) in if a == b then rest else a ∷ rest
