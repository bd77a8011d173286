-- ===== src/Common/Sort/Laws.antt =====
-- The order of texts is a total order.
use mathlib.Core.Path.{◌≡◌, refl}
use mathlib.Core.Bool.{true, false}
use mathlib.Core.List.{List, [], ◌∷◌}
use native.Mathlib.Omega.{arith}
use ipa_rs_agent_controller.Common.Text.{Text}
use ipa_rs_agent_controller.Common.Lists.{All}
use ipa_rs_agent_controller.Common.Tests.{Eq, ◌==◌, if◌then◌else◌}
use ipa_rs_agent_controller.Common.Sort.{text_le, insert_by, sort_by, dedup}

pub text_le_total : (s t : Text) → text_le s t ≡ false → text_le t s ≡ true
unfolding text_le
text_le_total [] t h = absurd (ground arith)
text_le_total (c ∷ s) [] h = refl
text_le_total (c ∷ s) (d ∷ t) h = ground (arith, text_le_total s t)

pub text_le_trans : (a b c : Text) → text_le a b ≡ true → text_le b c ≡ true → text_le a c ≡ true
unfolding text_le
text_le_trans [] b c h k = refl
text_le_trans (x ∷ a) [] c h k = absurd (ground arith)
text_le_trans (x ∷ a) (y ∷ b) [] h k = absurd (ground arith)
text_le_trans (x ∷ a) (y ∷ b) (z ∷ c) h k = ground (arith, text_le_trans a b c)

pub text_le_antisym : (a b : Text) → text_le a b ≡ true → text_le b a ≡ true → a ≡ b
unfolding text_le
text_le_antisym [] [] h k = refl
text_le_antisym [] (y ∷ b) h k = absurd (ground arith)
text_le_antisym (x ∷ a) [] h k = absurd (ground arith)
text_le_antisym (x ∷ a) (y ∷ b) h k = ground (arith, text_le_antisym a b)

pub text_le_refl : (a : Text) → text_le a a ≡ true
unfolding text_le
text_le_refl [] = refl
text_le_refl (x ∷ a) = ground (arith, text_le_refl a)

-- `a < b` is the negation of `b <= a`.
pub text_lt_trans : (a b c : Text) → text_le b a ≡ false → text_le c b ≡ false → text_le c a ≡ false
text_lt_trans a b c h k = ground (arith, text_le_total b a, text_le_trans c a b)

-- What holds of every element still does.
module _ {A : Type 0} (P : A → Type 0) where
  insert_by-All : (key : A → Text) (a : A) (l : List A) → P a → All P l → All P (insert_by key a l)
  unfolding insert_by
  insert_by-All key a [] pa h = (pa, tt)
  insert_by-All key a (b ∷ l) pa (pb, h) =
      elim (text_le (key a) (key b))
        as (λ t. All P (if t then a ∷ b ∷ l else b ∷ insert_by key a l)) [
          | true ↦ (pa, (pb, h))
          | false ↦ (pb, insert_by-All key a l pa h)
        ]

  pub sort_by-All : (key : A → Text) (l : List A) → All P l → All P (sort_by key l)
  unfolding sort_by
  sort_by-All key [] h = tt
  sort_by-All key (a ∷ l) (pa, h) = insert_by-All key a (sort_by key l) pa (sort_by-All key l h)

  pub dedup-All : ⦃e : Eq A⦄ (l : List A) → All P l → All P (dedup l)
  unfolding dedup
  dedup-All [] h = tt
  dedup-All (a ∷ []) h = h
  dedup-All (a ∷ b ∷ l) (pa, h) =
      elim (a == b) as (λ t. All P (if t then dedup (b ∷ l) else a ∷ dedup (b ∷ l))) [
        | true ↦ dedup-All (b ∷ l) h
        | false ↦ (pa, dedup-All (b ∷ l) h)
      ]
