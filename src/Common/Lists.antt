-- ===== src/Common/Lists.antt =====
-- Lists over the native numbers, and predicates by recursion.
use Prim.Native.Nat.{ℕ, suc, ◌+◌}
use native.Mathlib.Omega.{arith}
use mathlib.Core.Path.{◌≡◌, refl, ap}
use mathlib.Core.Logic.{◌≢◌}
pub use mathlib.Core.List.{append_assoc, append-nil}
use mathlib.Core.List.{List, [], ◌∷◌, ◌++◌}

module _ {ℓ} {A : Type ℓ} where
  abbrev pub length : List A → ℕ
  length [] = 0
  length (x ∷ xs) = suc (length xs)

module _ {ℓ κ} {A : Type ℓ} where
  abbrev pub All : (A → Type κ) → List A → Type κ
  All P [] = Unit
  All P (x ∷ xs) = P x × All P xs

pub length-append {ℓ} : {A : Type ℓ} (xs ys : List A) → length (xs ++ ys) ≡ length xs + length ys
length-append [] ys = omega arith
length-append (x ∷ xs) ys = omega (arith, length-append xs ys)

-- The last components and the directories of equal paths are equal.
pub snoc-injective {ℓ} :
    {A : Type ℓ} (p q : List A) (a b : A) → p ++ (a ∷ []) ≡ q ++ (b ∷ []) → (p ≡ q) × (a ≡ b)
snoc-injective [] [] a b h = (refl, ground arith)
snoc-injective [] (y ∷ q) a b h = absurd (omega (arith, ap length h, length-append q (b ∷ [])))
snoc-injective (x ∷ p) [] a b h = absurd (omega (arith, ap length h, length-append p (a ∷ [])))
snoc-injective (x ∷ p) (y ∷ q) a b h =
    let rest : p ++ (a ∷ []) ≡ q ++ (b ∷ []) = cc in
    let (same_dirs, same_last) = snoc-injective p q a b rest in (cc, same_last)

module _ {ℓ κ μ} {A : Type ℓ} {P : A → Type κ} {Q : A → Type μ} where
  pub All-map : ((a : A) → P a → Q a) → (l : List A) → All P l → All Q l
  All-map f [] h = tt
  All-map f (x ∷ xs) h = (f x h.0, All-map f xs h.1)

  pub All-zip {ν} :
      {R : A → Type ν} → ((a : A) → P a → Q a → R a) → (l : List A) → All P l → All Q l → All R l
  All-zip f [] h k = tt
  All-zip f (x ∷ xs) h k = (f x h.0 k.0, All-zip f xs h.1 k.1)

-- No two places of the list hold the same value.
module _ {ℓ} {A : Type ℓ} where
  abbrev pub Distinct : List A → Type ℓ
  Distinct [] = Unit
  Distinct (x ∷ xs) = All (λ y. x ≢ y) xs × Distinct xs
