-- ===== src/Common/Errors.antt =====
-- `anyhow::Result`, with a panic as a third outcome. An error is its text as `{error:#}` prints it.
use mathlib.Core.Path.{◌≡◌, refl}
use mathlib.Core.Bool.{Bool, true, false}
use mathlib.Core.Option.{Option, none, some}
use mathlib.Core.List.{◌++◌}
use ipa_rs_agent_controller.Common.Text.{Text, text}

pub data Result {ℓ} (A : Type ℓ) : Type ℓ where
  ok : A → Result A
  err : Text → Result A
  panic : Text → Result A

infixl 10 ◌>>=◌ ◌>>◌
-- `?`: an error and a panic end the chain.
abbrev pub ◌>>=◌ {ℓ κ} : {X : Type ℓ} {Y : Type κ} → Result X → (X → Result Y) → Result Y
ok x >>= rest = rest x
err message >>= rest = err message
panic message >>= rest = panic message

abbrev pub ◌>>◌ {ℓ κ} : {X : Type ℓ} {Y : Type κ} → Result X → Result Y → Result Y
step >> rest = step >>= λ _. rest

-- `if !test { bail!(message) }`
abbrev pub ensure : Bool → Text → Result (Unit {0})
ensure true e = ok tt
ensure false e = err e

-- `.with_context(|| message)`
unfoldable pub context {ℓ} : {A : Type ℓ} → Text → Result A → Result A
context c (ok a) = ok a
context c (err e) = err (c ++ (text ": " ++ e))
context c (panic e) = panic e

-- `option.ok_or_else(|| anyhow!(message))`
abbrev pub ok_or {ℓ} : {A : Type ℓ} → Text → Option A → Result A
ok_or e none = err e
ok_or e (some a) = ok a

abbrev pub is_ok {ℓ} : {A : Type ℓ} → Result A → Bool
is_ok (ok a) = true
is_ok (err e) = false
is_ok (panic e) = false

-- A chain that ends well has a first step that does, and the rest goes on from its value.
pub >>=-eq-ok {ℓ κ} :
    {X : Type ℓ} {Y : Type κ} (step : Result X) (rest : X → Result Y) {y : Y}
    → (step >>= rest) ≡ ok y
    → (x : X) × (step ≡ ok x) × (rest x ≡ ok y)
>>=-eq-ok (ok x) rest e = (x, refl, e)
>>=-eq-ok (err message) rest e = cc
>>=-eq-ok (panic message) rest e = cc
