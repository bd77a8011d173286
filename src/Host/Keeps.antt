-- ===== src/Host/Keeps.antt =====
-- Invariants of actions, by one rule for each way to build an action.
use ipa_rs_agent_controller.Common.{◌≡◌, refl, Bool, true, false, List, [], ◌∷◌}
use ipa_rs_agent_controller.Common.{Result, ok, err, panic, if◌then◌else◌}
use ipa_rs_agent_controller.Common.Text.{Text}
use ipa_rs_agent_controller.Path.{FilePath}
use ipa_rs_agent_controller.Host.{Host, Io}
use ipa_rs_agent_controller.Host.Effect.{
  World, M, pure, bail, lift, ◌>>=◌, attempt, on_error, ignore, asks, read, read_if_found, exists,
  try_exists, utc_now, for_each, map_each,
}

-- The action leaves the invariant true, whatever its result is.
pub record Keeps {H : Host} {A : Type 0} (P : World H → Type 0) (m : M H A) : Type 0 where
  pub at : (w : World H) → P w → P (m w).1

module _ {H : Host} {P : World H → Type 0} where
  pub Keeps-pure : {X : Type 0} (value : X) → Keeps P (pure value)
  unfolding pure
  Keeps-pure value = record { at = λ w h. h }

  pub Keeps-bail : {A : Type 0} (e : Text) → Keeps P (bail {A = A} e)
  unfolding bail
  Keeps-bail e = record { at = λ w h. h }

  pub Keeps-lift : {X : Type 0} (result : Result X) → Keeps P (lift result)
  unfolding lift
  Keeps-lift result = record { at = λ w h. h }

  pub Keeps-asks : {A : Type 0} (f : H.State → A) → Keeps P (asks f)
  unfolding asks
  Keeps-asks f = record { at = λ w h. h }

  pub Keeps-read : {A : Type 0} (f : H.State → Io A) → Keeps P (read f)
  unfolding read
  Keeps-read f = record { at = λ w h. h }

  pub Keeps-read_if_found : {A : Type 0} (f : H.State → Io A) → Keeps P (read_if_found f)
  unfolding read_if_found
  Keeps-read_if_found f = record { at = λ w h. h }

  pub Keeps-exists : (p : FilePath) → Keeps P (exists p)
  unfolding exists
  Keeps-exists p = record { at = λ w h. h }

  pub Keeps-try_exists : (p : FilePath) → Keeps P (try_exists p)
  unfolding try_exists
  Keeps-try_exists p = record { at = λ w h. h }

  pub Keeps-utc_now : Keeps P utc_now
  unfolding utc_now
  Keeps-utc_now = record { at = λ w h. h }

  pub Keeps-if :
      {A : Type 0} (b : Bool) (m n : M H A) → Keeps P m → Keeps P n → Keeps P (if b then m else n)
  Keeps-if true m n then_keeps else_keeps = then_keeps
  Keeps-if false m n then_keeps else_keeps = else_keeps

  -- The rest may use that the checked value is no error.
  pub Keeps-bind_lift :
      {X Y : Type 0} (checked : Result X) (rest : X → M H Y)
      → ((x : X) → checked ≡ ok x → Keeps P (rest x))
      → Keeps P (lift checked >>= rest)
  unfolding ◌>>=◌
  Keeps-bind_lift (ok x) rest k = k x refl
  Keeps-bind_lift (err message) rest k = record { at = λ w h. h }
  Keeps-bind_lift (panic message) rest k = record { at = λ w h. h }

  -- The rest may use that its argument is a result of the first part.
  pub Keeps-bind_ok :
      {X Y : Type 0} (step : M H X) (rest : X → M H Y)
      → Keeps P step
      → ((x : X) (w : World H) → (step w).0 ≡ ok x → Keeps P (rest x))
      → Keeps P (step >>= rest)
  unfolding ◌>>=◌
  Keeps-bind_ok step rest first behind = record {
    at = λ w h.
        let (r, v) = step w in (Keeps-bind_lift r rest (λ x e. behind x w e)).at v (first.at w h);
  }

  pub Keeps-bind :
      {X Y : Type 0} (step : M H X) (rest : X → M H Y)
      → Keeps P step
      → ((x : X) → Keeps P (rest x))
      → Keeps P (step >>= rest)
  unfolding ◌>>=◌
  Keeps-bind step rest first behind = record {
    at = λ w h.
        let (r, v) = step w in (Keeps-bind_lift r rest (λ x _. behind x)).at v (first.at w h);
  }

  pub Keeps-attempt : {A : Type 0} (m : M H A) → Keeps P m → Keeps P (attempt m)
  unfolding attempt
  Keeps-attempt m km = record { at = km.at }

  pub Keeps-ignore : {A : Type 0} (m : M H A) → Keeps P m → Keeps P (ignore m)
  unfolding ignore
  Keeps-ignore m km = Keeps-bind (attempt m) _ (Keeps-attempt m km) (λ _. Keeps-pure tt)

  pub Keeps-on_error :
      {A : Type 0} (m : M H A) (handler : Text → M H (Unit {0}))
      → Keeps P m
      → ((e : Text) → Keeps P (handler e))
      → Keeps P (on_error m handler)
  unfolding on_error
  Keeps-on_error m handler km kh = Keeps-bind (attempt m) _ (Keeps-attempt m km) (elim [
    | ok a ↦ Keeps-pure a
    | err e ↦ Keeps-bind (handler e) _ (kh e) (λ _. Keeps-bail e)
    | panic e ↦ Keeps-lift (panic e)
  ])

  pub Keeps-for_each :
      {A : Type 0} (l : List A) (f : A → M H (Unit {0}))
      → ((a : A) → Keeps P (f a))
      → Keeps P (for_each l f)
  unfolding for_each
  Keeps-for_each [] f kf = Keeps-pure tt
  Keeps-for_each (a ∷ l) f kf = Keeps-bind (f a) _ (kf a) (λ _. Keeps-for_each l f kf)

  pub Keeps-map_each :
      {A B : Type 0} (l : List A) (f : A → M H B)
      → ((a : A) → Keeps P (f a))
      → Keeps P (map_each l f)
  unfolding map_each
  Keeps-map_each [] f kf = Keeps-pure []
  Keeps-map_each (a ∷ l) f kf =
      Keeps-bind (f a) _ (kf a)
        λ b. Keeps-bind (map_each l f) _ (Keeps-map_each l f kf) λ bs. Keeps-pure (b ∷ bs)

pub ruleset keeps_rules = (
  Keeps-pure, Keeps-bail, Keeps-lift, Keeps-asks, Keeps-read, Keeps-read_if_found, Keeps-exists,
  Keeps-try_exists, Keeps-utc_now, Keeps-if, Keeps-bind, Keeps-attempt, Keeps-ignore,
  Keeps-on_error, Keeps-for_each, Keeps-map_each,
)
