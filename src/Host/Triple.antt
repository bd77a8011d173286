-- ===== src/Host/Triple.antt =====
-- What an action guarantees of its value and of the world that it leaves, by one rule for each way to build
-- an action. An error and a panic leave a world with the last condition.
use ipa_rs_agent_controller.Common.{◌≡◌, ◌≢◌, refl, Result, ok, err, panic, context}
use ipa_rs_agent_controller.Common.Text.{Text}
use ipa_rs_agent_controller.Host.{Host, Io, done, not_found, failed, io_result, Change}
use ipa_rs_agent_controller.Host.Effect.{
  World, M, pure, bail, lift, ◌>>=◌, attempt, on_error, settle, perform, perform_io,
}
use ipa_rs_agent_controller.Host.Keeps.{Keeps}

abbrev pub Outcome : {A W : Type 0} → (A → W → Type 0) → (W → Type 0) → Result A → W → Type 0
Outcome Q E (ok a) w = Q a w
Outcome Q E (err e) w = E w
Outcome Q E (panic e) w = E w

Outcome-same :
    {A W : Type 0} (E : W → Type 0) (r : Result A) (w : W) → E w → Outcome (λ (_ : A). E) E r w
Outcome-same E (ok a) w h = h
Outcome-same E (err e) w h = h
Outcome-same E (panic e) w h = h

Outcome-settle :
    {A W : Type 0} (Q : A → W → Type 0) (E : W → Type 0) (r : Result A) (w : W)
    → Outcome Q E r w
    → Outcome (λ r' w'. Outcome Q E r' w') E (settle r) w
Outcome-settle Q E (ok a) w h = h
Outcome-settle Q E (err e) w h = h
Outcome-settle Q E (panic e) w h = h

pub Outcome-context :
    {A W : Type 0} (Q : A → W → Type 0) (F : W → Type 0) (c : Text) (r : Result A) (w : W)
    → Outcome Q F r w
    → Outcome Q F (context c r) w
unfolding context
Outcome-context Q F c (ok a) w h = h
Outcome-context Q F c (err e) w h = h
Outcome-context Q F c (panic e) w h = h

-- The world after a call of the file system.
abbrev pub after : {H : Host} → Change → World H → World H
after {H} c w = record w { os = (H.perform c w.os).1 }

Outcome-io :
    {W : Type 0} (Q : Unit {0} → W → Type 0) (E : W → Type 0) (r : Io (Unit {0})) (w : W)
    → (r ≡ done tt → Q tt w)
    → (r ≢ done tt → E w)
    → Outcome Q E (io_result r) w
unfolding io_result
Outcome-io Q E (done u) w f g = f refl
Outcome-io Q E not_found w f g = g (λ e. absurd cc)
Outcome-io Q E (failed e) w f g = g (λ e. absurd cc)

pub record Triple {H : Host} {A : Type 0} (P : World H → Type 0) (m : M H A)
    (Q : A → World H → Type 0) (E : World H → Type 0) : Type 0 where
  pub at : (w : World H) → P w → Outcome Q E (m w).0 (m w).1

module _ {H : Host} {E : World H → Type 0} where
  pub Triple-pure :
      {A : Type 0} {P : World H → Type 0} {Q : A → World H → Type 0} (a : A)
      → ((w : World H) → P w → Q a w)
      → Triple P (pure a) Q E
  unfolding pure
  Triple-pure a f = record { at = f }

  Triple-continue :
      {A B : Type 0} {R : A → World H → Type 0} {Q : B → World H → Type 0} (r : Result A)
      (f : A → M H B)
      → ((a : A) → Triple (R a) (f a) Q E)
      → Triple (Outcome R E r) (lift r >>= f) Q E
  unfolding ◌>>=◌ lift
  Triple-continue (ok a) f tf = record { at = (tf a).at }
  Triple-continue (err e) f tf = record { at = λ w h. h }
  Triple-continue (panic e) f tf = record { at = λ w h. h }

  pub Triple-bind :
      {A B : Type 0} {P : World H → Type 0} {R : A → World H → Type 0} {Q : B → World H → Type 0}
      (m : M H A) (f : A → M H B)
      → Triple P m R E
      → ((a : A) → Triple (R a) (f a) Q E)
      → Triple P (m >>= f) Q E
  unfolding ◌>>=◌ lift
  Triple-bind m f tm tf = record {
    at = λ w h. let (r, v) = m w in (Triple-continue r f tf).at v (tm.at w h);
  }

  pub Triple-keeps : {A : Type 0} (m : M H A) → Keeps E m → Triple E m (λ _. E) E
  Triple-keeps m k = record { at = λ w h. Outcome-same E (m w).0 (m w).1 (k.at w h) }

  pub Triple-bail :
      {A : Type 0} {Q : A → World H → Type 0} (e : Text) → Triple E (bail {A = A} e) Q E
  unfolding bail
  Triple-bail e = record { at = λ w h. h }

  pub Triple-panic :
      {A : Type 0} {Q : A → World H → Type 0} (e : Text) → Triple E (lift {A = A} (panic e)) Q E
  unfolding lift
  Triple-panic e = record { at = λ w h. h }

  Triple-attempt :
      {A : Type 0} {P : World H → Type 0} {Q : A → World H → Type 0} (m : M H A)
      → Triple P m Q E
      → Triple P (attempt m) (λ r w. Outcome Q E r w) E
  unfolding attempt
  Triple-attempt {Q = Q} m tm = record {
    at = λ w h. Outcome-settle Q E (m w).0 (m w).1 (tm.at w h);
  }

  -- The handler of an error keeps what the error left.
  pub Triple-on_error :
      {A : Type 0} {P : World H → Type 0} {Q : A → World H → Type 0} (m : M H A)
      (handler : Text → M H (Unit {0}))
      → Triple P m Q E
      → ((e : Text) → Keeps E (handler e))
      → Triple P (on_error m handler) Q E
  unfolding on_error
  Triple-on_error m handler tm kh = Triple-bind (attempt m) _ (Triple-attempt m tm) (elim [
    | ok a ↦ Triple-pure a (λ w h. h)
    | err e ↦ Triple-bind (handler e) _ (Triple-keeps (handler e) (kh e)) (λ _. Triple-bail e)
    | panic e ↦ Triple-panic e
  ])

  pub Triple-lift :
      {A : Type 0} {P : World H → Type 0} {Q : A → World H → Type 0} (r : Result A)
      → ((a : A) (w : World H) → P w → Q a w)
      → ((w : World H) → P w → E w)
      → Triple P (lift r) Q E
  unfolding lift
  Triple-lift (ok a) f g = record { at = f a }
  Triple-lift (err e) f g = record { at = g }
  Triple-lift (panic e) f g = record { at = g }

  pub Triple-perform :
      {P : World H → Type 0} {Q : Unit {0} → World H → Type 0} (c : Change)
      → ((w : World H) → P w → (H.perform c w.os).0 ≡ done tt → Q tt (after c w))
      → ((w : World H) → P w → (H.perform c w.os).0 ≢ done tt → E (after c w))
      → Triple P (perform c) Q E
  unfolding perform perform_io
  Triple-perform {Q = Q} c f g = record {
    at = λ w h. Outcome-io Q E (H.perform c w.os).0 (after c w) (f w h) (g w h);
  }
