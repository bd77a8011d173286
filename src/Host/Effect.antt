-- ===== src/Host/Effect.antt =====
-- Programs over a host: an action returns its result and the world that it leaves, also beside an error.
-- The world is the host's state and the counter behind `unique_tmp_path`.
use ipa_rs_agent_controller.Common.{ℕ, Bool, true, false, Option, none, some, List, [], ◌∷◌}
use ipa_rs_agent_controller.Common.{Result, ok, err, panic}
use ipa_rs_agent_controller.Common.Text.{Text}
use ipa_rs_agent_controller.Path.{FilePath}
use ipa_rs_agent_controller.Host.{Host, Io, done, not_found, failed, io_result, Change}

pub record World (H : Host) : Type 0 where
  pub os : H.State
  pub tmp_counter : ℕ  -- AtomicU64

abbrev pub M : Host → Type 0 → Type 0
M H A = World H → Result A × World H

abbrev pub settle : {A : Type 0} → Result A → Result (Result A)
settle (ok a) = ok (ok a)
settle (err e) = ok (err e)
settle (panic e) = panic e

abbrev found : {A : Type 0} → Io A → Result (Option A)
found (done a) = ok (some a)
found not_found = ok none
found (failed e) = err e

module _ {H : Host} where
  abbrev continue : {A B : Type 0} → Result A → (A → M H B) → M H B
  continue (ok a) f w = f a w
  continue (err e) f w = (err e, w)
  continue (panic e) f w = (panic e, w)

  unfoldable pub pure : {A : Type 0} → A → M H A
  pure a w = (ok a, w)

  -- `bail!(message)`
  unfoldable pub bail : {A : Type 0} → Text → M H A
  bail e w = (err e, w)

  unfoldable pub lift : {A : Type 0} → Result A → M H A
  lift r w = (r, w)

  infixl 10 ◌>>=◌ ◌>>◌
  unfoldable pub ◌>>=◌ : {A B : Type 0} → M H A → (A → M H B) → M H B
  unfolding pure bail lift
  ◌>>=◌ m f w = let (r, w') = m w in continue r f w'

  abbrev pub ◌>>◌ : {A B : Type 0} → M H A → M H B → M H B
  m >> n = m >>= λ _. n

  -- The `Result` of an action as a value; a panic goes on.
  unfoldable pub attempt : {A : Type 0} → M H A → M H (Result A)
  attempt m w = let (r, w') = m w in (settle r, w')

  abbrev after_error : {A : Type 0} → (Text → M H (Unit {0})) → Result A → M H A
  after_error handler (ok a) = pure a
  after_error handler (err e) = handler e >> bail e
  after_error handler (panic e) = lift (panic e)

  -- `if let Err(error) = m { handler; return Err(error); }`
  unfoldable pub on_error : {A : Type 0} → M H A → (Text → M H (Unit {0})) → M H A
  unfolding attempt
  on_error m handler = attempt m >>= after_error handler

  -- `let _ = m;`
  unfoldable pub ignore : {A : Type 0} → M H A → M H (Unit {0})
  unfolding attempt
  ignore m = attempt m >>= λ _. pure tt

  unfoldable pub asks : {A : Type 0} → (H.State → A) → M H A
  asks f w = (ok (f w.os), w)

  unfoldable pub perform_io : Change → World H → Io (Unit {0}) × World H
  perform_io c w = let (r, s) = H.perform c w.os in (r, record w { os = s })

  -- A call of the file system with `?`.
  unfoldable pub perform : Change → M H (Unit {0})
  unfolding perform_io io_result
  perform c w = let (r, w') = perform_io c w in (io_result r, w')

  -- A call where `ErrorKind::NotFound` is no error: `none`.
  unfoldable pub perform_if_found : Change → M H (Option (Unit {0}))
  unfolding perform_io
  perform_if_found c w = let (r, w') = perform_io c w in (found r, w')

  unfoldable pub read_if_found : {A : Type 0} → (H.State → Io A) → M H (Option A)
  read_if_found f w = (found (f w.os), w)

  unfoldable pub read : {A : Type 0} → (H.State → Io A) → M H A
  unfolding io_result
  read f w = (io_result (f w.os), w)

  -- `Path::exists`: the metadata can be had.
  unfoldable pub exists : FilePath → M H Bool
  unfolding asks
  exists p =
      asks (λ s. elim (H.metadata s p) [ done m ↦ true | not_found ↦ false | failed e ↦ false ])

  -- `tokio::fs::try_exists`
  unfoldable pub try_exists : FilePath → M H Bool
  unfolding read
  try_exists p = read (λ s. elim (H.metadata s p) [
    | done m ↦ done true
    | not_found ↦ done false
    | failed e ↦ failed e
  ])

  unfoldable pub utc_now : M H ℕ
  unfolding asks
  utc_now = asks H.utc_now

  -- The loops over a list: each with `?`.
  unfoldable pub for_each : {A : Type 0} → List A → (A → M H (Unit {0})) → M H (Unit {0})
  for_each [] f = pure tt
  for_each (a ∷ l) f = f a >> for_each l f

  unfoldable pub map_each : {A B : Type 0} → List A → (A → M H B) → M H (List B)
  map_each [] f = pure []
  map_each (a ∷ l) f = f a >>= λ b. map_each l f >>= λ bs. pure (b ∷ bs)
