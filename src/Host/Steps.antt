-- ===== src/Host/Steps.antt =====
-- One step of a chain of actions, by what its first action returns.
use ipa_rs_agent_controller.Common.{◌≡◌, refl, sym, ap, ◌∙◌, arith}
use ipa_rs_agent_controller.Common.{Result, ok, err, panic}
use ipa_rs_agent_controller.Common.Text.{Text}
use ipa_rs_agent_controller.Host.{Host, Io, done, not_found, failed, io_result}
use ipa_rs_agent_controller.Host.Effect.{World, M, lift, ◌>>=◌, read}

module _ {H : Host} {A B : Type 0} where
  pub bind-ok :
      (m : M H A) (f : A → M H B) {w v : World H} {a : A} → m w ≡ (ok a, v) → (m >>= f) w ≡ f a v
  unfolding ◌>>=◌
  bind-ok m f h = rw h

  pub bind-err :
      (m : M H A) (f : A → M H B) {w v : World H} {e : Text}
      → m w ≡ (err e, v)
      → (m >>= f) w ≡ (err e, v)
  unfolding ◌>>=◌
  bind-err m f h = rw h

  pub lift-ok :
      (r : Result A) (f : A → M H B) {w : World H} {a : A} → r ≡ ok a → (lift r >>= f) w ≡ f a w
  unfolding ◌>>=◌ lift
  lift-ok r f h = rw h

  pub lift-err :
      (r : Result A) (f : A → M H B) {w : World H} {e : Text}
      → r ≡ err e
      → (lift r >>= f) w ≡ (err e, w)
  unfolding ◌>>=◌ lift
  lift-err r f h = rw h

  -- A chain that begins with a check ends well only if the check does.
  pub lift-inv :
      (r : Result A) (f : A → M H B) (w : World H) (b : B)
      → ((lift r >>= f) w).0 ≡ ok b
      → (a : A) × (r ≡ ok a) × ((lift r >>= f) w ≡ f a w)
  unfolding ◌>>=◌ lift
  lift-inv (ok a) f w b h = (a, refl, refl)
  lift-inv (err e) f w b h = absurd cc
  lift-inv (panic e) f w b h = absurd cc

  pub bind-inv :
      (m : M H A) (f : A → M H B) (w : World H) (b : B)
      → ((m >>= f) w).0 ≡ ok b
      → (a : A) × ((m w).0 ≡ ok a) × ((m >>= f) w ≡ f a (m w).1)
  unfolding ◌>>=◌ lift
  bind-inv m f w b h = lift-inv (m w).0 f (m w).1 b h

  pub bind-first_ok :
      (m : M H A) (f : A → M H B) (w : World H) (a : A) → (m w).0 ≡ ok a → (m >>= f) w ≡ f a (m w).1
  unfolding ◌>>=◌
  bind-first_ok m f w a h = rw h

  -- A chain that ends well, without its first action.
  pub bind-rest :
      (m : M H A) (f : A → M H B) (w : World H) (b : B)
      → ((m >>= f) w).0 ≡ ok b
      → (a : A) × ((m w).0 ≡ ok a) × ((f a (m w).1).0 ≡ ok b)
  bind-rest m f w b h =
      let (a, first, same) = bind-inv m f w b h in (a, first, ap (λ r. r.0) (sym same) ∙ h)

io_result-ok : {A : Type 0} (r : Io A) (a : A) → io_result r ≡ ok a → r ≡ done a
unfolding io_result
io_result-ok (done b) a h = ground arith
io_result-ok not_found a h = absurd cc
io_result-ok (failed e) a h = absurd cc

-- What is read with `?` is there.
pub read-ok :
    {H : Host} {A : Type 0} (f : H.State → Io A) (w : World H) (a : A)
    → (read f w).0 ≡ ok a
    → f w.os ≡ done a
unfolding read
read-ok f w a h = io_result-ok (f w.os) a h
