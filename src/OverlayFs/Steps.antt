-- ===== src/OverlayFs/Steps.antt =====
-- One step of a chain of actions on the file system, by what its first action answers.
use ipa_rs_agent_controller.Common.{◌≡◌, refl, arith}
use ipa_rs_agent_controller.Host.{Host}
use ipa_rs_agent_controller.OverlayFs.Effect.{
  Fs, F, Answer, answered, refused, crashed, lift, pure, ◌>>=◌,
}

module _ {H : Host} {A B : Type 0} where
  -- A chain that begins with a check answers only if the check does.
  pub lift-inv :
      (r : Answer A) (f : A → F H B) (s : Fs H) (b : B)
      → ((lift r >>= f) s).0 ≡ answered b
      → (a : A) × (r ≡ answered a) × ((lift r >>= f) s ≡ f a s)
  unfolding ◌>>=◌ lift
  lift-inv (answered a) f s b h = (a, refl, refl)
  lift-inv (refused e) f s b h = absurd cc
  lift-inv (crashed e) f s b h = absurd cc

  pub bind-inv :
      (m : F H A) (f : A → F H B) (s : Fs H) (b : B)
      → ((m >>= f) s).0 ≡ answered b
      → (a : A) × ((m s).0 ≡ answered a) × ((m >>= f) s ≡ f a (m s).1)
  unfolding ◌>>=◌ lift
  bind-inv m f s b h = lift-inv (m s).0 f (m s).1 b h

pub pure-inv :
    {H : Host} {A : Type 0} (a b : A) (s : Fs H) → (pure {H = H} a s).0 ≡ answered b → a ≡ b
unfolding pure
pure-inv a b s h = ground arith
