-- ===== src/OverlayFs/Keeps.antt =====
-- Invariants that the handlers keep, by one rule for each way to build an action.
pub mod Os
pub mod Table
use ipa_rs_agent_controller.Common.{
  ℕ, ◌≡◌, refl, Bool, true, false, Option, none, some, List, [], ◌∷◌, if◌then◌else◌,
}
use ipa_rs_agent_controller.Path.{FilePath}
use ipa_rs_agent_controller.Host.{Host}
use ipa_rs_agent_controller.OverlayFs.Effect.{
  Fs, F, Errno, Answer, answered, refused, crashed, pure, refuse, lift, ◌>>=◌, try, asks, attempt,
  on_refusal, for_each, map_each, fold_each, file_io, drop_file, ino_for_path, drop_found, set_file,
  unset_file, file_of, insert_file, remove_file_entry, fresh_fh, path_for_ino,
}

module _ {H : Host} {X Y Z : Type 0} where
  answer_assoc :
      (r : Answer X) (f : X → F H Y) (g : Y → F H Z) (s : Fs H)
      → ((lift r >>= f) >>= g) s ≡ (lift r >>= λ x. f x >>= g) s
  unfolding ◌>>=◌ lift
  answer_assoc (answered x) f g s = refl
  answer_assoc (refused e) f g s = refl
  answer_assoc (crashed e) f g s = refl

  bind_assoc :
      (m : F H X) (f : X → F H Y) (g : Y → F H Z) (s : Fs H)
      → ((m >>= f) >>= g) s ≡ (m >>= λ x. f x >>= g) s
  unfolding ◌>>=◌ lift
  bind_assoc m f g s = answer_assoc (m s).0 f g (m s).1

-- The action leaves the condition true, whatever its answer is.
pub record Keeps (H : Host) {A : Type 0} (P : Fs H → Type 0) (m : F H A) : Type 0 where
  pub at : (s : Fs H) → P s → P (m s).1

module _ {H : Host} {P : Fs H → Type 0} where
  pub Keeps-pure : {X : Type 0} (value : X) → Keeps H P (pure value)
  unfolding pure
  Keeps-pure value = record { at = λ s h. h }

  pub Keeps-refuse : {A : Type 0} (e : Errno) → Keeps H P (refuse {A = A} e)
  unfolding refuse
  Keeps-refuse e = record { at = λ s h. h }

  pub Keeps-lift : {X : Type 0} (answer : Answer X) → Keeps H P (lift answer)
  unfolding lift
  Keeps-lift answer = record { at = λ s h. h }

  pub Keeps-asks : {A : Type 0} (f : H.State → A) → Keeps H P (asks f)
  unfolding asks
  Keeps-asks f = record { at = λ s h. h }

  pub Keeps-if :
      {A : Type 0} (b : Bool) (m n : F H A)
      → Keeps H P m
      → Keeps H P n
      → Keeps H P (if b then m else n)
  Keeps-if true m n then_keeps else_keeps = then_keeps
  Keeps-if false m n then_keeps else_keeps = else_keeps

  Keeps-answer :
      {X Y : Type 0} (answer : Answer X) (rest : X → F H Y)
      → ((x : X) → answer ≡ answered x → Keeps H P (rest x))
      → Keeps H P (lift answer >>= rest)
  unfolding ◌>>=◌ lift
  Keeps-answer (answered x) rest k = record { at = (k x refl).at }
  Keeps-answer (refused e) rest k = record { at = λ s h. h }
  Keeps-answer (crashed e) rest k = record { at = λ s h. h }

  -- The rest may use that its argument is an answer of the first part.
  pub Keeps-bind_answer :
      {X Y : Type 0} (step : F H X) (rest : X → F H Y)
      → Keeps H P step
      → ((x : X) (s : Fs H) → (step s).0 ≡ answered x → Keeps H P (rest x))
      → Keeps H P (step >>= rest)
  unfolding ◌>>=◌ lift
  Keeps-bind_answer step rest first behind = record {
    at = λ s h. (Keeps-answer (step s).0 rest (λ x e. behind x s e)).at (step s).1 (first.at s h);
  }

  pub Keeps-bind :
      {X Y : Type 0} (step : F H X) (rest : X → F H Y)
      → Keeps H P step
      → ((x : X) → Keeps H P (rest x))
      → Keeps H P (step >>= rest)
  Keeps-bind step rest first behind = Keeps-bind_answer step rest first (λ x s e. behind x)

  pub Keeps-bind_assoc :
      {X Y Z : Type 0} (m : F H X) (f : X → F H Y) (g : Y → F H Z)
      → Keeps H P ((m >>= f) >>= g)
      → Keeps H P (m >>= λ x. f x >>= g)
  Keeps-bind_assoc m f g k = record { at = λ s u. rw (← bind_assoc m f g s) (k.at s u) }

  pub Keeps-bind_lift :
      {X Y : Type 0} (checked : Answer X) (rest : X → F H Y)
      → ((x : X) → checked ≡ answered x → Keeps H P (rest x))
      → Keeps H P (lift checked >>= rest)
  Keeps-bind_lift checked rest k = Keeps-answer checked rest k

  pub Keeps-attempt : {A : Type 0} (m : F H A) → Keeps H P m → Keeps H P (attempt m)
  unfolding attempt
  Keeps-attempt m k = record { at = k.at }

  handler_keeps :
      {A : Type 0} (handler : F H (Unit {0})) (answer : Answer A) (s : Fs H)
      → Keeps H P handler
      → P s
      → P (on_refusal (λ t. (answer, t)) handler s).1
  unfolding on_refusal ◌>>=◌ pure refuse lift
  handler_keeps handler (answered a) s k h = h
  handler_keeps handler (refused e) s k h =
      (Keeps-bind handler (λ _. refuse e) k (λ _. Keeps-refuse e)).at s h
  handler_keeps handler (crashed e) s k h = h

  pub Keeps-on_refusal :
      {A : Type 0} (m : F H A) (handler : F H (Unit {0}))
      → Keeps H P m
      → Keeps H P handler
      → Keeps H P (on_refusal m handler)
  unfolding on_refusal
  Keeps-on_refusal m handler km kh = record {
    at = λ s h. handler_keeps handler (m s).0 (m s).1 kh (km.at s h);
  }

  pub Keeps-for_each :
      {A : Type 0} (l : List A) (f : A → F H (Unit {0}))
      → ((a : A) → Keeps H P (f a))
      → Keeps H P (for_each l f)
  unfolding for_each
  Keeps-for_each [] f kf = Keeps-pure tt
  Keeps-for_each (a ∷ l) f kf = Keeps-bind (f a) _ (kf a) (λ _. Keeps-for_each l f kf)

  pub Keeps-map_each :
      {A B : Type 0} (l : List A) (f : A → F H B)
      → ((a : A) → Keeps H P (f a))
      → Keeps H P (map_each l f)
  unfolding map_each
  Keeps-map_each [] f kf = Keeps-pure []
  Keeps-map_each (a ∷ l) f kf =
      Keeps-bind (f a) _ (kf a)
        λ b. Keeps-bind (map_each l f) _ (Keeps-map_each l f kf) λ bs. Keeps-pure (b ∷ bs)

  pub Keeps-fold_each :
      {A B : Type 0} (l : List A) (b : B) (f : A → B → F H B)
      → ((a : A) (c : B) → Keeps H P (f a c))
      → Keeps H P (fold_each l b f)
  unfolding fold_each
  Keeps-fold_each [] b f kf = Keeps-pure b
  Keeps-fold_each (a ∷ l) b f kf = Keeps-bind (f a b) _ (kf a b) λ c. Keeps-fold_each l c f kf

  pub Keeps-path_for_ino : (ino : ℕ) → Keeps H P (path_for_ino ino)
  unfolding path_for_ino
  Keeps-path_for_ino ino = record { at = λ s h. h }

  pub Keeps-file_of : (fh : ℕ) → Keeps H P (file_of fh)
  unfolding file_of
  Keeps-file_of fh = record { at = λ s h. h }

pub ruleset action_rules = (
  Keeps-pure, Keeps-refuse, Keeps-lift, Keeps-asks, Keeps-if, Keeps-bind, Keeps-attempt,
  Keeps-on_refusal, Keeps-for_each, Keeps-map_each, Keeps-fold_each, Keeps-path_for_ino,
  Keeps-file_of,
)
