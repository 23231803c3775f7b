-- ===== src/Prelude/Calm.antt =====
-- Actions that never panic.
use whalemail.Prelude.{◌≢◌, refl}
use whalemail.Prelude.Action.{
  Outcome, done, failed, panicked, Action, pure, fail, continue, ◌>>=◌, ◌>>◌,
}

pub record Calm {E S A : Type 0} (m : Action E S A) : Type 0 where
  pub at : (s : S) → (m s).0 ≢ panicked

module _ {E S : Type 0} where
  pub Calm-pure : {A : Type 0} (a : A) → Calm (pure {E = E} {S = S} a)
  Calm-pure a = record { at = λ s e. cc }

  pub Calm-fail : {A : Type 0} (x : E) → Calm (fail {E = E} {S = S} {A = A} x)
  Calm-fail x = record { at = λ s e. cc }

  continue-Calm :
      {A B : Type 0} (o : Outcome E A) (s : S) (f : A → Action E S B)
      → o ≢ panicked
      → ((a : A) → Calm (f a))
      → (continue o f s).0 ≢ panicked
  continue-Calm (done a) s f n h e = (h a).at s e
  continue-Calm (failed x) s f n h e = cc
  continue-Calm panicked s f n h e = n refl

  pub Calm-bind :
      {A B : Type 0} {m : Action E S A} {f : A → Action E S B}
      → Calm m
      → ((a : A) → Calm (f a))
      → Calm (m >>= f)
  Calm-bind {m = m} {f} h k = record { at = λ s. continue-Calm (m s).0 (m s).1 f (h.at s) k }

  pub Calm-then :
      {A B : Type 0} {m : Action E S A} {k : Action E S B} → Calm m → Calm k → Calm (m >> k)
  Calm-then h k = Calm-bind h λ _. k
