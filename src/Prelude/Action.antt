-- ===== src/Prelude/Action.antt =====
-- Code that changes a state and may return an error or panic. What was changed before the error
-- stays changed, so the state comes back in every case.
use whalemail.Prelude.Outcome.{Result, ok, err}

pub data Outcome (E A : Type 0) : Type 0 where
  done : A → Outcome E A
  failed : E → Outcome E A
  panicked : Outcome E A

abbrev pub Action : Type 0 → Type 0 → Type 0 → Type 0
Action E S A = S → Outcome E A × S

module _ {E S : Type 0} where
  abbrev pub pure : {A : Type 0} → A → Action E S A
  pure a s = (done a, s)

  abbrev pub fail : {A : Type 0} → E → Action E S A
  fail e s = (failed e, s)

  abbrev pub panic : {A : Type 0} → Action E S A
  panic s = (panicked, s)

  abbrev pub lift : {A : Type 0} → Result E A → Action E S A
  lift (ok a) s = (done a, s)
  lift (err e) s = (failed e, s)

  abbrev pub continue : {A B : Type 0} → Outcome E A → (A → Action E S B) → Action E S B
  continue (done a) f s = f a s
  continue (failed e) f s = (failed e, s)
  continue panicked f s = (panicked, s)

  infixl 10 ◌>>=◌ ◌>>◌
  abbrev pub ◌>>=◌ : {A B : Type 0} → Action E S A → (A → Action E S B) → Action E S B
  ◌>>=◌ m f s = continue (m s).0 f (m s).1

  abbrev pub ◌>>◌ : {A B : Type 0} → Action E S A → Action E S B → Action E S B
  m >> k = m >>= λ _. k
