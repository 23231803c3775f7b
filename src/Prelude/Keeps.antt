-- ===== src/Prelude/Keeps.antt =====
-- What an action keeps of the state, on every outcome, and what it returns.
use whalemail.Prelude.Action.{
  Outcome, done, failed, panicked, Action, pure, fail, panic, continue, ◌>>=◌, ◌>>◌,
}

abbrev pub Returns : {E A : Type 0} → (A → Type 0) → Outcome E A → Type 0
Returns P (done a) = P a
Returns P (failed e) = Unit
Returns P panicked = Unit

pub Returns-any : {E A : Type 0} (o : Outcome E A) → Returns (λ _. Unit) o
Returns-any (done a) = tt
Returns-any (failed e) = tt
Returns-any panicked = tt

-- `I` holds of the state before and behind `m`, and `P` of what `m` returns.
pub record Keeps {E S A : Type 0} (I : S → Type 0) (P : A → Type 0) (m : Action E S A)
    : Type 0 where
  pub at : (s : S) → I s → I (m s).1 × Returns P (m s).0

module _ {E S : Type 0} {I : S → Type 0} where
  pub Keeps-pure : {A : Type 0} {P : A → Type 0} (a : A) → P a → Keeps {E = E} I P (pure a)
  Keeps-pure a h = record { at = λ s i. (i, h) }

  pub Keeps-fail : {A : Type 0} {P : A → Type 0} (e : E) → Keeps I P (fail {A = A} e)
  Keeps-fail e = record { at = λ s i. (i, tt) }

  pub Keeps-panic : {A : Type 0} {P : A → Type 0} → Keeps I P (panic {E = E} {S = S} {A = A})
  Keeps-panic = record { at = λ s i. (i, tt) }

  Keeps-continue :
      {A B : Type 0} {Q : A → Type 0} {P : B → Type 0} (o : Outcome E A) (f : A → Action E S B)
      → ((a : A) → Q a → Keeps I P (f a))
      → (s : S) → I s
      → Returns Q o
      → I (continue o f s).1 × Returns P (continue o f s).0
  Keeps-continue (done a) f k s i q = (k a q).at s i
  Keeps-continue (failed e) f k s i q = (i, tt)
  Keeps-continue panicked f k s i q = (i, tt)

  pub Keeps-bind :
      {A B : Type 0} (Q : A → Type 0) {P : B → Type 0} (m : Action E S A) (f : A → Action E S B)
      → Keeps I Q m
      → ((a : A) → Q a → Keeps I P (f a))
      → Keeps I P (m >>= f)
  Keeps-bind Q m f km kf = record {
    at = λ s i. let r = km.at s i in Keeps-continue {Q = Q} (m s).0 f kf (m s).1 r.0 r.1;
  }

  pub Keeps-then :
      {A B : Type 0} {P : B → Type 0} (m : Action E S A) (k : Action E S B)
      → Keeps I (λ _. Unit) m
      → Keeps I P k
      → Keeps I P (m >> k)
  Keeps-then m k km kk = Keeps-bind (λ _. Unit) m (λ _. k) km (λ _ _. kk)
