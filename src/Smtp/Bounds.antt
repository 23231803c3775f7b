-- ===== src/Smtp/Bounds.antt =====
-- How many replies an action writes.
pub mod Delivery
pub mod Addresses
pub mod Handle
use whalemail.Prelude.{
  ℕ, ◌+◌, ◌≤◌, ◌≡◌, refl, sym, ap, subst, ◌∙◌, List, [], ◌∷◌, ◌++◌, length, length-append, arith,
  append_assoc, append-nil,
}
use whalemail.Prelude.Action.{
  Outcome, done, failed, panicked, Action, pure, fail, panic, continue, ◌>>=◌, ◌>>◌,
}
use whalemail.Text.{Text}
use whalemail.Net.{IoError, send_to}
use whalemail.Smtp.Crates.{Env, send}

-- there are at most n texts more than before
abbrev pub AtMost : ℕ → Env → Env → Type 0
AtMost n env env' =
    (ms : List Text) × (length ms ≤ n) × (env'.socket.written ≡ env.socket.written ++ ms)

pub record Says {E A : Type 0} (n : ℕ) (m : Action E Env A) : Type 0 where
  pub at : (env : Env) → AtMost n env (m env).1

pub AtMost-same :
    (n : ℕ) (env env' : Env) → env'.socket.written ≡ env.socket.written → AtMost n env env'
AtMost-same n env env' e = ([], omega arith, e ∙ sym (append-nil _))

AtMost-trans :
    (a b : ℕ) (env env' env'' : Env)
    → AtMost a env env'
    → AtMost b env' env''
    → AtMost (a + b) env env''
AtMost-trans a b env env' env'' (ms, p, e) (ns, q, f) =
    (ms ++ ns, omega (arith, p, q, length-append ms ns), simp (f, e, append_assoc))

AtMost-more : (a b : ℕ) (env env' : Env) → a ≤ b → AtMost a env env' → AtMost b env env'
AtMost-more a b env env' h (ms, p, e) = (ms, omega (arith, p, h), e)

module _ {E : Type 0} where
  pub Says-pure : {A : Type 0} (n : ℕ) (a : A) → Says {E = E} n (pure a)
  Says-pure n a = record { at = λ env. AtMost-same n env env refl }

  pub Says-fail : {A : Type 0} (n : ℕ) (e : E) → Says {A = A} n (fail e)
  Says-fail n e = record { at = λ env. AtMost-same n env env refl }

  pub Says-panic : {A : Type 0} (n : ℕ) → Says {E = E} {A = A} n panic
  Says-panic n = record { at = λ env. AtMost-same n env env refl }

  pub Says-bind :
      {A B : Type 0} (a b : ℕ) {m : Action E Env A} {f : A → Action E Env B}
      → Says a m
      → ((x : A) → Says b (f x))
      → Says (a + b) (m >>= f)
  Says-bind {A} {B} a b {m} {f} hm hf = record { at = λ env. go env (m env) (hm.at env) }
    where
      go :
          (env : Env) (r : Outcome E A × Env)
          → AtMost a env r.1
          → AtMost (a + b) env (continue r.0 f r.1).1
      go env (done x, env') h = AtMost-trans a b env env' (f x env').1 h ((hf x).at env')
      go env (failed e, env') h = AtMost-more a (a + b) env env' (omega arith) h
      go env (panicked, env') h = AtMost-more a (a + b) env env' (omega arith) h

  continue_assoc :
      {A B C : Type 0} (f : A → Action E Env B) (k : B → Action E Env C) (r : Outcome E A × Env)
      → continue r.0 (λ x. f x >>= k) r.1 ≡ continue (continue r.0 f r.1).0 k (continue r.0 f r.1).1
  continue_assoc f k (done x, env) = refl
  continue_assoc f k (failed e, env) = refl
  continue_assoc f k (panicked, env) = refl

  pub Says-assoc :
      {A B C : Type 0} (n : ℕ) (m : Action E Env A) (f : A → Action E Env B)
      (k : B → Action E Env C)
      → Says n (m >>= λ x. f x >>= k)
      → Says n ((m >>= f) >>= k)
  Says-assoc n m f k h = record {
    at = λ env. subst (λ r. AtMost n env r.1) (continue_assoc f k (m env)) (h.at env);
  }

  pub Says-more : {A : Type 0} (a b : ℕ) {m : Action E Env A} → a ≤ b → Says a m → Says b m
  Says-more a b {m} h hm = record { at = λ env. AtMost-more a b env (m env).1 h (hm.at env) }

pub send-Says : (m : Text) → Says 1 (send m)
unfolding send send_to
send-Says m = record { at = λ env. (m ∷ [], omega arith, refl) }

-- a reply, and what writes nothing behind it
pub reply-Says :
    {A : Type 0} (m : Text) {k : Action IoError Env A} → Says 0 k → Says 1 (do send m; k)
reply-Says m h = Says-bind 1 0 (send-Says m) (λ _. h)
