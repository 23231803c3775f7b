-- ===== src/Smtp/Transaction/Over.antt =====
-- A session that has ended does not go on, and a connection goes on while its session does.
use whalemail.Prelude.{
  ℕ, ◌≡◌, ◌≢◌, ◌⊎◌, refl, sym, ap, subst, ◌∙◌, List, [], ◌∷◌, ◌++◌, map, All, Bool-cases, inl, inr,
  ltb,
}
use whalemail.Prelude.Outcome.{Result, ok}
use whalemail.Prelude.Action.{Outcome, done, failed, panicked, continue, Action, pure, ◌>>=◌}
use whalemail.Prelude.Keeps.{Returns}
use whalemail.Text.{Text}
use whalemail.Text.Utf8.{as_bytes, utf8_encode}
use whalemail.Text.RoundTrip.{IsScalar}
use whalemail.Config.{Config}
use whalemail.UserDb.{UserDb}
use whalemail.Net.{IoError}
use whalemail.Smtp.Crates.{Crates, Env}
use whalemail.Smtp.State.{SmtpState, quit, cancelled, continue', quit'}
use whalemail.Smtp.Handle.{handle, kind_of}
use whalemail.Smtp.Session.{input_text, Progress, ended, socket_loop, proceed}
use whalemail.Smtp.Body.{handle_all}
use whalemail.Smtp.Reading.{input_text-as_bytes}
use whalemail.Command.{Command, CommandVerb, new_command}
use whalemail.Prelude.{Option, some}
use whalemail.Smtp.Phases.{Phase, over, broken, phase_of, Next, out_of_order}
use whalemail.Smtp.Phases.Order.{handle-Next}

abbrev pub IsOver : Phase → Type 0
IsOver p = (p ≡ over) ⊎ (p ≡ broken)

Next-IsOver : (v : Option CommandVerb) (p q : Phase) → Next v p q → IsOver p → IsOver q
Next-IsOver _ _ _ (out_of_order e) h = inr refl
Next-IsOver _ _ _ n h = elim h [ inl e ↦ cc | inr e ↦ cc ]

kind_of-continue :
    {Session : Type 0} (s : SmtpState Session) → (IsOver (phase_of s) → ⊥) → kind_of s ≡ continue'
unfolding kind_of phase_of
kind_of-continue quit n = absurd (n (inl refl))
kind_of-continue cancelled n = absurd (n (inr refl))
kind_of-continue s n = refl

-- a text that can be sent: it is not empty, and its characters are scalar values
abbrev pub IsReadable : Text → Type 0
IsReadable s = (s ≢ []) × All IsScalar s

abbrev pub Cons : List ℕ → Type 0
Cons s = (b : ℕ) × (bytes : List ℕ) × (s ≡ b ∷ bytes)

utf8_encode-Cons : (c : ℕ) → Cons (utf8_encode c)
unfolding utf8_encode
utf8_encode-Cons c = elim (Bool-cases (ltb c 0x80)) [
  | inl y ↦ rw (y, utf8_encode) (c, [], refl)
  | inr n ↦ elim (Bool-cases (ltb c 0x800)) [
    | inl y ↦ rw (n, y, utf8_encode) (_, _, refl)
    | inr m ↦ elim (Bool-cases (ltb c 0x10000)) [
      | inl y ↦ rw (n, m, y, utf8_encode) (_, _, refl)
      | inr k ↦ rw (n, m, k, utf8_encode) (_, _, refl)
    ]
  ]
]

as_bytes-Cons : (s : Text) → s ≢ [] → Cons (as_bytes s)
unfolding as_bytes
as_bytes-Cons [] n = absurd (n refl)
as_bytes-Cons (c ∷ s) n =
    let (b, bytes, e) = utf8_encode-Cons c in (b, bytes ++ as_bytes s, ap (λ t. t ++ as_bytes s) e)

-- what the environment answers to the reads of some messages
abbrev pub reads_of : List Text → List (Result IoError (List ℕ))
reads_of = map (λ m. ok (as_bytes m))

returned :
    {Session : Type 0} {s s' : SmtpState Session} {env env' : Env}
    → ◌≡◌ {A = Outcome IoError (SmtpState Session) × Env} (done s, env) (done s', env')
    → (s ≡ s') × (env ≡ env')
returned e = (cc e, cc e)

module _ {Session M : Type 0} (crates : Crates Session M) (config : Config) (db : UserDb) where
  abbrev Handled : SmtpState Session → Text → Outcome IoError (SmtpState Session) × Env → Type 0
  Handled s m r =
      Returns
        (λ t. (c : Command) × (new_command m ≡ some c) × Next c.verb (phase_of s) (phase_of t)) r.0

  -- a session that is over stays so
  handle_all-IsOver :
      (ms : List Text) (s s' : SmtpState Session) (env env' : Env)
      → handle_all crates config db s ms env ≡ (done s', env')
      → IsOver (phase_of s)
      → IsOver (phase_of s')
  unfolding handle_all
  handle_all-IsOver [] s s' env env' e h = subst (λ t. IsOver (phase_of t)) (returned e).0 h
  handle_all-IsOver (m ∷ ms) s s' env env' e h =
      go (handle crates config db s m env) (handle-Next crates config db s m env) e
        (λ t env''. handle_all-IsOver ms t s' env'' env')
    where
      go :
          (r : Outcome IoError (SmtpState Session) × Env)
          → Handled s m r
          → continue r.0 (λ t. handle_all crates config db t ms) r.1 ≡ (done s', env')
          → ((t : SmtpState Session) (env'' : Env)
              → handle_all crates config db t ms env'' ≡ (done s', env')
              → IsOver (phase_of t)
              → IsOver (phase_of s'))
          → IsOver (phase_of s')
      go (done t, env'') n e rest = rest t env'' e (Next-IsOver _ _ _ n.2 h)
      go (failed x, env'') n e rest = cc e
      go (panicked, env'') n e rest = cc e

  pub read-handle :
      (s : SmtpState Session) (m : Text) (rs : List (Result IoError (List ℕ))) (env : Env)
      → IsReadable m
      → socket_loop crates config db s (ok (as_bytes m) ∷ rs) env
        ≡ (handle crates config db s m
              >>= proceed crates config db (λ s'. socket_loop crates config db s' rs))
            env
  unfolding socket_loop
  read-handle s m rs env (n, scalar) =
      let (b, bytes, e) = as_bytes-Cons m n in
      ap (λ t. socket_loop crates config db s (ok t ∷ rs) env) e
      ∙ ap
          (λ t.
            (handle crates config db s t
                >>= proceed crates config db (λ s'. socket_loop crates config db s' rs))
              env)
          (ap input_text (sym e) ∙ (input_text-as_bytes m scalar).0)

  proceed-continue :
      (again : SmtpState Session → Action IoError Env (Progress Session)) (s : SmtpState Session)
      → kind_of s ≡ continue'
      → proceed crates config db again s ≡ again s
  proceed-continue again s e = ap (λ k. elim k [ continue' ↦ again s | quit' ↦ pure ended ]) e

  -- The loop goes through messages that are handled one after the other, unless the session is over
  -- behind them.
  pub socket_loop-handle_all :
      (ms : List Text) (s s' : SmtpState Session) (rs : List (Result IoError (List ℕ)))
      (env env' : Env)
      → All IsReadable ms
      → handle_all crates config db s ms env ≡ (done s', env')
      → (IsOver (phase_of s') → ⊥)
      → socket_loop crates config db s (reads_of ms ++ rs) env
        ≡ socket_loop crates config db s' rs env'
  unfolding handle_all
  socket_loop-handle_all [] s s' rs env env' h e n =
      let (p, q) = returned e in λ i. socket_loop crates config db (p i) rs (q i)
  socket_loop-handle_all (m ∷ ms) s s' rs env env' (h, hs) e n =
      read-handle s m (reads_of ms ++ rs) env h
      ∙ go (handle crates config db s m env) e
          (λ t env''. socket_loop-handle_all ms t s' rs env'' env' hs)
    where
      go :
          (r : Outcome IoError (SmtpState Session) × Env)
          → continue r.0 (λ t. handle_all crates config db t ms) r.1 ≡ (done s', env')
          → ((t : SmtpState Session) (env'' : Env)
              → handle_all crates config db t ms env'' ≡ (done s', env')
              → (IsOver (phase_of s') → ⊥)
              → socket_loop crates config db t (reads_of ms ++ rs) env''
                ≡ socket_loop crates config db s' rs env')
          → continue r.0
              (proceed crates config db (λ t. socket_loop crates config db t (reads_of ms ++ rs)))
              r.1
            ≡ socket_loop crates config db s' rs env'
      go (done t, env'') e rest =
          ap (λ f. f env'')
            (proceed-continue (λ t. socket_loop crates config db t (reads_of ms ++ rs)) t
              (kind_of-continue t (λ o. n (handle_all-IsOver ms t s' env'' env' e o))))
          ∙ rest t env'' e n
      go (failed x, env'') e rest = cc e
      go (panicked, env'') e rest = cc e
