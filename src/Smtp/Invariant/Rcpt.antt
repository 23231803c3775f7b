-- ===== src/Smtp/Invariant/Rcpt.antt =====
-- RCPT adds a recipient that the client may send to, or changes nothing.
use whalemail.Prelude.{
  true, Option, none, some, ◌≡◌, ◌≢◌, refl, subst, inl, inr, List, [], ◌∷◌, ◌++◌, All-append,
  Bool-cases, Option-cases,
}
use whalemail.Prelude.Action.{pure, ◌>>◌}
use whalemail.Prelude.Keeps.{Returns-any, Keeps, Keeps-pure, Keeps-bind, Keeps-then}
use whalemail.Text.{Text}
use whalemail.Config.{Hostname}
use whalemail.Envelope.{MailAddress, new_address}
use whalemail.Envelope.Laws.{new_address_again}
use whalemail.UserDb.{UserDb}
use whalemail.Command.{Command}
use whalemail.Smtp.Crates.{Env, send}
use whalemail.Smtp.Mail.{parse_address}
use whalemail.Smtp.Rcpt.{
  may_send_to, push_recipient, add_rcpt, respond_rcpt_error, first_rcpt, after_first_rcpt,
  next_rcpt, after_next_rcpt,
}
use whalemail.Smtp.State.{
  MailFromState, RcptState, RcptError, bad_command, invalid_mailbox, unauthorized,
}
use whalemail.Smtp.Invariant.{IsValidMail, IsValidRcpt, IsValid, SocketFree}

-- the outcome of `add_rcpt`
abbrev Added : UserDb → Hostname → RcptState → Option RcptError × RcptState → Type 0
Added db h r (none, r') = IsValidRcpt db h r' × (r'.recipients ≢ [])
Added db h r (some e, r') = r' ≡ r

append-ne-nil : {A : Type 0} (xs : List A) (y : A) → xs ++ y ∷ [] ≢ []
append-ne-nil [] y e = cc
append-ne-nil (x ∷ xs) y e = cc

module _ {I : Env → Type 0} (free : SocketFree I) where
  pub Keeps-send : (msg : Text) → Keeps I (λ _. Unit) (send msg)
  unfolding send
  Keeps-send msg = record { at = λ env i. (free env _ i, Returns-any _) }

  pub Keeps-send-then :
      {B : Type 0} {P : B → Type 0} (msg : Text) (b : B) → P b → Keeps I P (do send msg; pure b)
  Keeps-send-then msg b h = Keeps-then (send msg) (pure b) (Keeps-send msg) (Keeps-pure b h)

  module _ (db : UserDb) (h : Hostname) where
    push_recipient-Added :
        (r : RcptState) (s : Text) (a : MailAddress)
        → IsValidRcpt db h r
        → new_address s r.hostname ≡ some a
        → Keeps I (Added db h r) (push_recipient h r a)
    unfolding push_recipient
    push_recipient-Added r s a v e = elim (Bool-cases (may_send_to h r.authorized a)) [
      | inl y ↦ rw (y, push_recipient) (Keeps-send-then _ _ (added y, append-ne-nil r.recipients a))
      | inr n ↦ rw (n, push_recipient) (Keeps-pure _ refl)
    ]
      where
        added :
            may_send_to h r.authorized a ≡ true
            → IsValidRcpt db h (record r { recipients = r.recipients ++ a ∷ [] })
        added y = record {
          is_authorized = v.is_authorized;
          own_sender = v.own_sender;
          same_host = v.same_host;
          permitted = All-append _ r.recipients (a ∷ []) v.permitted (
            record {
              parsed =
                  subst (λ k. new_address a.address k ≡ some a) v.same_host
                    (new_address_again s r.hostname e);
              permitted = y;
            },
            tt,
          );
        }

    add_rcpt-Added :
        (captures : Text → Option (Option Text)) (cmd : Command) (r : RcptState)
        → IsValidRcpt db h r
        → Keeps I (Added db h r) (add_rcpt captures h cmd r)
    unfolding add_rcpt
    add_rcpt-Added captures cmd r v = elim (Option-cases (parse_address captures cmd)) [
      | inl n ↦ rw (n, add_rcpt) (Keeps-pure _ refl)
      | inr (s, e) ↦ elim (Option-cases (new_address s r.hostname)) [
        | inl n ↦ rw (e, n, add_rcpt) (Keeps-pure _ refl)
        | inr (a, p) ↦ rw (e, p, add_rcpt) (push_recipient-Added r s a v p)
      ]
    ]

    respond_rcpt_error-Keeps : (e : RcptError) → Keeps I (λ _. Unit) (respond_rcpt_error e)
    unfolding respond_rcpt_error
    respond_rcpt_error-Keeps bad_command = Keeps-send _
    respond_rcpt_error-Keeps invalid_mailbox = Keeps-send _
    respond_rcpt_error-Keeps unauthorized = Keeps-send _

    Keeps-respond :
        {B : Type 0} {P : B → Type 0} (e : RcptError) (b : B)
        → P b
        → Keeps I P (do respond_rcpt_error e; pure b)
    Keeps-respond e b h = Keeps-then _ _ (respond_rcpt_error-Keeps e) (Keeps-pure b h)

    module _ {Session : Type 0} (Holds : Session → Type 0) where
      abbrev first_state : MailFromState → RcptState
      first_state m = record {
        hostname = h;
        sender = m.sender;
        is_local_sender = m.is_local_sender;
        recipients = [];
        authorized = m.authorized;
      }

      after_first_rcpt-IsValid :
          (m : MailFromState)
          → IsValidMail db m
          → (a : Option RcptError × RcptState) → Added db h (first_state m) a
          → Keeps I (IsValid db h Holds) (after_first_rcpt m a)
      unfolding after_first_rcpt
      after_first_rcpt-IsValid m v (none, r) p = Keeps-pure _ p
      after_first_rcpt-IsValid m v (some e, r) p = Keeps-respond e _ (rw p v)

      -- The first RCPT leads to a valid state.
      pub first_rcpt-IsValid :
          (captures : Text → Option (Option Text)) (cmd : Command) (m : MailFromState)
          → IsValidMail db m
          → Keeps I (IsValid db h Holds) (first_rcpt captures h cmd m)
      unfolding first_rcpt
      first_rcpt-IsValid captures cmd m v =
          Keeps-bind (Added db h (first_state m)) _ _
            (add_rcpt-Added captures cmd (first_state m) (record {
              is_authorized = v.is_authorized;
              own_sender = v.own_sender;
              same_host = refl;
              permitted = tt;
            }))
            (after_first_rcpt-IsValid m v)

      after_next_rcpt-IsValid :
          (r : RcptState)
          → IsValidRcpt db h r
          → r.recipients ≢ []
          → (a : Option RcptError × RcptState) → Added db h r a
          → Keeps I (IsValid db h Holds) (after_next_rcpt a)
      unfolding after_next_rcpt
      after_next_rcpt-IsValid r v ne (none, r') p = Keeps-pure _ p
      after_next_rcpt-IsValid r v ne (some e, r') p = Keeps-respond e _ (rw p (v, ne))

      -- A further RCPT leads to a valid state.
      pub next_rcpt-IsValid :
          (captures : Text → Option (Option Text)) (cmd : Command) (r : RcptState)
          → IsValidRcpt db h r
          → r.recipients ≢ []
          → Keeps I (IsValid db h Holds) (next_rcpt captures h cmd r)
      unfolding next_rcpt
      next_rcpt-IsValid captures cmd r v ne =
          Keeps-bind (Added db h r) _ _ (add_rcpt-Added captures cmd r v)
            (after_next_rcpt-IsValid r v ne)
