-- ===== src/Smtp/Phases/Body.antt =====
-- The phases that DATA and the mail body lead to.
use whalemail.Prelude.{Option, some, inl, inr, Bool-cases}
use whalemail.Prelude.Outcome.{Result, ok, err}
use whalemail.Prelude.Action.{Outcome, done, failed, panicked}
use whalemail.Prelude.Keeps.{Returns, Keeps-pure, Keeps-then}
use whalemail.Text.{Text}
use whalemail.Config.{Hostname}
use whalemail.UserDb.{UserDb}
use whalemail.Command.{Command, CommandVerb}
use whalemail.Envelope.{Envelope}
use whalemail.Transparency.{TransparencySyntaxError, contains_mail_end}
use whalemail.Smtp.Crates.{Crates, Env}
use whalemail.Smtp.State.{RcptState, DataState}
use whalemail.Smtp.Delivery.{MailboxDeliveryError}
use whalemail.Smtp.Receive.{start_data, receive_data, decoded, finish_mail, settle}
use whalemail.Smtp.Invariant.Rcpt.{Keeps-send-then}
use whalemail.Smtp.Phases.{
  recipients, body, phase_of, body_begins, body_goes_on, delivered, delivery_failed, Free, free,
  anything, Reaches, Leads,
}

module _ {Session : Type 0} where
  pub start_data-Next :
      (r : RcptState) → Leads {Session = Session} (some CommandVerb.data') recipients (start_data r)
  unfolding start_data phase_of
  start_data-Next r = Keeps-send-then free _ _ body_begins

module _ {Session : Type 0} (db : UserDb) (h : Hostname) (v : Option CommandVerb) where
  settle-Next :
      {M : Type 0} (crates : Crates Session M) (d : DataState) (e : Envelope)
      (o : Outcome MailboxDeliveryError (Unit {0}) × Env)
      → Returns (Reaches v body) (settle crates db h d e o).0
  unfolding phase_of
  settle-Next crates d e (done u, env) =
      ((Keeps-send-then {I = Free} free _ _ delivered).at env tt).1
  settle-Next crates d e (failed x, env) =
      ((Keeps-send-then {I = Free} free _ _ delivery_failed).at env tt).1
  settle-Next crates d e (panicked, env) = tt

  decoded-Next :
      {M : Type 0} (crates : Crates Session M) (d : DataState)
      (r : Result TransparencySyntaxError Text)
      → Leads {Session = Session} v body (decoded crates db h d r)
  unfolding phase_of
  decoded-Next crates d (ok text) = record {
    at = λ env i. unfold finish_mail in (tt, settle-Next crates d _ _);
  }
  decoded-Next crates d (err e) = Keeps-then _ _ (anything _) (Keeps-pure _ body_goes_on)

  pub receive_data-Next :
      {M : Type 0} (crates : Crates Session M) (cmd : Command) (d : DataState)
      → Leads {Session = Session} v body (receive_data crates db h cmd d)
  unfolding receive_data phase_of
  receive_data-Next crates cmd d = elim (Bool-cases (contains_mail_end cmd.message)) [
    | inl y ↦ rw (y, receive_data) (decoded-Next crates _ _)
    | inr n ↦ rw (n, receive_data) (Keeps-pure _ body_goes_on)
  ]
