-- ===== src/Smtp/Invariant/Receive.antt =====
-- DATA and the mail body lead to valid states.
use whalemail.Prelude.{true, Bool, ◌≢◌, refl, [], ◌++◌, inl, inr, Bool-cases}
use whalemail.Prelude.Outcome.{Result, ok, err}
use whalemail.Prelude.Action.{Outcome, done, failed, panicked}
use whalemail.Prelude.Keeps.{Returns, Keeps, Keeps-pure, Keeps-then}
use whalemail.Text.{Text}
use whalemail.Config.{Hostname}
use whalemail.UserDb.{UserDb}
use whalemail.Command.{Command}
use whalemail.Transparency.{
  TransparencySyntaxError, no_newline_mail_end, mail_end_at_unexpected_position, contains_mail_end,
  decode_transparency,
}
use whalemail.Smtp.Crates.{Crates, Env}
use whalemail.Smtp.Delivery.{MailboxDeliveryError, deliver_mail}
use whalemail.Smtp.Receive.{
  respond_syntax_error, start_data, settle, envelope_of, finish_mail, decoded, receive_data,
}
use whalemail.Smtp.Rcpt.{rcpt_from}
use whalemail.Smtp.State.{SmtpState, RcptState, DataState}
use whalemail.Smtp.Invariant.{IsValidRcpt, IsValidData, IsValid, SocketFree}
use whalemail.Smtp.Invariant.Rcpt.{Keeps-send, Keeps-send-then}

-- delivering a mail of the state `d` keeps `I`
abbrev pub Delivers :
    {Session M : Type 0} → Crates Session M → UserDb → (Env → Type 0) → DataState → Type 0
Delivers crates db I d =
    (body : Text) (env : Env)
    → I env
    → I
        (deliver_mail crates db (envelope_of crates d body env)
          (record env { rng = (crates.new_v4 env.rng).1 })).1

module _ {I : Env → Type 0} (free : SocketFree I) (db : UserDb) (h : Hostname) where
  respond_syntax_error-Keeps :
      (e : TransparencySyntaxError) → Keeps I (λ _. Unit) (respond_syntax_error e)
  unfolding respond_syntax_error
  respond_syntax_error-Keeps no_newline_mail_end = Keeps-send free _
  respond_syntax_error-Keeps mail_end_at_unexpected_position = Keeps-send free _

  module _ {Session : Type 0} (Holds : Session → Type 0) where
    -- DATA leads to a valid state.
    pub start_data-IsValid :
        (r : RcptState)
        → IsValidRcpt db h r
        → r.recipients ≢ []
        → Keeps I (IsValid db h Holds) (start_data r)
    unfolding start_data
    start_data-IsValid r v ne = Keeps-send-then free _ _ (record {
      is_authorized = v.is_authorized;
      own_sender = v.own_sender;
      some_recipient = ne;
      permitted = v.permitted;
    })

    module _ {M : Type 0} (crates : Crates Session M) where
      settle-IsValid :
          (d : DataState) (body : Text) (env : Env)
          (o : Outcome MailboxDeliveryError (Unit {0}) × Env)
          → IsValidData db h d
          → I o.1
          → I (settle crates db h d (envelope_of crates d body env) o).1
            × Returns
                (IsValid db h Holds)
                (settle crates db h d (envelope_of crates d body env) o).0
      settle-IsValid d body env (done u, env') v i = (Keeps-send-then free _ _ tt).at env' i
      settle-IsValid d body env (failed e, env') v i =
          (Keeps-send-then free _ _ rolled_back).at env' i
        where
          rolled_back : IsValid db h Holds (
              SmtpState.rcpt
                (rcpt_from h (envelope_of crates d body env) d.authorized d.is_local_sender))
          rolled_back =
              unfold rcpt_from in
              (
                record {
                  is_authorized = v.is_authorized;
                  own_sender = v.own_sender;
                  same_host = refl;
                  permitted = v.permitted;
                },
                v.some_recipient,
              )
      settle-IsValid d body env (panicked, env') v i = (i, tt)

      decoded-IsValid :
          (d : DataState) (r : Result TransparencySyntaxError Text)
          → IsValidData db h d
          → Delivers crates db I d
          → Keeps I (IsValid db h Holds) (decoded crates db h d r)
      decoded-IsValid d (ok body) v dl = record {
        at = λ env i. unfold finish_mail in settle-IsValid d body env _ v (dl body env i);
      }
      decoded-IsValid d (err e) v dl = Keeps-then _ _ (respond_syntax_error-Keeps e) (
          Keeps-pure _ (record {
            is_authorized = v.is_authorized;
            own_sender = v.own_sender;
            some_recipient = v.some_recipient;
            permitted = v.permitted;
          }))

      -- A part of the mail body leads to a valid state.
      pub receive_data-IsValid :
          (cmd : Command) (d : DataState)
          → IsValidData db h d
          → Delivers crates db I d
          → Keeps I (IsValid db h Holds) (receive_data crates db h cmd d)
      unfolding receive_data
      receive_data-IsValid cmd d v dl = elim (Bool-cases (contains_mail_end cmd.message)) [
        | inl y ↦
            rw (y, receive_data)
              (decoded-IsValid
                (record d { mail_body = d.mail_body ++ cmd.message; body_finished = true })
                (decode_transparency (d.mail_body ++ cmd.message)) (valid _ true) dl)
        | inr n ↦ rw (n, receive_data) (Keeps-pure _ (valid _ d.body_finished))
      ]
        where
          valid :
              (b : Text) (f : Bool)
              → IsValidData db h (record d { mail_body = b; body_finished = f })
          valid b f = record {
            is_authorized = v.is_authorized;
            own_sender = v.own_sender;
            some_recipient = v.some_recipient;
            permitted = v.permitted;
          }
