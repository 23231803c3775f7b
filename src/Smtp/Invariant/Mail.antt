-- ===== src/Smtp/Invariant/Mail.antt =====
-- MAIL accepts a sender of its own of an authorized client, or changes nothing.
use whalemail.Prelude.{
  Bool, true, false, refl, Option, none, some, ◌≡◌, inl, inr, arith, Option-cases,
}
use whalemail.Prelude.Keeps.{Keeps, Keeps-panic, Keeps-pure, Keeps-then}
use whalemail.Text.{Text}
use whalemail.Text.Laws.{eq_of_text_eq}
use whalemail.Config.{Hostname}
use whalemail.User.{User}
use whalemail.Envelope.{MailAddress, filled, new_address, cached_is_local}
use whalemail.UserDb.{UserDb}
use whalemail.Command.{Command}
use whalemail.Smtp.Crates.{Env}
use whalemail.Smtp.Mail.{
  parse_address, permitted, from_sender, when_permitted, has_permission, accept_mail, check_sender,
  mail_from,
}
use whalemail.Smtp.State.{helo, ehlo, EhloState}
use whalemail.Smtp.Invariant.{IsAuthorized, IsOwnSender, IsValid, SocketFree}
use whalemail.Smtp.Invariant.Rcpt.{Keeps-send, Keeps-send-then}

-- what the database answers of the sender, if it does
abbrev IsOwnAnswer : Option User → Option Bool × MailAddress → Type 0
IsOwnAnswer authorized (none, sender) = Unit
IsOwnAnswer authorized (some local, sender) = IsOwnSender authorized local sender

-- The second look at the cache gives the first answer.
permitted-IsOwnAnswer :
    (authorized : Option User) (sender : MailAddress) (local : Bool)
    → permitted authorized sender (some local) ≡ some true
    → IsOwnSender authorized local sender
permitted-IsOwnAnswer none sender local h = tt
permitted-IsOwnAnswer (some u) sender local h =
    λ is_local. ground (arith, eq_of_text_eq u.identity sender.address)

IsOwnAnswer-none : (r : Option Bool × MailAddress) → IsOwnAnswer none r
IsOwnAnswer-none (none, a) = tt
IsOwnAnswer-none (some b, a) = tt

module _ (authorized : Option User) (is_local : MailAddress → Option Bool) where
  filled-IsOwnAnswer :
      (a : MailAddress) (o : Option Bool)
      → permitted authorized (filled a o).1 (filled a o).0 ≡ some true
      → IsOwnAnswer authorized (cached_is_local is_local (filled a o).1)
  unfolding cached_is_local
  filled-IsOwnAnswer a none h = absurd (cc h)
  filled-IsOwnAnswer a (some b) h =
      permitted-IsOwnAnswer authorized (record a { is_local_mailbox = some b }) b h

  cached-IsOwnAnswer :
      (a : MailAddress) (cache : Option Bool)
      → (let r = cached_is_local is_local (record a { is_local_mailbox = cache }) in
          permitted authorized r.1 r.0 ≡ some true)
      → (let r = cached_is_local is_local (record a { is_local_mailbox = cache }) in
          IsOwnAnswer authorized (cached_is_local is_local r.1))
  unfolding cached_is_local
  cached-IsOwnAnswer a none h = filled-IsOwnAnswer _ (is_local _) h
  cached-IsOwnAnswer a (some b) h =
      permitted-IsOwnAnswer authorized (record a { is_local_mailbox = some b }) b h

has_permission-IsOwnAnswer :
    (db : UserDb) (authorized : Option User) (sender : MailAddress)
    → (has_permission db authorized sender).0 ≡ some true
    → IsOwnAnswer authorized
        (cached_is_local db.is_local_mailbox (has_permission db authorized sender).1)
unfolding has_permission
has_permission-IsOwnAnswer db authorized sender h =
    cached-IsOwnAnswer authorized db.is_local_mailbox sender sender.is_local_mailbox h

module _ {I : Env → Type 0} (free : SocketFree I) (db : UserDb) (h : Hostname) where
  module _ {Session : Type 0} (Holds : Session → Type 0) where
    accept_mail-IsValid :
        (sender : MailAddress) (authorized : Option User)
        → IsAuthorized db authorized
        → IsOwnAnswer authorized (cached_is_local db.is_local_mailbox sender)
        → Keeps I (IsValid db h Holds) (accept_mail db sender authorized)
    unfolding accept_mail
    accept_mail-IsValid sender authorized a own =
        Keeps-then _ _ (Keeps-send free _)
          (answered (cached_is_local db.is_local_mailbox sender) own)
      where
        answered :
            (r : Option Bool × MailAddress)
            → IsOwnAnswer authorized r
            → Keeps I (IsValid db h Holds) (from_sender db authorized r)
        answered (none, s) own = Keeps-panic
        answered (some b, s) own = Keeps-pure _ (record { is_authorized = a; own_sender = own })

    check_sender-IsValid :
        (e : EhloState) (sender : MailAddress)
        → IsAuthorized db e.authorized
        → Keeps I (IsValid db h Holds) (check_sender db (ehlo e) sender)
    unfolding check_sender
    check_sender-IsValid e sender a =
        decided (has_permission db e.authorized sender)
          (λ h. has_permission-IsOwnAnswer db e.authorized sender h)
      where
        decided :
            (r : Option Bool × MailAddress)
            → (r.0 ≡ some true → IsOwnAnswer e.authorized (cached_is_local db.is_local_mailbox r.1))
            → Keeps I (IsValid db h Holds) (when_permitted db e r)
        decided (none, s) own = Keeps-panic
        decided (some true, s) own = accept_mail-IsValid s e.authorized a (own refl)
        decided (some false, s) own = Keeps-send-then free _ _ a

    -- MAIL behind EHLO leads to a valid state.
    pub mail_from_ehlo-IsValid :
        (captures : Text → Option (Option Text)) (cmd : Command) (e : EhloState)
        → IsAuthorized db e.authorized
        → Keeps I (IsValid db h Holds) (mail_from db captures h cmd (ehlo e))
    unfolding mail_from
    mail_from_ehlo-IsValid captures cmd e a = elim (Option-cases (parse_address captures cmd)) [
      | inl n ↦ rw (n, mail_from) (Keeps-send-then free _ _ a)
      | inr (s, p) ↦ elim (Option-cases (new_address s h)) [
        | inl n ↦ rw (p, n, mail_from) (Keeps-send-then free _ _ a)
        | inr (sender, q) ↦ rw (p, q, mail_from) (check_sender-IsValid e sender a)
      ]
    ]

    -- MAIL behind HELO leads to a valid state, with no authorization.
    pub mail_from_helo-IsValid :
        (captures : Text → Option (Option Text)) (cmd : Command)
        → Keeps I (IsValid db h Holds) (mail_from db captures h cmd helo)
    unfolding mail_from check_sender
    mail_from_helo-IsValid captures cmd = elim (Option-cases (parse_address captures cmd)) [
      | inl n ↦ rw (n, mail_from) (Keeps-send-then free _ _ tt)
      | inr (s, p) ↦ elim (Option-cases (new_address s h)) [
        | inl n ↦ rw (p, n, mail_from) (Keeps-send-then free _ _ tt)
        | inr (sender, q) ↦
            rw (p, q, mail_from) (accept_mail-IsValid sender none tt (IsOwnAnswer-none _))
      ]
    ]
