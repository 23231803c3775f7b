-- ===== src/Tests/Mails.antt =====
-- Concrete addresses, mails and states.
use whalemail.Prelude.{false, true, none, some, [], ◌∷◌}
use whalemail.Text.{codes}
use whalemail.Envelope.{MailAddress, Envelope}
use whalemail.Smtp.State.{DataState}
use whalemail.Tests.Library.{host}

abbrev pub sender : MailAddress
sender = record {
  address = codes "b@x.tld";
  local_part = codes "b";
  domain = codes "x.tld";
  is_local_responsibility = false;
  is_local_mailbox = some false;
}

abbrev pub local_recipient : MailAddress
local_recipient = record {
  address = codes "a@h.tld";
  local_part = codes "a";
  domain = host;
  is_local_responsibility = true;
  is_local_mailbox = none;
}

-- a client with no authorization that sends the body of a mail to a local user
abbrev pub sending : DataState
sending = record {
  sender = sender;
  is_local_sender = false;
  recipients = local_recipient ∷ [];
  authorized = none;
  mail_body = codes "hi";
  body_finished = false;
}

abbrev pub letter : Envelope
letter = record {
  sender = sender;
  recipients = sender ∷ local_recipient ∷ [];
  body = codes "hi";
  uuid = 0;
}
