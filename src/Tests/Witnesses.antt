-- ===== src/Tests/Witnesses.antt =====
-- The theorems at concrete inputs.
use whalemail.Prelude.{◌≡◌, refl, false, none, some, ◌++◌}
use whalemail.Prelude.Outcome.{ok, err}
use whalemail.Prelude.Keeps.{Returns}
use whalemail.Text.{Text, codes, split, split_from, starts_with, cons_head, text_eq}
use whalemail.Transparency.{
  mail_end_at_unexpected_position, crlf_dot, mail_end, decode_transparency,
}
use whalemail.Transparency.Stuffing.{line_start, stuff}
use whalemail.Transparency.RoundTrip.{decode_transparency-stuff}
use whalemail.Transparency.Rejection.{decode_transparency-trailing}
use whalemail.Envelope.{new_address, of_pieces}
use whalemail.Smtp.Invariant.{IsValidData}
use whalemail.Smtp.Rcpt.{may_send_to}
use whalemail.Auth.{Auth, plain, new_auth}
use whalemail.Auth.Accepted.{Held, IsValidAuth, new_auth-IsValidAuth}
use whalemail.Smtp.State.{data'}
use whalemail.Smtp.Handle.{handle}
use whalemail.Smtp.Relay.{IsValidState, handle-IsValid}
use whalemail.Tests.Library.{
  TestSession, fresh, zero_byte, test_crates, test_sasl, test_sasl-IsSasl, test_config, host,
  test_db, test_env,
}
use whalemail.Tests.Mails.{sending}

abbrev dotted_body : Text
dotted_body = codes ".\r\n.x\r\n"

decode_transparency-stuff_example :
    (decode_transparency (stuff line_start dotted_body ++ mail_end) ≡ ok (dotted_body ++ mail_end))
    × (decode_transparency (stuff line_start dotted_body ++ crlf_dot)
        ≡ ok (dotted_body ++ crlf_dot))
decode_transparency-stuff_example = decode_transparency-stuff dotted_body

decode_transparency-trailing_example :
    decode_transparency (stuff line_start dotted_body ++ (mail_end ++ codes "QUIT"))
    ≡ err mail_end_at_unexpected_position
decode_transparency-trailing_example =
    decode_transparency-trailing dotted_body b'Q' (codes "UIT") λ e. cc

-- user a with the password pw
abbrev plain_message : Text
plain_message = zero_byte ++ (codes "a" ++ (zero_byte ++ codes "pw"))

abbrev unfinished_auth : Auth TestSession
unfinished_auth = record {
  session = fresh;
  write_buf = none;
  mechname = plain;
  is_finished = false;
  authorized = none;
}

sending-IsValidData : IsValidData test_db host sending
sending-IsValidData = record {
  is_authorized = tt;
  own_sender = tt;
  some_recipient = λ e. cc;
  permitted = (
    record {
      parsed = unfold new_address of_pieces split split_from starts_with cons_head text_eq in refl;
      permitted = unfold may_send_to text_eq in refl;
    },
    tt,
  );
}

handle-IsValid_example :
    Returns
      (IsValidState test_crates test_sasl-IsSasl test_config test_db)
      (handle test_crates test_config test_db (data' sending) (codes "\r\n.\r\n") test_env).0
handle-IsValid_example =
    handle-IsValid test_crates test_sasl-IsSasl test_config test_db (data' sending)
      (codes "\r\n.\r\n") test_env sending-IsValidData

new_auth-IsValidAuth_example :
    Returns (IsValidAuth test_db (Held test_sasl test_sasl-IsSasl test_db host)) (
      new_auth test_sasl test_db host test_crates.plain_auth_msg test_crates.base64_decode
        (codes "PLAIN")
        (some plain_message))
new_auth-IsValidAuth_example =
    new_auth-IsValidAuth test_sasl test_sasl-IsSasl test_db host test_crates.plain_auth_msg
      test_crates.base64_decode (codes "PLAIN") (some plain_message)
