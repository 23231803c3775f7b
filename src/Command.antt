-- ===== src/Command.antt =====
-- src/smtp/server.rs: `CommandVerb`, `Command` and their parsing.
pub mod Ascii
use whalemail.Prelude.{min, Option, none, some, List, [], ◌∷◌, if◌then◌else◌}
use whalemail.Text.{
  Text, codes, crlf, text_eq, ends_with, split, trim, to_ascii_uppercase, byte_length, byte_prefix,
}
use mathlib.Core.Option

pub data CommandVerb : Type 0 where
  init helo ehlo mail rcpt data' datainput quit auth : CommandVerb

pub record Command : Type 0 where
  pub verb : Option CommandVerb
  pub message : Text

-- `parse::<CommandVerb>()` as `EnumString` derives it: the name of a variant, exactly
unfoldable pub parse_verb : Text → Option CommandVerb
unfolding text_eq
parse_verb s =
    if text_eq s (codes "INIT")
    then some init
    else if text_eq s (codes "HELO")
    then some helo
    else if text_eq s (codes "EHLO")
    then some ehlo
    else if text_eq s (codes "MAIL")
    then some mail
    else if text_eq s (codes "RCPT")
    then some rcpt
    else if text_eq s (codes "DATA")
    then some data'
    else if text_eq s (codes "DATAINPUT")
    then some datainput
    else if text_eq s (codes "QUIT")
    then some quit
    else if text_eq s (codes "AUTH")
    then some auth
    else none

-- split.next()
unfoldable pub first_word : List Text → Text
first_word [] = []
first_word (w ∷ ws) = w

-- `Command::new`; `none` is the panic of the slice `first[0..min(first.len(), 10)]`
unfoldable pub new_command : Text → Option Command
unfolding split trim to_ascii_uppercase byte_length byte_prefix parse_verb first_word
new_command s =
    let first = first_word (split (trim s) (codes " ")) in
    Option.map (λ w. record { verb = parse_verb (to_ascii_uppercase w); message = s })
      (byte_prefix (min (byte_length first) 10) first)

-- all but the last two characters
unfoldable pub drop_last_two : Text → Text
drop_last_two [] = []
drop_last_two (x ∷ []) = []
drop_last_two (x ∷ y ∷ []) = []
drop_last_two (x ∷ y ∷ z ∷ s) = x ∷ drop_last_two (y ∷ z ∷ s)

unfoldable pub msg_strip_lf : Command → Text
unfolding ends_with drop_last_two
msg_strip_lf cmd = if ends_with cmd.message crlf then drop_last_two cmd.message else cmd.message
