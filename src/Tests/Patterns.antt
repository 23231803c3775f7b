-- ===== src/Tests/Patterns.antt =====
-- The matcher of the tests meets what is documented of the crate, and messages at concrete inputs.
use whalemail.Prelude.{
  true, false, ◌≡◌, ◌≢◌, refl, sym, ap, subst, ◌∙◌, Option, none, some, [], ◌∷◌, ◌++◌, All, ◌==◌,
  ==_iff, arith, inl, inr, Option-cases, Bool-cases,
}
use whalemail.Text.{Text, codes, text_eq, ascii_upper, to_ascii_uppercase}
use whalemail.Text.Laws.{eq_of_text_eq}
use whalemail.Regex.{Finds, IsCaptures, other_than}
use whalemail.Regex.Address.{address_cmd, IsSpelled, address_cmd-IsSpelled, IsSpelled-address_cmd}
use whalemail.Prelude.Action.{pure, ◌>>◌}
use whalemail.Text.{contains, starts_with}
use whalemail.Config.{Config}
use whalemail.User.{User}
use whalemail.Envelope.{Envelope}
use whalemail.Client.Network.{Connection, Network}
use whalemail.Client.Session.{run}
use whalemail.Client.Transcript.{Wrote}
use whalemail.Smtp.Rcpt.{add_rcpt}
use whalemail.Smtp.Patterns.Lines.{add_rcpt-line}
use whalemail.Envelope.Pieces.{of_parts}
use whalemail.Command.{Command, CommandVerb}
use whalemail.Smtp.Crates.{send}
use whalemail.Smtp.State.{RcptState, helo, msg_ok}
use whalemail.Smtp.Mail.{mail_from, check_sender}
use whalemail.Smtp.Patterns.{mail_cmd, rcpt_cmd}
use whalemail.Smtp.Patterns.Senders.{mail_from-IsSpelled}
use whalemail.Tests.Library.{
  TestSession, test_crates, test_db, host, strip_word, take_address, match_address, group_of,
}

abbrev end_line : Text
end_line = codes ">\r\n"

abbrev Plain : Text → Type 0
Plain = All (λ x. other_than b'>' x ≡ true)

strip_word-found :
    (word s rest : Text)
    → strip_word word s ≡ some rest
    → (head : Text) × (s ≡ head ++ rest) × (to_ascii_uppercase head ≡ to_ascii_uppercase word)
unfolding strip_word to_ascii_uppercase
strip_word-found [] s rest e = ([], cc e, refl)
strip_word-found (w ∷ word) [] rest e = cc e
strip_word-found (w ∷ word) (c ∷ s) rest e = elim (Bool-cases (ascii_upper c == ascii_upper w)) [
  | inl y ↦
      let (head, cut, same) = strip_word-found word s rest (ground arith) in
      (c ∷ head, cc cut, λ i. (==_iff _ _).0 y i ∷ same i)
  | inr n ↦ ground arith
]

strip_word_complete :
    (word head rest : Text)
    → to_ascii_uppercase head ≡ to_ascii_uppercase word
    → strip_word word (head ++ rest) ≡ some rest
unfolding strip_word to_ascii_uppercase
strip_word_complete [] [] rest e = refl
strip_word_complete [] (c ∷ head) rest e = cc e
strip_word_complete (w ∷ word) [] rest e = cc e
strip_word_complete (w ∷ word) (c ∷ head) rest e =
    ground (arith, strip_word_complete word head rest)

take_address-found : (s t : Text) → take_address s ≡ some t → (s ≡ t ++ end_line) × Plain t
unfolding take_address
take_address-found [] t e = cc e
take_address-found (c ∷ s) t e = elim (Bool-cases (text_eq (c ∷ s) end_line)) [
  | inl y ↦ last t (eq_of_text_eq (c ∷ s) end_line y) (ground arith)
  | inr n ↦ elim (Bool-cases (c == b'>')) [
    | inl y ↦ ground arith
    | inr m ↦ elim (Option-cases (take_address s)) [
      | inl z ↦ ground arith
      | inr (u, z) ↦ more t u m (ground arith) (take_address-found s u z)
    ]
  ]
]
  where
    last : (t : Text) → c ∷ s ≡ end_line → t ≡ [] → (c ∷ s ≡ t ++ end_line) × Plain t
    last [] p q = (p, tt)
    last (x ∷ t) p q = cc q

    more :
        (t u : Text)
        → c == b'>' ≡ false
        → t ≡ c ∷ u
        → (s ≡ u ++ end_line) × Plain u
        → (c ∷ s ≡ t ++ end_line) × Plain t
    more t u m q (cut, p) =
        subst (λ t. (c ∷ s ≡ t ++ end_line) × Plain t) (sym q) (cc cut, (ground arith, p))

take_address_complete : (t : Text) → Plain t → take_address (t ++ end_line) ≡ some t
unfolding take_address text_eq
take_address_complete [] p = refl
take_address_complete (c ∷ t) p = ground (arith, p.0, take_address_complete t (p.1))

group_of-some : (t : Text) → t ≢ [] → group_of (some t) ≢ none
group_of-some [] h e = h refl
group_of-some (c ∷ t) h e = cc e

match_address-IsSpelled :
    (word s t : Text) → IsSpelled word s t → match_address word s ≡ group_of (some t)
unfolding match_address
match_address-IsSpelled word s t h =
    rw
      (
        h.spelled,
        strip_word_complete word h.head (t ++ end_line) h.same,
        take_address_complete t h.no_bracket,
        match_address,
      )
      refl

match_address-IsCaptures : (word : Text) → IsCaptures (address_cmd word) (match_address word)
unfolding match_address
match_address-IsCaptures word = record {
  found = λ s g e. elim (Option-cases (strip_word word s)) [
    | inl n ↦ ground arith
    | inr (rest, p) ↦ elim (Option-cases (take_address rest)) [
      | inl n ↦ ground arith
      | inr (t, q) ↦ found s g rest t p q (ground arith)
    ]
  ];
  complete = λ s gs h e.
      let (t, eq, k) = address_cmd-IsSpelled word s gs h in
      group_of-some t k.not_empty (sym (match_address-IsSpelled word s t k) ∙ e);
}
  where
    found :
        (s : Text) (g : Option Text) (rest t : Text)
        → strip_word word s ≡ some rest
        → take_address rest ≡ some t
        → group_of (some t) ≡ some g
        → Finds (address_cmd word) s (g ∷ [])
    found s g rest [] p q e = cc e
    found s g rest (c ∷ t) p q e =
        let (head, cut, same) = strip_word-found word s rest p in
        let (cut', plain) = take_address-found rest (c ∷ t) q in
        subst (λ g. Finds (address_cmd word) s (g ∷ [])) (cc e)
          (IsSpelled-address_cmd word s (c ∷ t) (record {
            head = head;
            spelled = cut ∙ ap (λ r. head ++ r) cut';
            same = same;
            not_empty = λ z. cc z;
            no_bracket = plain;
          }))

pub mail_captures-IsCaptures : IsCaptures mail_cmd test_crates.mail_captures
unfolding mail_cmd
mail_captures-IsCaptures = match_address-IsCaptures (codes "MAIL FROM:<")

pub rcpt_captures-IsCaptures : IsCaptures rcpt_cmd test_crates.rcpt_captures
unfolding rcpt_cmd
rcpt_captures-IsCaptures = match_address-IsCaptures (codes "RCPT TO:<")

-- MAIL in lower case
abbrev mail_message : Command
mail_message = record { verb = some CommandVerb.mail; message = codes "mail from:<b@x.tld>\r\n" }

mail_message-IsSpelled : IsSpelled (codes "MAIL FROM:<") mail_message.message (codes "b@x.tld")
unfolding to_ascii_uppercase ascii_upper
mail_message-IsSpelled = record {
  head = codes "mail from:<";
  spelled = refl;
  same = refl;
  not_empty = λ e. cc e;
  no_bracket = (refl, (refl, (refl, (refl, (refl, (refl, (refl, tt)))))));
}

mail_from-IsSpelled_example :
    mail_from {Session = TestSession} test_db test_crates.mail_captures host mail_message helo
    ≡ check_sender test_db helo (of_parts (codes "b") (codes "x.tld") host)
unfolding contains starts_with
mail_from-IsSpelled_example =
    (mail_from-IsSpelled test_db test_crates.mail_captures host mail_message helo
        mail_captures-IsCaptures).0
      (codes "b") (codes "x.tld") refl refl mail_message-IsSpelled

abbrev test_user : User
test_user = record { hostname = host; identity = codes "a@h.tld"; username = codes "a@h.tld" }

abbrev no_recipients : RcptState
no_recipients = record {
  hostname = host;
  sender = of_parts (codes "a") host host;
  is_local_sender = true;
  recipients = [];
  authorized = some test_user;
}

-- RSET in a recipient
abbrev rcpt_message : Command
rcpt_message = record {
  verb = some CommandVerb.rcpt;
  message = codes "RCPT TO:<b\r\nRSET @x.tld>\r\n";
}

add_rcpt-line_example :
    (add_rcpt test_crates.rcpt_captures host rcpt_message no_recipients ≡ (do
      send msg_ok
      pure (
        none,
        record no_recipients {
          recipients = of_parts (codes "b\r\nRSET ") (codes "x.tld") host ∷ [];
        },
      )))
    × ((conn : Connection) (config : Config) (envelope : Envelope) (w : Network)
        → Wrote conn
            ((codes "EHLO " ++ (config.hostname ++ codes "\r\n"))
              ∷ (codes "MAIL FROM:<" ++ (envelope.sender.address ++ codes ">\r\n"))
              ∷ codes "RCPT TO:<b\r\nRSET @x.tld>\r\n"
              ∷ codes "DATA\r\n"
              ∷ envelope.body
              ∷ [])
            (codes "QUIT\r\n" ∷ [])
            w
            (run conn config envelope (of_parts (codes "b\r\nRSET ") (codes "x.tld") host ∷ []) w))
unfolding contains starts_with
add_rcpt-line_example =
    add_rcpt-line test_crates.rcpt_captures host rcpt_message no_recipients test_user (codes "b")
      (codes "x.tld") (codes "RSET ") rcpt_captures-IsCaptures refl refl refl
      (
        refl,
        (
          refl,
          (
            refl,
            (
              refl,
              (refl, (refl, (refl, (refl, (refl, (refl, (refl, (refl, (refl, (refl, tt)))))))))),
            ),
          ),
        ),
      )
      refl
