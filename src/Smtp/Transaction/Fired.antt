-- ===== src/Smtp/Transaction/Fired.antt =====
-- The mail of a client that is logged in, from its commands to the deliveries of the queue.
use whalemail.Prelude.{
  Bool, arith, some, not, true, ◌≡◌, ◌≢◌, refl, sym, subst, ap, ◌∙◌, List, [], ◌∷◌, ◌++◌, All,
  flatten, map,
}
use whalemail.Text.Laws.{text_eq_refl}
use whalemail.Client.Hosts.{IsHostMap}
use whalemail.Client.Lookup.{IsShuffle}
use whalemail.Client.Network.{Network}
use whalemail.Client.Discovery.{ClientCrates, deliver_remote}
use whalemail.Client.Safe.{HasTls, HasNames, deliver_remote-Safe}
use whalemail.Text.{Text, codes}
use whalemail.Config.{Config}
use whalemail.UserDb.{UserDb}
use whalemail.MultiMap.{IsMultiMap, has, Distinct}
use whalemail.Envelope.{Envelope, MailAddress}
use whalemail.Envelope.Pieces.{IsFree, at, of_parts}
use whalemail.Queue.{Queue, fire}
use whalemail.Queue.Firing.{logged, fire-logged}
use whalemail.Regex.{IsCaptures}
use whalemail.Regex.Address.{IsSpelled}
use whalemail.Command.{CommandVerb}
use whalemail.Transparency.{mail_end}
use whalemail.Transparency.Stuffing.{line_start, stuff}
use whalemail.Smtp.Body.{handle_all, GoesOn, Ends}
use whalemail.Smtp.Crates.{Crates, Env}
use whalemail.Smtp.State.{EhloState, ehlo, msg_ok}
use whalemail.Smtp.Mail.{has_permission}
use whalemail.Smtp.Delivery.{is_nil}
use whalemail.Smtp.Outgoing.Groups.{remote_to, added}
use whalemail.Smtp.Patterns.{mail_cmd, rcpt_cmd}
use whalemail.Smtp.Transaction.{Takes, start_input, IsCommand, IsRcpt}
use whalemail.Smtp.Transaction.Recipients.{addresses, oks}
use whalemail.Smtp.Transaction.Whole.{rest_of}
use whalemail.Smtp.Transaction.Queued.{mail_of, handle_all-queued}

map-group :
    {A B C : Type 0} (g : B → C) (f : A → B) (xs : List A)
    → map g (map f xs) ≡ map (λ x. g (f x)) xs
map-group g f [] = refl
map-group g f (x ∷ xs) = ap (λ ys. g (f x) ∷ ys) (map-group g f xs)

-- every domain that is a key of the groups has a recipient
groups-ne_nil :
    (e : Envelope) (ds es : List Text)
    → ((d : Text) → has d ds ≡ not (is_nil (remote_to e.recipients d)))
    → ((d : Text) → has d es ≡ true → has d ds ≡ true)
    → All (λ g. g ≢ []) (map (remote_to e.recipients) es)
groups-ne_nil e ds [] keys sub = tt
groups-ne_nil e ds (d ∷ es) keys sub = (
  not_nil (remote_to e.recipients d) (sym (keys d) ∙ sub d (ground (arith, text_eq_refl d))),
  groups-ne_nil e ds es keys (λ k h. sub k (ground arith)),
)
  where
    not_nil : (g : List MailAddress) → not (is_nil g) ≡ true → g ≢ []
    not_nil [] h e = cc
    not_nil (a ∷ g) h e = cc

module _ {HM Cert Key Store Acceptor : Type 0} (client : ClientCrates HM Cert Key Store Acceptor)
    (config : Config) (has_tls : HasTls client config) (host_laws : IsHostMap client.hosts)
    (shuffled : IsShuffle client.shuffle) where
  -- firing the queue `q'` over the network attempts the mail `e` once for each of the domains, and
  -- leaves `q`
  abbrev pub FiresTo : Queue → Envelope → List Text → Network → Queue → Type 0
  FiresTo q e ds w q' =
      ((fire (logged (deliver_remote client config)) q' (w, [])).1 ≡ q)
      × ((fire (logged (deliver_remote client config)) q' (w, [])).2.1
          ≡ map (λ d. (e, remote_to e.recipients d)) ds)

  added-FiresTo :
      {Session M : Type 0} (crates : Crates Session M) (db : UserDb)
      (laws : IsMultiMap crates.multimap) (q : Queue) (e : Envelope) (w : Network) (dom : Text)
      (ds : List Text)
      → HasNames client config w
      → ((d : Text) → has d ds ≡ not (is_nil (remote_to e.recipients d)))
      → has dom ds ≡ true
      → FiresTo q e ds w (added crates db laws q e ds)
  added-FiresTo crates db laws q e w dom [] v keys h = absurd (cc h)
  added-FiresTo crates db laws q e w dom (d ∷ ds) v keys h =
      let r =
        fire-logged (deliver_remote client config) (λ g. g ≢ []) (HasNames client config)
          (λ e g w. deliver_remote-Safe client config has_tls host_laws shuffled e g w) q.entries
          (record { envelope = e; rcpt_groups = map (remote_to e.recipients) (d ∷ ds) }) w
          (groups-ne_nil e (d ∷ ds) (d ∷ ds) keys (λ k y. y)) v in
      (r.0, r.1 ∙ map-group (λ g. (e, g)) (remote_to e.recipients) (d ∷ ds))

  -- If the socket takes the whole of each reply up to the one to DATA, the captures, the multimaps
  -- and the random generator are as their crates document them, the TLS connector can be built, the
  -- hosts that the name server answers with have valid names, and a client in EHLO, logged in or
  -- not, says MAIL with an address that it may use and of which the user database tells whether it
  -- is local, RCPT with one or more addresses to which it may send and DATA, and sends a mail of
  -- any content with its periods stuffed and CR LF . CR LF behind it, in messages of which the last
  -- and no other holds an end of the mail and none panics, and one of the recipients is at a remote
  -- domain, then firing the queue behind that over the network attempts the mail, with that content
  -- and the terminator, once for each of the distinct remote domains, with the recipients of that
  -- domain, whether the earlier attempts and the local delivery succeed or fail, and leaves the
  -- queue as it was before the mail.
  pub handle_all-fired :
      {Session M : Type 0} (crates : Crates Session M) (db : UserDb)
      (rs : IsCaptures rcpt_cmd crates.rcpt_captures) (start last content : Text)
      (first : Text × Text × Text) (rcpts : List (Text × Text × Text)) (inputs : List Text)
      (h_start : IsCommand CommandVerb.data' start) (goes : All GoesOn inputs) (ends : Ends last)
      (sent : flatten inputs ++ last ≡ stuff line_start content ++ mail_end)
      (laws : IsMultiMap crates.multimap) (e : EhloState) (sender l d : Text) (local : Bool)
      (env : Env) (w : Network) (dom : Text)
      → HasNames client config w
      → Takes (msg_ok ∷ (oks config (first ∷ rcpts) ++ start_input ∷ [])) env.socket
      → IsCaptures mail_cmd crates.mail_captures
      → IsCommand CommandVerb.mail sender
      → db.is_local_mailbox (of_parts l d config.hostname) ≡ some local
      → IsFree l
      → IsFree d
      → IsSpelled (codes "MAIL FROM:<") sender (at l d)
      → (has_permission db e.authorized (of_parts l d config.hostname)).0 ≡ some true
      → All (IsRcpt config e.authorized) (first ∷ rcpts)
      → not (is_nil (remote_to (addresses config (first ∷ rcpts)) dom)) ≡ true
      → (ds : List Text) × Distinct ds
        × ((k : Text) → has k ds ≡ not (is_nil (remote_to (addresses config (first ∷ rcpts)) k)))
        × FiresTo env.queue
            (mail_of crates config db e l d local (first ∷ rcpts) content env)
            ds
            w
            (handle_all crates config db
              (ehlo e)
              (sender ∷ rest_of first rcpts start inputs last)
              env).1.queue
  handle_all-fired crates db rs start last content first rcpts inputs h_start goes ends sent laws e
        sender l d local env w dom v takes mails h_sender asked fl fd spelled permitted h_rcpts
        remote =
      let mail = mail_of crates config db e l d local (first ∷ rcpts) content env in
      let (ds, distinct, keys, eq) =
        handle_all-queued crates config db rs start last content first rcpts inputs h_start goes
          ends sent laws e sender l d local env takes mails h_sender asked fl fd spelled permitted
          h_rcpts in
      (
        ds,
        distinct,
        keys,
        subst (FiresTo env.queue mail ds w) (sym eq)
            (added-FiresTo crates db laws env.queue mail w dom ds v keys (keys dom ∙ remote)),
      )
