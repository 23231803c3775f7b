-- ===== src/Lib.antt =====
-- A verification library for whalemail, an SMTP server that takes mail over SMTP, stores it for local
-- users in maildirs and queues it for remote ones.
--
-- A connection (src/net.rs) reads messages and hands each to the server's state machine
-- (src/smtp/server.rs). The state machine authenticates a client through SASL (src/auth.rs), which asks
-- the user database (src/userdb.rs), collects an envelope (src/smtp/envelope.rs), decodes the body's
-- transparency, stores mail for local recipients (src/maildir.rs) and puts the rest, grouped by domain,
-- into the outgoing queue (src/queue.rs). When a connection ends, the main program (src/main.rs) fires
-- the queue, and the client (src/smtp/client.rs) looks up the hosts of the recipients' domain, connects to
-- one, over TLS (src/tls.rs) or without, and writes the mail to it.
--
--   Prelude        tests and lists over the native numbers, results, and actions: functions of a
--                  state that are done, failed with an error or panicked; `Keeps` says that an action
--                  keeps a property of its state and returns values with a property
--   Text           texts as lists of code points with the string functions that the source calls;
--                  Text/Utf8 decodes and encodes bytes, Text/Lossy decodes any bytes, and
--                  Text/RoundTrip relates them
--   Config, User, UserDb, Envelope
--                  src/config.rs, src/user.rs, src/userdb.rs and src/smtp/envelope.rs
--   Net            the socket: what was written and what each write answers
--   Command        `CommandVerb` and `Command` of src/smtp/server.rs; Ascii says when parsing one does
--                  not panic
--   Transparency   `contains_mail_end` and `decode_transparency`; Stuffing describes dot stuffing
--                  line by line, independently of the code
--   Regex          the regular expressions of the source as syntax, and which texts they match; Address
--                  is about the form that MAIL and RCPT share, Decide is a search that finds a match
--                  whenever there is one
--   MultiMap       the multimap crate's interface: operations, and their laws
--   Queue          src/queue.rs; Sorted says what the client expects of what is queued
--   Maildir        src/maildir.rs, over a disk that records its calls; Names is about file names,
--                  Stored about what is asked of the disk
--   Auth           src/auth.rs; Auth/Session is the interface of the SASL library, Plain has the pattern of
--                  a PLAIN message
--   Smtp           the state machine: Crates collects the parameters and the environment, State the
--                  states, then a file for each phase (Login for AUTH, Mail, Rcpt, Receive for DATA,
--                  Delivery), Handle for `SmtpServer::handle`, Session for the loops of src/net.rs;
--                  the proofs are in Invariant and Relay (what a session may do), Phases (the order
--                  of the states), Body (mail that comes in several messages), Outgoing (what is
--                  queued), Delivery/Local (what is stored), Reading (what the bytes of a read are made
--                  of), Calm (when the server does not panic), Unchecked (the sender after HELO and
--                  after EHLO), Patterns (the patterns of AUTH, MAIL and RCPT and what they let
--                  through), Transaction (a mail from the greeting to the file in the maildir, and the
--                  mail of a client that is logged in to the queue and through its firing) and Bounds
--                  (how many replies are written)
--   Tls            src/tls.rs, over the directory and the PEM files
--   Client         src/smtp/client.rs and the client's errors of src/smtp/error.rs: Network records the
--                  calls and answers them, Session is the dialogue, Hosts the map of hosts by
--                  preference with its interface, Discovery the search for a connection; the proofs
--                  are in Transcript and Success (what is written, and when a mail is delivered),
--                  Popping, Order, Lookup and Found (the order of the hosts, and that the loop over
--                  them ends), Calls, Count and Bounds (how many calls are made), and Names,
--                  Logged and Safe (when a delivery does not panic)
--   Postgres       src/userdb/drivers/postgres.rs, over the answers to its queries; Login says which
--                  account a login is for
--   MockDb         src/userdb/drivers/mock_db.rs; Agrees relates it to Postgres
--   Process        src/main.rs; the proofs are in Started (how the server starts), Closed (that it is
--                  no relay for clients that are not logged in), Sorted (that what is queued can be
--                  delivered) and Running (when it does not panic)
--   Tests          concrete parameters, sessions, and the theorems at concrete inputs
--
-- A handler of the source is a function with the source's name from its arguments to an action on the
-- environment `Env`. The environment holds the socket, the storage, the outgoing queue and the source of
-- random identifiers. An `io::Error` is a failed action, an `unwrap`, `expect` or slice that panics is a
-- panicked one, and an error that the source handles is a value. The client's actions are on `Network`,
-- where an answer `none` is a time limit that passes during the call. A connection is a sequence of
-- reads, each answered by the environment, and the main loop goes through the clients in the order in
-- which `select!` takes them.
--
-- Regular expressions, SASL, base64, UUIDs, paths, multimaps, the system clock, the DNS resolver, the
-- random generator, rustls, PEM files and the database are code of others: they are fields of `Crates`,
-- `ClientCrates`, `TlsFiles`, `Network` and `Postgres.Client`, and what is relied on is stated by
-- `IsSasl`, `IsMultiMap`, `IsHostMap`, `IsCaptures`, `IsTest`, `IsShuffle`, `Prompts` and `HasClock`.
-- `HasTls` is about the files and `HasNames` about the hosts that the name server answers with. An
-- implementation of `UserDB` may panic where the two of the source can; `Answers` and `HasHomes` say
-- that one does not. Loops run over their input but for two: `decimal` counts down from the number it
-- prints, and `probe`, the loop over the hosts, has as fuel the number of the hosts and one more; that
-- this is enough is among the results.
--
-- Not modelled: what goes on inside the crates, logging and printing, `state_history`, which nothing
-- writes, `Drop` and the closing of sockets, and the tests with the doubles of the connection, the storage
-- and the configuration.
pub mod Prelude
pub mod Text
pub mod Transparency
pub mod Config
pub mod User
pub mod Envelope
pub mod UserDb
pub mod Net
pub mod Postgres
pub mod Process
pub mod MultiMap
pub mod Queue
pub mod Regex
pub mod Maildir
pub mod MockDb
pub mod Command
pub mod Auth
pub mod Tls
pub mod Client
pub mod Smtp
mod Tests
