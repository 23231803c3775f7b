-- ===== src/Queue.antt =====
-- src/queue.rs: the outgoing queue. The mutex round it is held for the whole of each call, so a
-- call is a function of the queue. The client that delivers is a parameter of `fire`.
pub mod Groups
pub mod Firing
pub mod Sorted
use whalemail.Prelude.{pop_last, Bool, true, false, Option, none, some, List, [], ◌∷◌, ◌++◌}
use whalemail.Prelude.Outcome.{Result, ok, err}
use whalemail.Prelude.Action.{Outcome, done, failed, panicked, Action, pure, panic, ◌>>=◌, ◌>>◌}
use whalemail.Text.{Text}
use whalemail.Envelope.{MailAddress, Envelope}
use whalemail.MultiMap.{MultiMap}

pub record Entry : Type 0 where
  pub envelope : Envelope
  pub rcpt_groups : List (List MailAddress)

-- the configuration that the source keeps beside the entries is only handed to the client
pub record Queue : Type 0 where
  pub entries : List Entry

unfoldable pub new_queue : Queue
new_queue = record { entries = [] }

module _ {M : Type 0} (mm : MultiMap MailAddress M) where
  -- the loop over the domains; `none` is the panic of `unwrap`
  unfoldable pub take_groups :
      List Text → M → List (List MailAddress) → Option (List (List MailAddress))
  take_groups [] m groups = some groups
  take_groups (d ∷ ds) m groups =
      let r = mm.remove m d in
      elim r.0 [ none ↦ none | some vs ↦ take_groups ds r.1 (groups ++ vs ∷ []) ]

  abbrev pub push_entry : Envelope → Queue → Option (List (List MailAddress)) → Option Queue
  push_entry envelope q none = none
  push_entry envelope q (some groups) =
      some (record {
        entries = q.entries ++ record { envelope = envelope; rcpt_groups = groups } ∷ [];
      })

  abbrev pub add_domains : Queue → Envelope → M → List Text → Option Queue
  add_domains q envelope recipients [] = some q
  add_domains q envelope recipients (d ∷ ds) =
      push_entry envelope q (take_groups (d ∷ ds) recipients [])

  -- `Queue::add`
  unfoldable pub add : Queue → Envelope → M → Option Queue
  unfolding take_groups
  add q envelope recipients = add_domains q envelope recipients (mm.keys recipients)

-- `deliver` over a world `W`; its errors are collected and logged
module _ {W E : Type 0} (deliver : Envelope → List MailAddress → W → Outcome E (Unit {0}) × W) where
  abbrev pub collect : List E → Outcome E (Unit {0}) → Option (List E)
  collect errors (done u) = some errors
  collect errors (failed e) = some (errors ++ e ∷ [])
  collect errors panicked = none

  unfoldable pub deliver_groups :
      Envelope → List (List MailAddress) → List E → W → Option (List E) × W
  deliver_groups envelope [] errors w = (some errors, w)
  deliver_groups envelope (g ∷ gs) errors w =
      let r = deliver envelope g w in
      elim (collect errors r.0) [
        | none ↦ (none, r.1)
        | some errors' ↦ deliver_groups envelope gs errors' r.1
      ]

  -- `Queue::fire`: the errors that it logs, `none` if a delivery panicked
  unfoldable pub fire : Queue → W → Option (List E) × Queue × W
  unfolding pop_last deliver_groups
  fire q w = elim (pop_last q.entries) [
    | none ↦ (some [], q, w)
    | some (entry, rest) ↦
        let r = deliver_groups entry.envelope entry.rcpt_groups [] w in
        (r.0, record { entries = rest }, r.1)
  ]
