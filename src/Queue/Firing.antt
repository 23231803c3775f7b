-- ===== src/Queue/Firing.antt =====
-- What `Queue::fire` delivers.
use whalemail.Prelude.{
  pop_last-append, ◌≡◌, ◌≢◌, refl, sym, ◌∙◌, Option, none, some, List, [], ◌∷◌, ◌++◌, map,
  append_assoc, append-nil, All,
}
use whalemail.Prelude.Action.{Outcome, done, failed, panicked}
use whalemail.Envelope.{MailAddress, Envelope}
use whalemail.Queue.{Entry, collect, deliver_groups, fire}

abbrev pub Attempt : Type 0
Attempt = Envelope × List MailAddress

module _ {W E : Type 0} (deliver : Envelope → List MailAddress → W → Outcome E (Unit {0}) × W) where
  -- the same deliveries, with a log of the attempts
  abbrev pub logged :
      Envelope → List MailAddress → W × List Attempt → Outcome E (Unit {0}) × (W × List Attempt)
  logged e g s = let r = deliver e g s.0 in (r.0, (r.1, s.1 ++ (e, g) ∷ []))

  -- `I` holds of the world behind each attempt of a group of which `G` holds, and none of them panics
  abbrev pub Attempts : (List MailAddress → Type 0) → (W → Type 0) → Type 0
  Attempts G I =
      (e : Envelope) (g : List MailAddress) (w : W)
      → G g
      → I w
      → ((deliver e g w).0 ≢ panicked) × I (deliver e g w).1

  module _ (G : List MailAddress → Type 0) (I : W → Type 0) (calm : Attempts G I) where
    deliver_groups-logged :
        (e : Envelope) (gs : List (List MailAddress)) (errors : List E) (w : W) (log : List Attempt)
        → All G gs
        → I w
        → (deliver_groups logged e gs errors (w, log)).1.1 ≡ log ++ map (λ g. (e, g)) gs
    unfolding deliver_groups
    deliver_groups-logged e [] errors w log h i = sym (append-nil log)
    deliver_groups-logged e (g ∷ gs) errors w log (h, hs) i =
        attempted (deliver e g w).0 (calm e g w h i).0 λ es.
          deliver_groups-logged e gs es (deliver e g w).1 (log ++ (e, g) ∷ []) hs (calm e g w h i).1
          ∙ append_assoc log ((e, g) ∷ []) _
      where
        next : W × List Attempt
        next = ((deliver e g w).1, log ++ (e, g) ∷ [])

        attempted :
            (o : Outcome E (Unit {0}))
            → o ≢ panicked
            → ((es : List E)
                → (deliver_groups logged e gs es next).1.1 ≡ log ++ map (λ g. (e, g)) (g ∷ gs))
            → (elim (collect logged errors o) as (λ _. Option (List E) × (W × List Attempt)) [
              | none ↦ (none, next)
              | some es ↦ deliver_groups logged e gs es next
            ]).1.1
              ≡ log ++ map (λ g. (e, g)) (g ∷ gs)
        attempted (done u) n rest = rest errors
        attempted (failed x) n rest = rest (errors ++ x ∷ [])
        attempted panicked n rest = absurd (n refl)

    -- firing takes the last entry off the queue and attempts each of its groups once, in order
    pub fire-logged :
        (es : List Entry) (entry : Entry) (w : W)
        → All G entry.rcpt_groups
        → I w
        → ((fire logged (record { entries = es ++ entry ∷ [] }) (w, [])).1
            ≡ record { entries = es })
          × ((fire logged (record { entries = es ++ entry ∷ [] }) (w, [])).2.1
              ≡ map (λ g. (entry.envelope, g)) entry.rcpt_groups)
    unfolding fire
    fire-logged es entry w h i =
        rw (pop_last-append es entry, fire)
          (refl, deliver_groups-logged entry.envelope entry.rcpt_groups [] w [] h i)
