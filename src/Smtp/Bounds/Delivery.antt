-- ===== src/Smtp/Bounds/Delivery.antt =====
-- The delivery of a mail writes no reply.
use whalemail.Prelude.{
  true, false, refl, Option, none, some, List, [], ◌∷◌, if◌then◌else◌, not, Bool,
}
use whalemail.Prelude.Action.{Outcome, done, failed, panicked, Action}
use whalemail.Text.{Text}
use whalemail.UserDb.{UserDb}
use whalemail.Envelope.{MailAddress, Envelope}
use whalemail.Queue.{Queue, add}
use whalemail.Smtp.Crates.{Crates, Env}
use whalemail.Smtp.Delivery.{
  MailboxDeliveryError, store_mail, store_all, store_found, deliver_local_mail, keep_queue, enqueue,
  deliver_mail,
}
use whalemail.Smtp.Bounds.{AtMost, AtMost-same, Says, Says-pure, Says-fail, Says-bind}

Says-if :
    {E A : Type 0} (b : Bool) {m k : Action E Env A}
    → Says 0 m
    → Says 0 k
    → Says 0 (if b then m else k)
Says-if true hm hk = hm
Says-if false hm hk = hk

module _ {Session M : Type 0} (crates : Crates Session M) (db : UserDb) where
  store_all-Says :
      (e : Envelope) (ms : List (MailAddress × Text)) → Says 0 (store_all crates db e ms)
  unfolding store_all store_mail
  store_all-Says e [] = Says-pure 0 tt
  store_all-Says e (m ∷ ms) =
      Says-bind 0 0 (record { at = λ env. AtMost-same 0 env (store_mail crates db e m env).1 refl })
        (λ _. store_all-Says e ms)

  store_found-Says :
      (e : Envelope) (r : Outcome MailboxDeliveryError (List (MailAddress × Text)))
      → Says 0 (store_found crates db e r)
  store_found-Says e (failed x) = Says-fail 0 x
  store_found-Says e panicked = record { at = λ env. AtMost-same 0 env env refl }
  store_found-Says e (done ms) = store_all-Says e ms

  enqueue-Says : (e : Envelope) (m : M) → Says 0 (enqueue crates db e m)
  unfolding enqueue
  enqueue-Says e m = record {
    at = λ env. by_test (not (crates.multimap.is_empty m)) (add crates.multimap env.queue e m) env;
  }
    where
      by_queue : (q : Option Queue) (env : Env) → AtMost 0 env (keep_queue crates db q env).1
      by_queue none env = AtMost-same 0 env env refl
      by_queue (some q) env = AtMost-same 0 env (record env { queue = q }) refl

      by_test :
          (b : Bool) (q : Option Queue) (env : Env)
          → AtMost 0 env (if b then keep_queue crates db q env else (done tt, env)).1
      by_test true q env = by_queue q env
      by_test false q env = AtMost-same 0 env env refl

  pub deliver_mail-Says : (e : Envelope) → Says 0 (deliver_mail crates db e)
  unfolding deliver_mail deliver_local_mail
  deliver_mail-Says e =
      Says-bind 0 0 (enqueue-Says e _) (λ _. Says-if _ (store_found-Says e _) (Says-pure 0 tt))
