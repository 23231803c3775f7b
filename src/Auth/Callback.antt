-- ===== src/Auth/Callback.antt =====
-- Which credentials `Callback::validate` finalizes, and for whom.
use whalemail.Prelude.{
  true, ◌≡◌, refl, sym, ap, subst, ◌∙◌, Option, none, some, ℕ, List, inl, inr, arith, Option-cases,
}
use whalemail.Prelude.Outcome.{ok, Result-cases}
use whalemail.Text.{Text}
use whalemail.Text.Laws.{eq_of_text_eq}
use whalemail.Text.Utf8.{from_utf8}
use whalemail.Config.{Hostname}
use whalemail.User.{Authorized}
use whalemail.UserDb.{UserDb}
use whalemail.Auth.Session.{Credentials, finalized}
use whalemail.Auth.{resolve_identity, new_authorized, check_user, validate}

resolve_identity-eq :
    (i : Option Text) (username : Text) (identity : Text)
    → resolve_identity i username ≡ ok identity
    → identity ≡ username
unfolding resolve_identity
resolve_identity-eq none username identity e = cc
resolve_identity-eq (some i) username identity e = ground (arith, eq_of_text_eq i username)

-- the user and the password that credentials stand for
pub record Stands (h : Hostname) (c : Credentials) (a : Authorized) (password : Text) : Type 0 where
  pub hostname : a.hostname ≡ h
  pub authid : c.authid ≡ some a.username
  pub identity : a.identity ≡ a.username
  pub decoded : (bytes : List ℕ) × (c.password ≡ some bytes) × (from_utf8 bytes ≡ some password)

new_authorized-Stands :
    (h : Hostname) (z i : Option Text) (p : Option (List ℕ)) (a : Authorized) (password : Text)
    → new_authorized h z i p ≡ ok (a, password)
    → Stands h (record { authzid = z; authid = i; password = p }) a password
unfolding new_authorized
new_authorized-Stands h z none p a password e = cc
new_authorized-Stands h z (some u) none a password e = cc
new_authorized-Stands h z (some u) (some bytes) a password e =
    elim (Option-cases (from_utf8 bytes)) [
      | inl n ↦ ground arith
      | inr (q, f) ↦ elim (Result-cases (resolve_identity z u)) [
        | inl (identity, g) ↦ record {
          hostname = ground arith;
          authid = ground arith;
          identity = ground (arith, resolve_identity-eq z u identity g);
          decoded = (bytes, refl, ground arith);
        }
        | inr (x, g) ↦ ground arith
      ]
    ]

check_user-finalized :
    (db : UserDb) (user a : Authorized) (password : Text)
    → check_user db (ok (user, password)) ≡ finalized a
    → (user ≡ a) × (db.authenticate user password ≡ ok true)
check_user-finalized db user a password e = elim (Result-cases (db.authenticate user password)) [
  | inl (b, p) ↦ (ground arith, ground arith)
  | inr (x, p) ↦ ground arith
]

-- If the callback finalizes an authorization, its user name is that of the credentials, its identity
-- is the same name, its host is the server's, the password of the credentials is UTF-8 text, and the
-- user database accepts the authorization with that text.
pub validate-Stands :
    (db : UserDb) (h : Hostname) (c : Credentials) (a : Authorized)
    → validate db h c ≡ finalized a
    → (password : Text) × Stands h c a password × (db.authenticate a password ≡ ok true)
unfolding validate
validate-Stands db h c a e = elim (Result-cases (new_authorized h c.authzid c.authid c.password)) [
  | inl ((user, password), p) ↦
      let (same, accepted) =
        check_user-finalized db user a password (sym (ap (check_user db) p) ∙ e) in
      subst
        (λ u. (password : Text) × Stands h c u password × (db.authenticate u password ≡ ok true))
        same
        (password, new_authorized-Stands h c.authzid c.authid c.password user password p, accepted)
  | inr (x, p) ↦ ground arith
]
