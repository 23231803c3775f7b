-- ===== src/Smtp/Patterns/Login.antt =====
-- src/smtp/server.rs: the pattern of AUTH, and a message that it does not match.
use whalemail.Prelude.{
  ℕ, Bool, ◌&&◌, ◌||◌, ◌==◌, leb, ◌≡◌, ap, subst, ◌∙◌, Option, none, some, List, [], ◌∷◌, ◌++◌,
  append_assoc, inl, inr, Option-cases,
}
use whalemail.Prelude.Action.{pure}
use whalemail.Text.{Text, codes, is_whitespace}
use whalemail.Config.{Config}
use whalemail.UserDb.{UserDb}
use whalemail.Regex.{
  Regex, literal, plus, star, group, optional, finish, then', Matches, Finds, other_than,
}
use whalemail.Command.{CommandVerb}
use whalemail.Smtp.Body.{new_command-message}
use whalemail.Smtp.Crates.{Crates}
use whalemail.Smtp.State.{EhloState, ehlo, bad_mechanism}
use whalemail.Smtp.Login.{init_sasl, settle_auth, with_mech}
use whalemail.Smtp.Handle.{dispatch, handle}
use whalemail.Smtp.Transaction.{IsCommand, handle-dispatch}

-- `[0-9A-Za-z_-]`
abbrev pub mechanism_char : ℕ → Bool
mechanism_char c =
    (leb b'0' c && leb c b'9')
    || (leb b'A' c && leb c b'Z')
    || (leb b'a' c && leb c b'z')
    || c == b'_'
    || c == b'-'

-- `RE.auth_cmd`
unfoldable pub auth_cmd : Regex
unfolding is_whitespace
auth_cmd = then' (literal (codes "AUTH ")) (
    then' (group (star mechanism_char)) (
      then' (star is_whitespace)
        (then' (optional (group (plus (other_than b'$')))) (then' (star is_whitespace) finish))))

-- the word in capitals is a part of the text
abbrev pub HasAuth : Text → Type 0
HasAuth s = (before after : Text) × (s ≡ before ++ (codes "AUTH " ++ after))

auth_cmd-HasAuth : (s : Text) (gs : List (Option Text)) → Finds auth_cmd s gs → HasAuth s
unfolding Finds Matches auth_cmd
auth_cmd-HasAuth s gs (before, m, after, cut, (word, rest, _, _, m_eq, _, (word_eq, _), _)) =
    (before, rest ++ after, simp (cut, m_eq, word_eq, append_assoc))

module _ {Session M : Type 0} (crates : Crates Session M) (config : Config) (db : UserDb) where
  -- If what the pattern of AUTH captures is a match of it, then a message that is read as the
  -- command AUTH but does not have the word in capitals with a space behind it, as in `auth PLAIN`,
  -- is answered as one with an invalid mechanism, whatever mechanism it names.
  pub handle-lower_case :
      (e : EhloState) (m : Text)
      → ((s : Text) (g h : Option Text)
          → crates.auth_captures s ≡ some (g, h)
          → Finds auth_cmd s (g ∷ h ∷ []))
      → IsCommand CommandVerb.auth m
      → (HasAuth m → ⊥)
      → handle crates config db (ehlo e) m ≡ settle_auth (pure (bad_mechanism e))
  unfolding dispatch init_sasl
  handle-lower_case e m found h none_of =
      handle-dispatch crates config db (ehlo e) CommandVerb.auth m h
      ∙ ap (λ o. settle_auth (with_mech crates db config.hostname e o)) unmatched
    where
      unmatched : crates.auth_captures h.0.message ≡ none
      unmatched = elim (Option-cases (crates.auth_captures h.0.message)) [
        | inl n ↦ n
        | inr ((g, k), c) ↦ absurd (
            none_of (
              subst HasAuth (new_command-message m h.0 h.1) (auth_cmd-HasAuth _ _ (found _ g k c))))
      ]
