-- ===== src/Envelope/Laws.antt =====
-- What `MailAddress::new` accepts, and what it returns.
use whalemail.Prelude.{◌≡◌, sym, subst, some, List, [], ◌∷◌, arith}
use whalemail.Text.{Text, text_eq, split}
use whalemail.Config.{Hostname}
use whalemail.Envelope.{MailAddress, at_sign, of_pieces, new_address}

of_pieces-address :
    (s : Text) (h : Hostname) (cs : List Text) {a : MailAddress}
    → of_pieces s h cs ≡ some a
    → a.address ≡ s
unfolding of_pieces
of_pieces-address s h (l ∷ d ∷ []) e = ground arith
of_pieces-address s h _ e = cc

-- The address is the text that was parsed.
pub new_address-address :
    (s : Text) (h : Hostname) {a : MailAddress} → new_address s h ≡ some a → a.address ≡ s
unfolding new_address
new_address-address s h e = of_pieces-address s h (split s at_sign) e

pub new_address_again :
    (s : Text) (h : Hostname) {a : MailAddress}
    → new_address s h ≡ some a
    → new_address a.address h ≡ some a
new_address_again s h {a} e =
    subst (λ t. new_address t h ≡ some a) (sym (new_address-address s h e)) e

of_pieces-local :
    (s : Text) (h : Hostname) (cs : List Text) {a : MailAddress}
    → of_pieces s h cs ≡ some a
    → a.is_local_responsibility ≡ text_eq h a.domain
unfolding of_pieces
of_pieces-local s h (l ∷ d ∷ []) e = ground arith
of_pieces-local s h _ e = cc

-- The server is responsible for the addresses at its host name.
pub new_address-local :
    (s : Text) (h : Hostname) {a : MailAddress}
    → new_address s h ≡ some a
    → a.is_local_responsibility ≡ text_eq h a.domain
unfolding new_address
new_address-local s h e = of_pieces-local s h (split s at_sign) e
