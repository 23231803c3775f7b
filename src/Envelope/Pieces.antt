-- ===== src/Envelope/Pieces.antt =====
-- Which texts `MailAddress::new` accepts.
use whalemail.Prelude.{
  ◌↔◌, ℕ, true, false, ◌||◌, ◌≡◌, refl, sym, ap, subst, ◌∙◌, Option, none, some, List, [], ◌∷◌,
  ◌++◌, arith, All, ◌==◌, ==_iff, if◌then◌else◌, inl, inr, Bool-cases,
}
use whalemail.Text.{Text, text_eq, starts_with, contains, cons_head, split_from, split, join}
use whalemail.Config.{Hostname}
use whalemail.Envelope.{MailAddress, at_sign, of_pieces, new_address}

-- a text without `@`
abbrev pub IsFree : Text → Type 0
IsFree s = contains s at_sign ≡ false

abbrev pub at : Text → Text → Text
at l d = l ++ (at_sign ++ d)

split-nil : split [] at_sign ≡ [] ∷ []
unfolding split split_from
split-nil = refl

split-cons :
    (x : ℕ) (s : Text)
    → split (x ∷ s) at_sign
      ≡ (if x == b'@' then [] ∷ split s at_sign else cons_head x (split s at_sign))
unfolding split split_from starts_with
split-cons x s = ground arith

IsFree-cons : (x : ℕ) (s : Text) → contains (x ∷ s) at_sign ≡ (x == b'@' || contains s at_sign)
unfolding contains starts_with
IsFree-cons x s = ground arith

IsFree-nil : IsFree []
unfolding contains starts_with
IsFree-nil = refl

pub contains-at : (l d : Text) → contains (at l d) at_sign ≡ true
contains-at [] d = ground (arith, IsFree-cons b'@' d)
contains-at (x ∷ l) d = ground (arith, IsFree-cons x (at l d), contains-at l d)

pub split-IsFree : (s : Text) → IsFree s → split s at_sign ≡ s ∷ []
unfolding cons_head
split-IsFree [] h = split-nil
split-IsFree (x ∷ s) h = ground (arith, split-cons x s, IsFree-cons x s, split-IsFree s)

pub split-at : (l d : Text) → IsFree l → split (at l d) at_sign ≡ l ∷ split d at_sign
unfolding cons_head
split-at [] d h = ground (arith, split-cons b'@' d)
split-at (x ∷ l) d h = ground (arith, split-cons x (at l d), IsFree-cons x l, split-at l d)

-- there are pieces, none has an `@`, and joined they are the text
abbrev Pieces : Text → List Text → Type 0
Pieces s [] = ⊥
Pieces s (c ∷ cs) = (join at_sign (c ∷ cs) ≡ s) × All IsFree (c ∷ cs)

first_nil : (s : Text) (cs : List Text) → Pieces s cs → Pieces (b'@' ∷ s) ([] ∷ cs)
unfolding join
first_nil s [] p = absurd p
first_nil s (c ∷ cs) (e, free) = (ap (λ t. b'@' ∷ t) e, (IsFree-nil, free))

first_cons :
    (x : ℕ) (s : Text) (cs : List Text)
    → x == b'@' ≡ false
    → Pieces s cs
    → Pieces (x ∷ s) (cons_head x cs)
unfolding join cons_head
first_cons x s [] n p = absurd p
first_cons x s (c ∷ []) n (e, free) =
    (ap (λ t. x ∷ t) e, (ground (arith, IsFree-cons x c, n, free.0), tt))
first_cons x s (c ∷ d ∷ cs) n (e, free) =
    (ap (λ t. x ∷ t) e, (ground (arith, IsFree-cons x c, n, free.0), free.1))

split-Pieces : (s : Text) → Pieces s (split s at_sign)
unfolding join
split-Pieces [] = subst (Pieces []) (sym split-nil) (refl, (IsFree-nil, tt))
split-Pieces (x ∷ s) =
    subst (Pieces (x ∷ s)) (sym (split-cons x s)) (elim (Bool-cases (x == b'@')) [
      | inl y ↦ rw y (
          subst (λ z. Pieces (z ∷ s) ([] ∷ split s at_sign)) (sym ((==_iff x b'@').0 y))
            (first_nil s _ (split-Pieces s)))
      | inr n ↦ rw n (first_cons x s _ n (split-Pieces s))
    ])

-- there is always a piece
pub split-cons_eq : (s : Text) → (c : Text) × (cs : List Text) × (split s at_sign ≡ c ∷ cs)
split-cons_eq s = first (split s at_sign) refl (split-Pieces s)
  where
    first :
        (cs : List Text)
        → split s at_sign ≡ cs
        → Pieces s cs
        → (c : Text) × (ds : List Text) × (split s at_sign ≡ c ∷ ds)
    first [] e p = absurd p
    first (c ∷ cs) e p = (c, cs, e)

-- the address of a local part and a domain
abbrev pub of_parts : Text → Text → Hostname → MailAddress
of_parts l d hostname = record {
  address = at l d;
  local_part = l;
  domain = d;
  is_local_mailbox = none;
  is_local_responsibility = text_eq hostname d;
}

-- an address that is printed from its parts
abbrev pub IsPrinted : Text → Hostname → MailAddress → Type 0
IsPrinted s hostname a =
    (a ≡ of_parts a.local_part a.domain hostname)
    × (a.address ≡ s)
    × IsFree a.local_part
    × IsFree a.domain

abbrev SomeIsPrinted : Text → Hostname → Option MailAddress → Type 0
SomeIsPrinted s hostname none = Unit
SomeIsPrinted s hostname (some a) = IsPrinted s hostname a

of_pieces-IsPrinted :
    (s : Text) (hostname : Hostname) (cs : List Text)
    → Pieces s cs
    → SomeIsPrinted s hostname (of_pieces s hostname cs)
unfolding of_pieces join
of_pieces-IsPrinted s hostname [] p = absurd p
of_pieces-IsPrinted s hostname (l ∷ []) p = tt
of_pieces-IsPrinted s hostname (l ∷ d ∷ []) (j, free) =
    (ap (λ t. record (of_parts l d hostname) { address = t }) (sym j), refl, free.0, free.1.0)
of_pieces-IsPrinted s hostname (l ∷ d ∷ x ∷ cs) p = tt

-- A text is an address if and only if it is a local part and a domain round an `@` with no other `@` in
-- them.
pub new_address_iff :
    (s : Text) (hostname : Hostname) (a : MailAddress)
    → (new_address s hostname ≡ some a) ↔ IsPrinted s hostname a
unfolding new_address of_pieces
new_address_iff s hostname a = (
  λ e. subst (SomeIsPrinted s hostname) e (of_pieces-IsPrinted s hostname _ (split-Pieces s)),
  λ p. built p.0 p.1 p.2 p.3,
)
  where
    built :
        a ≡ of_parts a.local_part a.domain hostname
        → a.address ≡ s
        → IsFree a.local_part
        → IsFree a.domain
        → new_address s hostname ≡ some a
    built e f l d =
        subst (λ t. new_address t hostname ≡ some a) (sym (ap (λ b. b.address) e) ∙ f)
          (ap (of_pieces (at a.local_part a.domain) hostname) (
              split-at a.local_part a.domain l
              ∙ ap (λ cs. a.local_part ∷ cs) (split-IsFree a.domain d))
            ∙ ap some (sym e))
