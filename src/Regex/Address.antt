-- ===== src/Regex/Address.antt =====
-- Which messages the patterns of MAIL and RCPT match.
use whalemail.Prelude.{
  true, ◌≡◌, ◌≢◌, refl, sym, ◌∙◌, Option, some, List, [], ◌∷◌, ◌++◌, All, append-nil,
}
use mathlib.Core.List.{append_cancel_right}
use whalemail.Text.{Text, codes, to_ascii_uppercase}
use whalemail.Regex.{
  Regex, literal, any_case, plus, group, start, finish, then', Matches, Finds, other_than,
}

-- a word in any case, an address without `>` and a line end
unfoldable pub address_cmd : Text → Regex
address_cmd word = then' start (
    then' (any_case word)
      (then' (group (plus (other_than b'>'))) (then' (literal (codes ">\r\n")) finish)))

-- The message is the word in some case, the text and `>\r\n`.
pub record IsSpelled (word s t : Text) : Type 0 where
  pub head : Text
  pub spelled : s ≡ head ++ (t ++ codes ">\r\n")
  pub same : to_ascii_uppercase head ≡ to_ascii_uppercase word
  pub not_empty : t ≢ []
  pub no_bracket : All (λ x. other_than b'>' x ≡ true) t

pub address_cmd-IsSpelled :
    (word s : Text) (gs : List (Option Text))
    → Finds (address_cmd word) s gs
    → (t : Text) × (gs ≡ some t ∷ []) × IsSpelled word s t
unfolding address_cmd Finds Matches
address_cmd-IsSpelled word s gs
      (
        before,
        m,
        after,
        cut,
        (
          _,
          rest,
          hs,
          _,
          m_eq,
          gs_eq,
          (no_before, no_start, no_hs),
          (
            head,
            rest',
            hs',
            _,
            rest_eq,
            ks_eq,
            (same, no_hs'),
            (
              t,
              rest'',
              _,
              hs'',
              rest'_eq,
              ks'_eq,
              (inner, (not_empty, no_bracket, no_inner), group_eq),
              (tail, _, hs3, _, rest''_eq, ks''_eq, (tail_eq, no_hs3), (no_after, no_end, no_ks3)),
            ),
          ),
        ),
      ) =
    (
      t,
      simp (gs_eq, no_hs, ks_eq, no_hs', ks'_eq, group_eq, no_inner, ks''_eq, no_hs3, no_ks3),
      record {
        head = head;
        spelled = simp (
          cut, no_before, m_eq, no_start, rest_eq, rest'_eq, rest''_eq, tail_eq, no_end, no_after,
          append-nil,
        );
        same = same;
        not_empty = not_empty;
        no_bracket = no_bracket;
      },
    )

pub IsSpelled-address_cmd :
    (word s t : Text) → IsSpelled word s t → Finds (address_cmd word) s (some t ∷ [])
unfolding address_cmd Finds Matches
IsSpelled-address_cmd word s t h = (
  [],
  s,
  [],
  sym (append-nil s),
  (
    [],
    s,
    [],
    some t ∷ [],
    refl,
    refl,
    (refl, refl, refl),
    (
      h.head,
      t ++ codes ">\r\n",
      [],
      some t ∷ [],
      h.spelled,
      refl,
      (h.same, refl),
      (
        t,
        codes ">\r\n",
        some t ∷ [],
        [],
        refl,
        refl,
        ([], (h.not_empty, h.no_bracket, refl), refl),
        (codes ">\r\n", [], [], [], refl, refl, (refl, refl), (refl, refl, refl)),
      ),
    ),
  ),
)

head-length :
    (p q : Text) (a b : Text)
    → to_ascii_uppercase p ≡ to_ascii_uppercase q
    → p ++ a ≡ q ++ b
    → a ≡ b
unfolding to_ascii_uppercase
head-length [] [] a b same e = e
head-length [] (y ∷ q) a b same e = cc
head-length (x ∷ p) [] a b same e = cc
head-length (x ∷ p) (y ∷ q) a b same e = head-length p q a b (cc) (cc)

-- a message spells a single text
pub IsSpelled-unique : (word s t u : Text) → IsSpelled word s t → IsSpelled word s u → t ≡ u
IsSpelled-unique word s t u h k =
    append_cancel_right t u (codes ">\r\n")
      (head-length h.head k.head _ _ (h.same ∙ sym k.same) (sym h.spelled ∙ k.spelled))
