-- ===== src/Maildir/Names.antt =====
-- When two mails are given the same file name.
use whalemail.Prelude.{
  Option, some, ℕ, zero, suc, ◌+◌, ◌-◌, ◌*◌, ◌/◌, ◌%◌, ◌<◌, ◌&&◌, ◌≡◌, refl, sym, ap, ◌∙◌, ◌↔◌, [],
  ◌∷◌, ◌++◌, length, ltb, leb, if◌then◌else◌, arith, append-nil, inl, inr, Bool-cases,
}
use whalemail.Text.{Text, codes}
use whalemail.Maildir.{Storage, digits, decimal, maildir_file_name}

-- the number at the start of a text, and what is behind it
unfoldable read : ℕ → Text → ℕ × Text
read n [] = (n, [])
read n (c ∷ s) =
    let more = read (n * 10 + (c - 48)) s in if leb 48 c && leb c 57 then more else (n, c ∷ s)

read-digit : (n d : ℕ) (s : Text) → d < 10 → read n ((48 + d) ∷ s) ≡ read (n * 10 + d) s
unfolding read
read-digit n d s h = ground arith

read-digits : (fuel n : ℕ) (s : Text) → n < fuel → read 0 (digits fuel n s) ≡ read n s
unfolding digits
read-digits zero n s h = absurd (omega arith)
read-digits (suc fuel) n s h = elim (Bool-cases (ltb n 10)) [
  | inl y ↦ rw y (read-digit 0 n s (ground arith) ∙ ap (λ m. read m s) (omega arith))
  | inr o ↦ rw o (
      read-digits fuel (n / 10) ((48 + n % 10) ∷ s) (ground arith)
      ∙ (read-digit (n / 10) (n % 10) s (omega arith) ∙ ap (λ m. read m s) (omega arith)))
]

digits-append : (fuel n : ℕ) (s t : Text) → digits fuel n s ++ t ≡ digits fuel n (s ++ t)
unfolding digits
digits-append zero n s t = refl
digits-append (suc fuel) n s t = ground (arith, digits-append fuel (n / 10) ((48 + n % 10) ∷ s) t)

read-decimal : (n : ℕ) (t : Text) → read 0 (decimal n ++ t) ≡ read n t
unfolding decimal
read-decimal n t =
    ap (read 0) (digits-append (suc n) n [] t) ∙ read-digits (suc n) n t (omega arith)

cancel : (xs : Text) {ys zs : Text} → xs ++ ys ≡ xs ++ zs → ys ≡ zs
cancel [] e = e
cancel (x ∷ xs) e = cancel xs (cc e)

-- the milliseconds since the storage was made
abbrev pub millis : Storage → ℕ
millis s = (s.disk.instant (length s.disk.calls) - s.base_instant) / 1000000

abbrev name : ℕ → Text → ℕ → Text
name a host b = decimal a ++ (codes "." ++ (host ++ (codes ".M" ++ decimal b)))

decimal-eq : (b d : ℕ) → decimal b ≡ decimal d → b ≡ d
unfolding read
decimal-eq b d e = ap (λ r. r.0) (sym (number b) ∙ (ap (read 0) e ∙ number d))
  where
    number : (n : ℕ) → read 0 (decimal n) ≡ (n, [])
    number n = ap (read 0) (sym (append-nil (decimal n))) ∙ read-decimal n []

name-eq : (a b c d : ℕ) (host : Text) → name a host b ≡ name c host d → (a ≡ c) × (b ≡ d)
unfolding read
name-eq a b c d host e = (
  ap (λ r. r.0) parts,
  decimal-eq b d (cancel (codes ".M") (cancel host (cancel (codes ".") (ap (λ r. r.1) parts)))),
)
  where
    parts :
        read a (codes "." ++ (host ++ (codes ".M" ++ decimal b)))
        ≡ read c (codes "." ++ (host ++ (codes ".M" ++ decimal d)))
    parts = sym (read-decimal a _) ∙ (ap (read 0) e ∙ read-decimal c _)

-- If the system clock shows no time before 1970, two storages of the same host name give a mail the same
-- file name if and only if that time is the same in seconds and so is the time in milliseconds since
-- each storage was made.
pub maildir_file_name_iff :
    (path_push : Text → Text → Text) (unix_time : ℕ → Option ℕ) (s t : Storage) (a b : ℕ)
    → s.hostname ≡ t.hostname
    → unix_time (length s.disk.calls) ≡ some a
    → unix_time (length t.disk.calls) ≡ some b
    → (maildir_file_name path_push unix_time s ≡ maildir_file_name path_push unix_time t)
      ↔ ((a ≡ b) × (millis s ≡ millis t))
unfolding maildir_file_name
maildir_file_name_iff path_push unix_time s t a b h now_s now_t =
    rw (now_s, now_t)
      (
        λ e.
            name-eq a (millis s) b (millis t) s.hostname
              (cc e ∙ ap (λ x. name b x (millis t)) (sym h)),
        λ p. ap some (same p.0 p.1),
      )
  where
    same : a ≡ b → millis s ≡ millis t → name a s.hostname (millis s) ≡ name b t.hostname (millis t)
    same p q =
        ap (λ x. name x s.hostname (millis s)) p
        ∙ (ap (λ x. name b x (millis s)) h ∙ ap (λ x. name b t.hostname x) q)
