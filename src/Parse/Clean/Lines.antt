-- ===== src/Parse/Clean/Lines.antt =====
-- Which bytes cannot come through Client::popLine (Client.cpp) and Message::spliter
-- (parse/Message.cpp), from the read buffer to the message.
use ft_irc.Utf8.{cut_line}
use ft_irc.Parse.Clean.{
  Lacks, IsWithout, AllWithout, Lacks-take, Lacks-take_found, Lacks-skip_spaces,
  split_prefix-without,
}
use ft_irc.Parse.Message.{skip_spaces, without_cr, spliter, Message}
use ft_irc.Client.{chomp, pop_line, Client}
use ft_irc.Base.{
  leb, ◌==◌, Option-cases, if_both, length, is_empty, get_elem?, Text, find, ℕ, ◌-◌, ◌<◌, ◌≡◌,
  subst, inl, inr, Option, none, some, arith,
}

Lacks-cut_line : (b : ℕ) (s : Text) → Lacks b s → Lacks b (cut_line s)
unfolding cut_line
Lacks-cut_line b s l = if_both (Lacks b) (leb (length s) 510) _ _ (λ e. l) (λ e. Lacks-take b _ s l)

-- A line without a byte, once its CR is off.
abbrev LineWithout : ℕ → Option Text → Type 0
LineWithout b none = Unit
LineWithout b (some s) = Lacks b s

without_cr-Lacks : (b : ℕ) (s : Text) → Lacks b s → LineWithout b (without_cr s)
unfolding without_cr
without_cr-Lacks b s l = elim (Option-cases (find 13 s)) [
  | inl f ↦ rw (f, without_cr) l
  | inr (pos, f) ↦
      rw (f, without_cr)
        (if_both (LineWithout b) (pos == length s - 1) _ _ (λ e. Lacks-take b pos s l) (λ e. tt))
]

without_cr-no_cr : (s : Text) → LineWithout 13 (without_cr s)
unfolding without_cr
without_cr-no_cr s = elim (Option-cases (find 13 s)) [
  | inl f ↦ rw (f, without_cr) f
  | inr (pos, f) ↦
      rw (f, without_cr)
        (if_both (LineWithout 13) (pos == length s - 1) _ _ (λ e. Lacks-take_found 13 pos s f)
          (λ e. tt))
]

-- What the whole of `spliter` keeps out.
spliter-without :
    (b : ℕ) (raw : Text)
    → b < b'A'
    → (find 0 (cut_line raw) ≡ none → LineWithout b (without_cr (cut_line raw)))
    → AllWithout b (spliter raw)
unfolding spliter
spliter-without b raw small lines =
    if_both (AllWithout b) (is_empty raw) _ _ (λ e. tt)
      (λ e. elim (Option-cases (find 0 (cut_line raw))) [
        | inr (pos, f) ↦ rw f tt
        | inl f ↦ elim (Option-cases (without_cr (cut_line raw))) [
          | inl g ↦ rw (f, g) tt
          | inr (seared, g) ↦
              rw (f, g)
                (split_prefix-without b small (skip_spaces seared)
                  (Lacks-skip_spaces b seared (subst (LineWithout b) g (lines f))))
        ]
      ])

Lacks-chomp : (b : ℕ) (s : Text) → Lacks b s → Lacks b (chomp s)
unfolding chomp
Lacks-chomp b s l = elim (Option-cases (get_elem? s (length s - 1))) [
  | inl f ↦ rw (f, chomp) l
  | inr (last, f) ↦
      rw (f, chomp) (if_both (Lacks b) (last == 13) _ _ (λ e. Lacks-take b _ s l) (λ e. l))
]

no_lf-pop_line : (c : Client) → Lacks b'\n' (pop_line c).0
unfolding pop_line
no_lf-pop_line c = elim (Option-cases (find b'\n' c.read_buffer)) [
  | inl f ↦ rw (f, pop_line) (Lacks-chomp b'\n' _ f)
  | inr (pos, f) ↦
      rw (f, pop_line) (Lacks-chomp b'\n' _ (Lacks-take_found b'\n' pos c.read_buffer f))
]

-- Whatever is in a client's read buffer, the command, the parameters and the prefix of a message
-- that is parsed from the line that popLine takes have no NUL, no LF and no CR.
pub spliter-clean :
    (c : Client) (msg : Message)
    → spliter (pop_line c).0 ≡ some msg
    → IsWithout 0 msg × IsWithout b'\n' msg × IsWithout 13 msg
spliter-clean c msg e =
    let line : Text = (pop_line c).0 in
    (
      subst (AllWithout 0) e
          (spliter-without 0 line (omega arith) (λ f. without_cr-Lacks 0 (cut_line line) f)),
      subst (AllWithout b'\n') e (
          spliter-without b'\n' line (omega arith) (λ f.
            without_cr-Lacks b'\n' (cut_line line) (Lacks-cut_line b'\n' line (no_lf-pop_line c)))),
      subst (AllWithout 13) e
          (spliter-without 13 line (omega arith) (λ f. without_cr-no_cr (cut_line line))),
    )
