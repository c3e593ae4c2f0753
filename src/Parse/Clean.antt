-- ===== src/Parse/Clean.antt =====
-- Which bytes cannot come through Client::popLine (Client.cpp) and Message::spliter
-- (parse/Message.cpp).
pub mod Lines
use ft_irc.Reply.{c_toupper}
use ft_irc.Parse.Message.{
  skip_spaces, split_space, Message, upper, parameters, split_command, split_prefix,
}
use ft_irc.Base.{
  ◌==◌, Option-cases, take, All, Text, find, ℕ, zero, suc, ◌≡◌, refl, ap, ◌∙◌, inl, inr, Option,
  none, some, [], ◌∷◌, arith, not, if_both, is_empty, ◌<◌, subst, Bool, false,
}

abbrev pub Lacks : ℕ → Text → Type 0
Lacks b s = find b s ≡ none

-- The command, the parameters and the prefix of a message have no such byte.
abbrev pub IsWithout : ℕ → Message → Type 0
IsWithout b msg = Lacks b msg.command × All (Lacks b) msg.parameter × Lacks b msg.prefix

abbrev pub AllWithout : ℕ → Option Message → Type 0
AllWithout b none = Unit
AllWithout b (some msg) = IsWithout b msg

pub Lacks-take : (b n : ℕ) (s : Text) → Lacks b s → Lacks b (take n s)
unfolding find
Lacks-take b zero s e = refl
Lacks-take b (suc n) [] e = refl
Lacks-take b (suc n) (x ∷ s) e = ground (arith, e, Lacks-take b n s)

-- What stands before the first such byte.
pub Lacks-take_found : (b pos : ℕ) (s : Text) → find b s ≡ some pos → Lacks b (take pos s)
unfolding find
Lacks-take_found b pos [] e = absurd (cc)
Lacks-take_found b zero (x ∷ s) e = refl
Lacks-take_found b (suc pos) (x ∷ s) e = elim (Option-cases (find b s)) [
  | inl f ↦ absurd (ground (arith, e, f))
  | inr (n, f) ↦
      let same : n ≡ pos = ground (arith, e, f) in
      ground (arith, e, f, Lacks-take_found b pos s (f ∙ ap some same))
]

pub Lacks-skip_spaces : (b : ℕ) (s : Text) → Lacks b s → Lacks b (skip_spaces s)
unfolding find skip_spaces
Lacks-skip_spaces b [] e = refl
Lacks-skip_spaces b (x ∷ s) e = ground (arith, e, Lacks-skip_spaces b s)

Lacks-tail : (b x : ℕ) (s : Text) → Lacks b (x ∷ s) → Lacks b s
unfolding find
Lacks-tail b x s e = ground (arith, e)

Lacks-cons : (b x : ℕ) (s t : Text) → Lacks b (x ∷ s) → Lacks b t → Lacks b (x ∷ t)
unfolding find
Lacks-cons b x s t e f = ground (arith, e, f)

abbrev Pieces : ℕ → Option (Text × Text) → Type 0
Pieces b none = Unit
Pieces b (some (w, r)) = Lacks b w × Lacks b r

Pieces-split_space : (b : ℕ) (s : Text) → Lacks b s → Pieces b (split_space s)
unfolding split_space find
Pieces-split_space b [] l = tt
Pieces-split_space b (x ∷ s) l =
    if_both (Pieces b) (x == b' ') _ _ (λ e. (refl, l))
      (λ e. elim (Option-cases (split_space s)) [
        | inl f ↦ rw f tt
        | inr ((v, t), f) ↦
            let both = subst (Pieces b) f (Pieces-split_space b s (Lacks-tail b x s l)) in
            rw f (Lacks-cons b x s v l both.0, both.1)
      ])

split_space-Lacks :
    (b : ℕ) (s w r : Text) → split_space s ≡ some (w, r) → Lacks b s → Lacks b w × Lacks b r
split_space-Lacks b s w r e l = subst (Pieces b) e (Pieces-split_space b s l)

Lacks-parameters : (b k : ℕ) (s : Text) → Lacks b s → All (Lacks b) (parameters k s)
unfolding parameters
Lacks-parameters b k [] l = tt
Lacks-parameters b zero (c ∷ s) l =
    (if_both (Lacks b) (c == b':') _ _ (λ e. Lacks-tail b c s l) (λ e. l), tt)
Lacks-parameters b (suc k) (c ∷ s) l =
    if_both (All (Lacks b)) (c == b':') _ _ (λ e. (Lacks-tail b c s l, tt))
      (λ e. elim (Option-cases (split_space (c ∷ s))) [
        | inl f ↦ rw f (l, tt)
        | inr ((w, r), f) ↦
            let both = split_space-Lacks b (c ∷ s) w r f l in
            rw f (both.0, Lacks-parameters b k (skip_spaces r) (Lacks-skip_spaces b r both.1))
      ])

-- A byte that is no letter is not made by `std::toupper`.
Lacks-upper : (b : ℕ) → b < b'A' → (s : Text) → Lacks b s → Lacks b (upper s)
unfolding upper find c_toupper
Lacks-upper b small [] l = refl
Lacks-upper b small (x ∷ s) l = ground (arith, l, small, Lacks-upper b small s)

module _ (b : ℕ) (small : b < b'A') where
  split_command-without :
      (prefix : Text) (p : Bool) (s : Text)
      → Lacks b prefix
      → Lacks b s
      → AllWithout b (split_command prefix p s)
  unfolding split_command
  split_command-without prefix p s lp l = elim (Option-cases (split_space s)) [
    | inl f ↦ rw (f, split_command) (Lacks-upper b small s l, tt, lp)
    | inr ((w, r), f) ↦
        let both = split_space-Lacks b s w r f l in
        rw (f, split_command)
          (
            Lacks-upper b small w both.0,
            Lacks-parameters b 14 (skip_spaces r) (Lacks-skip_spaces b r both.1),
            lp,
          )
  ]

  after_prefix-without :
      (w t : Text)
      → Lacks b w
      → Lacks b t
      → AllWithout b (elim t [ [] ↦ none | d ∷ u ↦ split_command w (not (is_empty w)) (d ∷ u) ])
  after_prefix-without w [] lw l = tt
  after_prefix-without w (d ∷ u) lw l = split_command-without w _ (d ∷ u) lw l

  pub split_prefix-without : (s : Text) → Lacks b s → AllWithout b (split_prefix s)
  unfolding split_prefix find
  split_prefix-without [] l = tt
  split_prefix-without (c ∷ s) l =
      if_both (AllWithout b) (c == b':') _ _
        (λ e. elim (Option-cases (split_space s)) [
          | inl f ↦ rw f tt
          | inr ((w, r), f) ↦
              let both = split_space-Lacks b s w r f (Lacks-tail b c s l) in
              rw f (after_prefix-without w (skip_spaces r) both.0 (Lacks-skip_spaces b r both.1))
        ])
        (λ e. split_command-without [] false (c ∷ s) refl l)
