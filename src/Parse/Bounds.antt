-- ===== src/Parse/Bounds.antt =====
-- The number of parameters that Message::spliter of parse/Message.cpp finds.
use ft_irc.Base.{
  ℕ, zero, suc, ◌≤◌, ◌≡◌, ◌==◌, false, not, Bool, List, Option, none, some, [], ◌∷◌, inl, inr,
  if_both, Option-cases, Text, find, length, is_empty, arith, subst,
}
use ft_irc.Utf8.{cut_line}
use ft_irc.Parse.Message.{
  Message, skip_spaces, split_space, parameters, split_command, split_prefix, without_cr, spliter,
}

length-parameters : (k : ℕ) (s : Text) → length (parameters k s) ≤ suc k
unfolding parameters
length-parameters k [] = omega arith
length-parameters zero (c ∷ s) = ground arith
length-parameters (suc k) (c ∷ s) =
    if_both (λ (ps : List Text). length ps ≤ suc (suc k)) (c == b':') _ _ (λ e. omega arith)
      (λ e. elim (Option-cases (split_space (c ∷ s))) [
        | inl f ↦ rw f (omega arith)
        | inr ((w, r), f) ↦ rw f (omega (arith, length-parameters k (skip_spaces r)))
      ])

abbrev HasFew : Option Message → Type 0
HasFew none = Unit
HasFew (some msg) = length msg.parameter ≤ 15

split_command-HasFew : (prefix : Text) (b : Bool) (s : Text) → HasFew (split_command prefix b s)
unfolding split_command
split_command-HasFew prefix b s = elim (Option-cases (split_space s)) [
  | inl f ↦ rw (f, split_command) (omega arith)
  | inr ((w, r), f) ↦ rw (f, split_command) (length-parameters 14 (skip_spaces r))
]

after_prefix-HasFew :
    (w t : Text)
    → HasFew (elim t [ [] ↦ none | d ∷ u ↦ split_command w (not (is_empty w)) (d ∷ u) ])
after_prefix-HasFew w [] = tt
after_prefix-HasFew w (d ∷ u) = split_command-HasFew w _ (d ∷ u)

split_prefix-HasFew : (s : Text) → HasFew (split_prefix s)
unfolding split_prefix
split_prefix-HasFew [] = tt
split_prefix-HasFew (c ∷ s) =
    if_both HasFew (c == b':') _ _
      (λ e. elim (Option-cases (split_space s)) [
        | inl f ↦ rw f tt
        | inr ((w, r), f) ↦ rw f (after_prefix-HasFew w (skip_spaces r))
      ])
      (λ e. split_command-HasFew [] false (c ∷ s))

spliter-HasFew : (raw : Text) → HasFew (spliter raw)
unfolding spliter
spliter-HasFew raw =
    if_both HasFew (is_empty raw) _ _ (λ e. tt)
      (λ e. elim (Option-cases (find 0 (cut_line raw))) [
        | inr (pos, f) ↦ rw f tt
        | inl f ↦ elim (Option-cases (without_cr (cut_line raw))) [
          | inl g ↦ rw (f, g) tt
          | inr (seared, g) ↦ rw (f, g) (split_prefix-HasFew (skip_spaces seared))
        ]
      ])

-- A message that is parsed has at most 15 parameters.
pub spliter-parameters :
    (raw : Text) (msg : Message) → spliter raw ≡ some msg → length msg.parameter ≤ 15
spliter-parameters raw msg e = subst HasFew e (spliter-HasFew raw)
