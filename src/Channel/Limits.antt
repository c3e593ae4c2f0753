-- ===== src/Channel/Limits.antt =====
-- The limit that MODE +l takes: parseLimit of channel/Channel.cpp.
use ft_irc.Base.{
  ℕ, zero, suc, ◌≤◌, ◌<◌, ◌≡◌, ◌*◌, ◌||◌, not, true, Option, none, some, [], ◌∷◌, Text, refl, ltb,
  length, is_empty, if_both, arith, subst,
}
use ft_irc.Channel.{is_digit, all_digits, atoi_from, parse_limit}

-- `bound` times ten to the power of `digits`.
abbrev scale : ℕ → ℕ → ℕ
scale zero bound = bound
scale (suc digits) bound = scale digits (bound * 10)

scale_le : (k b c : ℕ) → b ≤ c → scale k b ≤ scale k c
scale_le zero b c e = e
scale_le (suc k) b c e = scale_le k (b * 10) (c * 10) (omega (arith, e))

atoi_from_lt :
    (k : ℕ) (s : Text) (n bound : ℕ)
    → length s ≤ k
    → all_digits s ≡ true
    → n < bound
    → atoi_from n s < scale k bound
unfolding atoi_from all_digits is_digit
atoi_from_lt zero [] n bound l e b = b
atoi_from_lt zero (c ∷ s) n bound l e b = absurd (omega (arith, l))
atoi_from_lt (suc k) [] n bound l e b =
    atoi_from_lt k [] n (bound * 10) (omega arith) refl (omega (arith, b))
atoi_from_lt (suc k) (c ∷ s) n bound l e b =
    atoi_from_lt k s _ (bound * 10) (omega (arith, l)) (ground (arith, e)) (ground (arith, e, b))

abbrev InRange : Option ℕ → Type 0
InRange none = Unit
InRange (some n) = (0 < n) × (n < 1000000000)

parse_limit-InRange : (str : Text) → InRange (parse_limit str)
unfolding parse_limit
parse_limit-InRange str =
    if_both InRange (is_empty str || ltb 9 (length str)) _ _ (λ e. tt)
      (λ e.
        if_both InRange (not (all_digits str)) _ _ (λ d. tt)
          (λ d.
            if_both InRange (ltb 0 (atoi_from 0 str)) _ _
              (λ p. (
                ground (arith, p),
                atoi_from_lt 9 str 0 1 (ground (arith, e)) (ground (arith, d)) (omega arith),
              ))
              (λ p. tt)))

-- A limit that is parsed is positive and below 10^9, which an `int` of 32 bits can hold.
pub parse_limit-bounds :
    (str : Text) (n : ℕ) → parse_limit str ≡ some n → (0 < n) × (n < 1000000000)
parse_limit-bounds str n e = subst InRange e (parse_limit-InRange str)

-- A limit that is taken is the number that its digits read as.
pub atoi_from-parse_limit : (raw : Text) (n : ℕ) → parse_limit raw ≡ some n → atoi_from 0 raw ≡ n
unfolding parse_limit
atoi_from-parse_limit raw n e = ground (arith, e)
