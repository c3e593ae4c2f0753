-- ===== src/Channel/Decimal.antt =====
-- `std::atoi` of channel/Channel.cpp on what `std::ostringstream` writes.
use ft_irc.Channel.{atoi_from}
use ft_irc.Base.{
  ltb, Bool-cases, Text, find, digits_fuel, decimal, ℕ, zero, suc, ◌+◌, ◌/◌, ◌%◌, ◌<◌, ◌≡◌, refl,
  ap, ◌∙◌, inl, inr, none, [], ◌∷◌, arith,
}

atoi_from-digits_fuel :
    (f n : ℕ) (acc : Text) → n < f → atoi_from 0 (digits_fuel f n acc) ≡ atoi_from n acc
unfolding digits_fuel atoi_from
atoi_from-digits_fuel zero n acc e = absurd (omega (arith, e))
atoi_from-digits_fuel (suc f) n acc e = elim (Bool-cases (ltb n 10)) [
  | inl small ↦ rw small (ground arith)
  | inr large ↦ rw large (
      atoi_from-digits_fuel f (n / 10) ((b'0' + n % 10) ∷ acc) (ground (arith, e, large))
      ∙ ap (λ m. atoi_from m acc) (omega arith))
]

pub atoi_from-decimal : (n : ℕ) → atoi_from 0 (decimal n) ≡ n
unfolding decimal atoi_from find
atoi_from-decimal n = atoi_from-digits_fuel (suc n) n [] (omega arith)

no_space-digits_fuel :
    (f n : ℕ) (acc : Text) → find b' ' acc ≡ none → find b' ' (digits_fuel f n acc) ≡ none
unfolding digits_fuel find
no_space-digits_fuel zero n acc e = e
no_space-digits_fuel (suc f) n acc e =
    let more = no_space-digits_fuel f (n / 10) ((b'0' + n % 10) ∷ acc) in ground (arith, e, more)

pub no_space-decimal : (n : ℕ) → find b' ' (decimal n) ≡ none
unfolding decimal atoi_from find
no_space-decimal n = no_space-digits_fuel (suc n) n [] refl
