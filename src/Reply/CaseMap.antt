-- ===== src/Reply/CaseMap.antt =====
-- The case mapping of common/IrcHelpers.cpp.
use ft_irc.Base.{ℕ, ◌≡◌, refl, ap₂, [], ◌∷◌, arith, Text, length}
use ft_irc.Reply.{lower_char, to_lower}

pub lower_char_idem : (c : ℕ) → lower_char (lower_char c) ≡ lower_char c
unfolding lower_char
lower_char_idem c = ground arith

-- Mapping a text to lower case twice is mapping it once.
pub to_lower_idem : (s : Text) → to_lower (to_lower s) ≡ to_lower s
unfolding to_lower
to_lower_idem [] = refl
to_lower_idem (c ∷ s) = ap₂ ◌∷◌ (lower_char_idem c) (to_lower_idem s)

pub length-to_lower : (s : Text) → length (to_lower s) ≡ length s
unfolding to_lower
length-to_lower [] = refl
length-to_lower (c ∷ s) = omega (arith, length-to_lower s)
