-- ===== src/Client/Lines.antt =====
-- Client.cpp: complete lines in the read buffer.
use ft_irc.Base.{
  ℕ, ◌<◌, ◌≡◌, suc, true, some, inl, inr, [], ◌∷◌, Option-cases, Bool-cases, Text, length, find,
  length-drop, arith, ◌==◌, refl,
}
use ft_irc.Client.{Client, has_complete_line, pop_line}

find_bound : (c : ℕ) (xs : Text) (i : ℕ) → find c xs ≡ some i → i < length xs
unfolding find
find_bound c [] i e = absurd (cc)
find_bound c (x ∷ xs) i e = elim (Bool-cases (x == c)) [
  | inl hit ↦ ground (arith, e)
  | inr miss ↦ elim (Option-cases (find c xs)) [
    | inl f ↦ absurd (ground (arith, e))
    | inr (j, f) ↦ ground (arith, find_bound c xs j f, e)
  ]
]

-- Taking a complete line off shortens the buffer.
pub length-pop_line :
    (c : Client)
    → has_complete_line c ≡ true
    → length (pop_line c).1.read_buffer < length c.read_buffer
unfolding has_complete_line pop_line
length-pop_line c e = elim (Option-cases (find b'\n' c.read_buffer)) [
  | inl f ↦ absurd (ground (arith, e))
  | inr (pos, f) ↦
      rw (f, pop_line)
        (ground (arith, length-drop (suc pos) c.read_buffer, find_bound b'\n' c.read_buffer pos f))
]

pub pop_line-links :
    (c : Client)
    → ((pop_line c).1.joined_channels ≡ c.joined_channels)
      × ((pop_line c).1.invited_channels ≡ c.invited_channels)
      × ((pop_line c).1.fd ≡ c.fd)
unfolding pop_line
pop_line-links c = elim (Option-cases (find b'\n' c.read_buffer)) [
  | inl f ↦ rw (f, pop_line) (refl, refl, refl)
  | inr (pos, f) ↦ rw (f, pop_line) (refl, refl, refl)
]
