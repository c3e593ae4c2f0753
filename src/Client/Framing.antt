-- ===== src/Client/Framing.antt =====
-- Client.cpp: popLine on a line that ends in CR and LF.
use ft_irc.Base.{
  ℕ, suc, ◌-◌, ◌≡◌, ◌∙◌, refl, none, some, [], ◌∷◌, ◌++◌, inl, inr, false, Bool-cases, Option-cases,
  Text, length, find, take, drop, length-append, get_elem?, arith, ◌==◌, ap,
}
use ft_irc.Client.{Client, chomp, pop_line}

find-append : (c : ℕ) (w r : Text) → find c w ≡ none → find c (w ++ c ∷ r) ≡ some (length w)
unfolding find
find-append c [] r e = ground arith
find-append c (x ∷ w) r e = elim (Bool-cases (x == c)) [
  | inl hit ↦ absurd (ground (arith, e))
  | inr miss ↦ elim (Option-cases (find c w)) [
    | inl f ↦ ground (arith, miss, find-append c w r f)
    | inr (i, f) ↦ absurd (ground (arith, e, f, miss))
  ]
]

find-push : (c d : ℕ) (w : Text) → find c w ≡ none → (d == c) ≡ false → find c (w ++ d ∷ []) ≡ none
unfolding find
find-push c d [] e n = ground (arith, n)
find-push c d (x ∷ w) e n = elim (Bool-cases (x == c)) [
  | inl hit ↦ absurd (ground (arith, e))
  | inr miss ↦ elim (Option-cases (find c w)) [
    | inl f ↦ ground (arith, miss, find-push c d w f n)
    | inr (i, f) ↦ absurd (ground (arith, e, f, miss))
  ]
]

take-length : (w r : Text) → take (length w) (w ++ r) ≡ w
take-length [] r = ground arith
take-length (x ∷ w) r = ap (λ t. x ∷ t) (take-length w r)

drop-length : (c : ℕ) (w r : Text) → drop (suc (length w)) (w ++ c ∷ r) ≡ r
drop-length c [] r = ground arith
drop-length c (x ∷ w) r = drop-length c w r

get_elem?-last : (c : ℕ) (w : Text) → get_elem? (w ++ c ∷ []) (length w) ≡ some c
get_elem?-last c [] = ground arith
get_elem?-last c (x ∷ w) = get_elem?-last c w

append_assoc : (w : Text) (c : ℕ) (r : Text) → w ++ c ∷ r ≡ (w ++ c ∷ []) ++ r
append_assoc [] c r = refl
append_assoc (x ∷ w) c r = ap (λ t. x ∷ t) (append_assoc w c r)

length-push : (c : ℕ) (w : Text) → length (w ++ c ∷ []) - 1 ≡ length w
length-push c w = ground (arith, length-append w (c ∷ []))

chomp-push : (w : Text) → chomp (w ++ 13 ∷ []) ≡ w
unfolding chomp
chomp-push w =
    rw (chomp, length-push 13 w, get_elem?-last 13 w, length-push 13 w) (take-length w (13 ∷ []))

-- If a read buffer is a line without LF, then CR LF and a rest, popLine gives that line and
-- leaves that rest in the buffer.
pub pop_line-framed :
    (c : Client) (w rest : Text)
    → find b'\n' w ≡ none
    → c.read_buffer ≡ w ++ 13 ∷ b'\n' ∷ rest
    → ((pop_line c).0 ≡ w) × ((pop_line c).1 ≡ record c { read_buffer = rest })
unfolding pop_line
pop_line-framed c w rest n e =
    let framed : c.read_buffer ≡ (w ++ 13 ∷ []) ++ b'\n' ∷ rest =
      e ∙ append_assoc w 13 (b'\n' ∷ rest) in
    rw
      (
        pop_line,
        framed,
        find-append b'\n' (w ++ 13 ∷ []) rest (find-push b'\n' 13 w n refl),
        framed,
        take-length (w ++ 13 ∷ []) (b'\n' ∷ rest),
        chomp-push w,
        drop-length b'\n' (w ++ 13 ∷ []) rest,
      )
      (refl, refl)
