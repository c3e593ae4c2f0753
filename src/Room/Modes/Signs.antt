-- ===== src/Room/Modes/Signs.antt =====
-- The letters of a MODE line behind their signs, and the parameters behind those: `appendApplied`
-- of channel/Channel.cpp, read by a client.
use ft_irc.Channel.{append_applied}
use ft_irc.Room.{Settings}
use ft_irc.Room.Modes.{read_letter, read_modes, spaced, Reading}
use ft_irc.Base.{
  ◌==◌, if◌then◌else◌, not, if_both, Text, codes, ℕ, ◌≡◌, refl, sym, ap, subst, ◌∙◌, Bool, true,
  false, List, [], ◌∷◌, ◌++◌, append_assoc, arith,
}

read_modes-append :
    (xs ys : Text) (r : Reading) → read_modes (xs ++ ys) r ≡ read_modes ys (read_modes xs r)
unfolding read_modes
read_modes-append [] ys r = refl
read_modes-append (x ∷ xs) ys r = read_modes-append xs ys (read_letter x r)

pub spaced-append : (xs ys : List Text) → spaced (xs ++ ys) ≡ spaced xs ++ spaced ys
spaced-append [] ys = refl
spaced-append (a ∷ xs) ys =
    rw (spaced-append xs ys) (sym (append_assoc (codes " " ++ a) (spaced xs) (spaced ys)))

abbrev pub reading_of : Bool → List Text → Settings → Reading
reading_of adding rest s = record { adding = adding; rest = rest; settings = s }

-- A letter that is appended behind its sign is read with that sign.
pub reads-append_applied :
    (applied : Text) (last_sign : ℕ) (enable : Bool) (flag : ℕ) (r : Reading)
    (rest rest' : List Text) (s s' : Settings)
    → read_modes applied r ≡ reading_of (not (last_sign == b'-')) rest s
    → read_letter flag (reading_of enable rest s) ≡ reading_of enable rest' s'
    → let t : Text × ℕ = append_applied applied last_sign enable flag in
      read_modes t.0 r ≡ reading_of (not (t.1 == b'-')) rest' s'
unfolding append_applied read_modes
reads-append_applied applied last_sign enable flag r rest rest' s s' before one =
    if_both (λ (t : Text × ℕ). read_modes t.0 r ≡ reading_of (not (t.1 == b'-')) rest' s')
      (not ((if enable then b'+' else b'-') == last_sign)) _ _
      (λ n.
        read_modes-append applied ((if enable then b'+' else b'-') ∷ flag ∷ []) r
        ∙ ap (λ q. read_letter flag (read_letter (if enable then b'+' else b'-') q)) before
        ∙ signed enable one)
      (λ n.
        read_modes-append applied (flag ∷ []) r
        ∙ ap (λ q. read_letter flag q) before
        ∙ same_sign enable n one)
  where
    signed :
        (b : Bool)
        → read_letter flag (reading_of b rest s) ≡ reading_of b rest' s'
        → read_letter flag
            (read_letter (if b then b'+' else b'-') (reading_of (not (last_sign == b'-')) rest s))
          ≡ reading_of (not ((if b then b'+' else b'-') == b'-')) rest' s'
    signed true e = e
    signed false e = e

    same_sign :
        (b : Bool)
        → not ((if b then b'+' else b'-') == last_sign) ≡ false
        → read_letter flag (reading_of b rest s) ≡ reading_of b rest' s'
        → read_letter flag (reading_of (not (last_sign == b'-')) rest s)
          ≡ reading_of (not (last_sign == b'-')) rest' s'
    same_sign b n e =
        let sign : not (last_sign == b'-') ≡ b = ground (arith, n) in
        subst (λ a. read_letter flag (reading_of a rest s) ≡ reading_of a rest' s') (sym sign) e
