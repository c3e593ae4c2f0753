-- ===== src/Parse/RoundTrip.antt =====
-- Lines as a client prints them, and Message::spliter of parse/Message.cpp.
use ft_irc.Base.{
  ℕ, zero, suc, ◌≤◌, ◌≡◌, ◌==◌, refl, ◌∙◌, true, false, not, ◌&&◌, none, some, List, [], ◌∷◌, ◌++◌,
  Bool, Text, length, is_empty, find, arith,
}
use ft_irc.Utf8.{cut_line}
use ft_irc.Parse.Message.{
  skip_spaces, split_space, parameters, split_command, split_prefix, without_cr, spliter, upper,
}

-- No space in it.
abbrev pub is_word : Text → Bool
is_word [] = true
is_word (c ∷ s) = not (c == b' ') && is_word s

-- A parameter that stands between others.
abbrev pub is_middle : Text → Bool
is_middle [] = false
is_middle (c ∷ s) = not (c == b':') && is_word (c ∷ s)

abbrev pub all_middle : List Text → Bool
all_middle [] = true
all_middle (w ∷ ws) = is_middle w && all_middle ws

-- The parameters in a line: the middle ones, each before a space, and the last after a colon.
abbrev pub print_parameters : List Text → Text → Text
print_parameters [] trailing = b':' ∷ trailing
print_parameters (w ∷ ws) trailing = w ++ b' ' ∷ print_parameters ws trailing

split_space-word :
    (w r : Text) → is_word w ≡ true → split_space (w ++ b' ' ∷ r) ≡ some (w, b' ' ∷ r)
unfolding split_space
split_space-word [] r e = refl
split_space-word (c ∷ w) r e = ground (arith, e, split_space-word w r)

skip_spaces-print :
    (ws : List Text) (trailing : Text)
    → all_middle ws ≡ true
    → skip_spaces (b' ' ∷ print_parameters ws trailing) ≡ print_parameters ws trailing
unfolding skip_spaces
skip_spaces-print [] trailing e = refl
skip_spaces-print ([] ∷ ws) trailing e = absurd (ground (arith, e))
skip_spaces-print ((c ∷ w) ∷ ws) trailing e = ground (arith, e)

-- Up to 14 middle parameters and a last one, whatever that holds, are found again.
pub parameters-print :
    (k : ℕ) (ws : List Text) (trailing : Text)
    → all_middle ws ≡ true
    → length ws ≤ k
    → parameters k (print_parameters ws trailing) ≡ ws ++ trailing ∷ []
unfolding parameters
parameters-print zero [] trailing e b = refl
parameters-print (suc k) [] trailing e b = refl
parameters-print k ([] ∷ ws) trailing e b = absurd (ground (arith, e))
parameters-print zero ((c ∷ w) ∷ ws) trailing e b = absurd (omega (arith, b))
parameters-print (suc k) ((c ∷ w) ∷ ws) trailing e b = ground (
  arith,
  e,
  split_space-word (c ∷ w) (print_parameters ws trailing),
  skip_spaces-print ws trailing,
  parameters-print k ws trailing,
)

-- A line without prefix.
abbrev pub print_message : Text → List Text → Text → Text
print_message command ws trailing = command ++ b' ' ∷ print_parameters ws trailing

split_command-print :
    (command : Text) (ws : List Text) (trailing : Text)
    → is_word command ≡ true
    → all_middle ws ≡ true
    → length ws ≤ 14
    → split_command [] false (print_message command ws trailing)
      ≡ some (record {
        prefix = [];
        exist_prefix = false;
        command = upper command;
        parameter = ws ++ trailing ∷ [];
      })
unfolding split_command
split_command-print command ws trailing c e b =
    rw
      (
        split_command,
        split_space-word command (print_parameters ws trailing) c,
        skip_spaces-print ws trailing e,
        parameters-print 14 ws trailing e b,
      )
      refl

cut_line-short : (s : Text) → length s ≤ 510 → cut_line s ≡ s
unfolding cut_line
cut_line-short s b = ground (arith, b)

without_cr-none : (s : Text) → find 13 s ≡ none → without_cr s ≡ some s
unfolding without_cr
without_cr-none s e = rw (e, without_cr) refl

split_prefix-middle :
    (command : Text) (r : Text)
    → is_middle command ≡ true
    → split_prefix (skip_spaces (command ++ r)) ≡ split_command [] false (command ++ r)
unfolding split_prefix skip_spaces
split_prefix-middle [] r c = absurd (ground (arith, c))
split_prefix-middle (d ∷ command) r c = ground (arith, c)

is_empty-middle :
    (command : Text) (r : Text) → is_middle command ≡ true → is_empty (command ++ r) ≡ false
is_empty-middle [] r c = absurd (ground (arith, c))
is_empty-middle (d ∷ command) r c = refl

is_word-middle : (w : Text) → is_middle w ≡ true → is_word w ≡ true
is_word-middle [] c = refl
is_word-middle (d ∷ w) c = ground (arith, c)

-- A line that needs no cut and holds neither NUL nor CR.
spliter-clean :
    (raw : Text)
    → is_empty raw ≡ false
    → length raw ≤ 510
    → find 0 raw ≡ none
    → find 13 raw ≡ none
    → spliter raw ≡ split_prefix (skip_spaces raw)
unfolding spliter
spliter-clean raw e l n r =
    rw (e, cut_line-short raw l, n, cut_line-short raw l, without_cr-none raw r) refl

-- A line of at most 510 bytes without NUL and CR that is a command, at most 14 middle parameters
-- and a last one after a colon is parsed to that command in capitals with those parameters.
pub spliter-print :
    (command : Text) (ws : List Text) (trailing : Text)
    → is_middle command ≡ true
    → all_middle ws ≡ true
    → length ws ≤ 14
    → length (print_message command ws trailing) ≤ 510
    → find 0 (print_message command ws trailing) ≡ none
    → find 13 (print_message command ws trailing) ≡ none
    → spliter (print_message command ws trailing)
      ≡ some (record {
        prefix = [];
        exist_prefix = false;
        command = upper command;
        parameter = ws ++ trailing ∷ [];
      })
spliter-print command ws trailing c e b l n r =
    spliter-clean _ (is_empty-middle command (b' ' ∷ print_parameters ws trailing) c) l n r
    ∙ split_prefix-middle command (b' ' ∷ print_parameters ws trailing) c
    ∙ split_command-print command ws trailing (is_word-middle command c) e b
