-- ===== src/Parse/Message.antt =====
-- parse/Message.hpp and parse/Message.cpp. A position in the line is the text from there on.
use ft_irc.Base.{
  ℕ, zero, suc, ◌-◌, Bool, false, not, Option, none, some, List, [], ◌∷◌, map, Text, find, ◌==◌,
  if◌then◌else◌, is_empty, length, take,
}
use ft_irc.Reply.{c_toupper}
use ft_irc.Utf8.{cut_line}

pub record Message : Type 0 where
  pub prefix : Text
  pub exist_prefix : Bool
  pub command : Text
  pub parameter : List Text

-- `while (pos < size && s[pos] == ' ') ++pos;`, and `find_first_not_of(' ')`
unfoldable pub skip_spaces : Text → Text
skip_spaces [] = []
skip_spaces (c ∷ s) = if c == b' ' then skip_spaces s else c ∷ s

-- `end = s.find(' ', pos)`: what stands before the space, and what stands from it on.
unfoldable pub split_space : Text → Option (Text × Text)
split_space [] = none
split_space (c ∷ s) =
    if c == b' '
    then some ([], c ∷ s)
    else elim (split_space s) [ none ↦ none | some (w, r) ↦ some (c ∷ w, r) ]

-- `setCommand`
unfoldable pub upper : Text → Text
upper = map c_toupper

-- The loop over the parameters. The number is that of the middle ones still allowed, 14 less
-- `paramCount`.
unfoldable pub parameters : ℕ → Text → List Text
parameters k [] = []
parameters zero (c ∷ s) = (if c == b':' then s else c ∷ s) ∷ []
parameters (suc k) (c ∷ s) = if c == b':' then s ∷ [] else elim (split_space (c ∷ s)) [
  | none ↦ (c ∷ s) ∷ []
  | some (w, r) ↦ w ∷ parameters k (skip_spaces r)
]

-- From "get command" on.
unfoldable pub split_command : Text → Bool → Text → Option Message
split_command prefix exist_prefix s = elim (split_space s) [
  | none ↦
      some
        (record { prefix = prefix; exist_prefix = exist_prefix; command = upper s; parameter = [] })
  | some (w, r) ↦ some (record {
    prefix = prefix;
    exist_prefix = exist_prefix;
    command = upper w;
    parameter = parameters 14 (skip_spaces r);
  })
]

-- "get prefix": the line from the first byte that is no space.
unfoldable pub split_prefix : Text → Option Message
split_prefix [] = none
split_prefix (c ∷ s) =
    if c == b':'
    then elim (split_space s) [
      | none ↦ none
      | some (w, r) ↦ elim (skip_spaces r) [
        | [] ↦ none
        | d ∷ t ↦ split_command w (not (is_empty w)) (d ∷ t)
      ]
    ]
    else split_command [] false (c ∷ s)

-- A line with its CR taken off, if that stands at the end; no line if it stands elsewhere.
unfoldable pub without_cr : Text → Option Text
without_cr searing = elim (find 13 searing) [
  | none ↦ some searing
  | some rpos ↦ if rpos == length searing - 1 then some (take rpos searing) else none
]

-- `none` where the source returns false.
unfoldable pub spliter : Text → Option Message
spliter raw =
    if is_empty raw
    then none
    else (let searing = cut_line raw in
        elim (find 0 searing) [
          | some pos ↦ none
          | none ↦ elim (without_cr searing) [
            | none ↦ none
            | some seared ↦ split_prefix (skip_spaces seared)
          ]
        ])
