-- ===== src/Reply/Source.antt =====
-- The source of a line, `:nick!user@host`, as a client reads it off what makeCommand of
-- common/Reply.cpp makes.
use ft_irc.Reply.{make_command}
use ft_irc.Base.{
  ◌==◌, if◌then◌else◌, Text, codes, find, ℕ, ◌≡◌, Option, none, some, [], ◌∷◌, ◌++◌, arith, if_both,
  is_empty, append_assoc,
}

-- A text up to a byte, and what is behind that byte.
unfoldable pub split_at : ℕ → Text → Option (Text × Text)
split_at c [] = none
split_at c (x ∷ xs) =
    if x == c
    then some ([], xs)
    else elim (split_at c xs) [ none ↦ none | some (before, behind) ↦ some (x ∷ before, behind) ]

-- Behind the colon, the nickname up to the first exclamation mark and the user name up to the
-- first at sign from there.
unfoldable pub read_source : Text → Option (Text × Text)
read_source [] = none
read_source (colon ∷ line) = elim (split_at b'!' line) [
  | none ↦ none
  | some (nickname, more) ↦ elim (split_at b'@' more) [
    | none ↦ none
    | some (username, rest) ↦ some (nickname, username)
  ]
]

split_at-found :
    (c : ℕ) (before behind : Text)
    → find c before ≡ none
    → split_at c (before ++ c ∷ behind) ≡ some (before, behind)
unfolding split_at find
split_at-found c [] behind e = ground arith
split_at-found c (x ∷ before) behind e = ground (arith, e, split_at-found c before behind)

read_source-split :
    (nickname username tail : Text)
    → find b'!' nickname ≡ none
    → find b'@' username ≡ none
    → read_source (b':' ∷ (nickname ++ b'!' ∷ (username ++ b'@' ∷ tail)))
      ≡ some (nickname, username)
unfolding read_source
read_source-split nickname username tail n u = ground (
  arith,
  split_at-found b'!' nickname (username ++ b'@' ∷ tail) n,
  split_at-found b'@' username tail u,
)

pub read_source-make_command :
    (nickname username ip cmd rest : Text)
    → find b'!' nickname ≡ none
    → find b'@' username ≡ none
    → read_source (make_command nickname username ip cmd rest) ≡ some (nickname, username)
unfolding make_command read_source codes
read_source-make_command nickname username ip cmd rest n u =
    if_both (λ line. read_source line ≡ some (nickname, username)) (is_empty rest) _ _
      (λ e. simp append_assoc (read_source-split nickname username _ n u))
      (λ e. simp append_assoc (read_source-split nickname username _ n u))
