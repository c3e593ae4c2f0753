-- ===== src/Reply.antt =====
-- common/IrcHelpers.cpp and common/Reply.cpp: case mapping and the lines that the server writes.
pub mod Source
pub mod CaseMap
pub mod Numeric
pub mod IrcNumeric
use ft_irc.Base.{
  ℕ, ◌+◌, ◌-◌, ◌≡◌, refl, ◌&&◌, [], ◌++◌, map, Text, codes, decimal, ◌==◌, ltb, leb, if◌then◌else◌,
  is_empty,
}

-- `std::tolower` and `std::toupper` of <cctype> in the "C" locale, which the program never leaves.
unfoldable pub c_tolower : ℕ → ℕ
c_tolower c = if leb b'A' c && leb c b'Z' then c + 32 else c

unfoldable pub c_toupper : ℕ → ℕ
c_toupper c = if leb b'a' c && leb c b'z' then c - 32 else c

unfoldable pub lower_char : ℕ → ℕ
unfolding c_tolower
lower_char c =
    if c == b'['
    then b'{'
    else if c == b']'
    then b'}'
    else if c == 92
    then b'|'
    else if c == b'~'
    then b'^'
    else c_tolower c

unfoldable pub to_lower : Text → Text
to_lower = map lower_char

unfoldable pub format_reply : Text → Text → Text → Text
format_reply code target trailing =
    codes ":ircserv " ++ code ++ codes " " ++ target ++ codes " :" ++ trailing

unfoldable pub format_reply_with_parameter : Text → Text → Text → Text → Text
format_reply_with_parameter code target parameter trailing =
    codes ":ircserv "
    ++ code
    ++ codes " "
    ++ target
    ++ codes " "
    ++ parameter
    ++ codes " :"
    ++ trailing

unfoldable pub make_reply : ℕ → Text → Text → Text
make_reply code nick rest =
    let zeros : Text =
      (if ltb code 100 then codes "0" else []) ++ (if ltb code 10 then codes "0" else []) in
    codes ":"
    ++ codes "ircserv"
    ++ codes " "
    ++ zeros
    ++ decimal code
    ++ codes " "
    ++ nick
    ++ codes " "
    ++ rest

-- `makeCommand`, with the three fields that it reads from the client.
unfoldable pub make_command : Text → Text → Text → Text → Text → Text
make_command nickname username ip cmd rest =
    let prefix = nickname ++ codes "!" ++ username ++ codes "@" ++ ip in
    if is_empty rest
    then codes ":" ++ prefix ++ codes " " ++ cmd
    else codes ":" ++ prefix ++ codes " " ++ cmd ++ codes " " ++ rest

make_reply_482 : make_reply 482 (codes "bob") (codes "#c :no") ≡ codes ":ircserv 482 bob #c :no"
unfolding make_reply codes decimal
make_reply_482 = refl

to_lower_example : to_lower (codes "#Foo[~]") ≡ codes "#foo{^}"
unfolding to_lower lower_char codes
to_lower_example = refl
