-- ===== src/Commands/Session.antt =====
-- The commands of common/commandlist/ that need no login: Nick.cpp, Pass.cpp, Ping.cpp, Pong.cpp,
-- Quit.cpp and User.cpp.
use ft_irc.Base.{
  ℕ, Bool, true, false, ◌&&◌, ◌||◌, not, none, some, List, [], ◌∷◌, ◌++◌, Text, codes, find,
  text_eq, ◌==◌, leb, ltb, if◌then◌else◌, is_empty, length, ◌▷◌,
}
use ft_irc.Reply.{format_reply, format_reply_with_parameter}
use ft_irc.Reply.IrcNumeric.{
  err_needmoreparams, err_nonicknamegiven, err_erroneusnickname, err_nicknameinuse,
  err_alreadyregistered, err_passwdmismatch, err_noorigin,
}
use ft_irc.Client.{Client, try_complete_registration, is_missing_password, update_last_activity}
use ft_irc.Heap.{client, on_client, send_to_one, broadcast_nick_change}
use ft_irc.Parse.Message.{Message}
use ft_irc.Server.{Server, on_heap, is_nickname_taken, check_password}
use ft_irc.Server.Disconnect.{disconnect_client}

-- `IrcReply::targetname`, and the same lines in the commands that write them out.
unfoldable pub target_name : Server → ℕ → Text
target_name s c = if (client s.heap c).is_registered then (client s.heap c).nickname else codes "*"

abbrev pub answer : ℕ → Text → Server → Server
answer c message = on_heap (send_to_one c message)

-- `params[0]`, or the empty text where there is none.
abbrev pub first_param : List Text → Text
first_param [] = []
first_param (p ∷ ps) = p

-- `std::isalpha` and `std::isdigit` of the "C" locale
unfoldable pub c_isalpha : ℕ → Bool
c_isalpha c = leb b'A' c && leb c b'Z' || leb b'a' c && leb c b'z'

unfoldable pub c_isalnum : ℕ → Bool
unfolding c_isalpha
c_isalnum c = c_isalpha c || leb b'0' c && leb c b'9'

unfoldable pub is_special : ℕ → Bool
is_special c =
    c == b'['
    || c == b']'
    || c == 92
    || c == b'`'
    || c == b'_'
    || c == b'^'
    || c == b'{'
    || c == b'}'
    || c == b'|'

unfoldable pub nickname_rest : Text → Bool
nickname_rest [] = true
nickname_rest (c ∷ s) =
    if not (c_isalnum c) && not (is_special c) && not (c == b'-') then false else nickname_rest s

unfoldable pub is_valid_nickname : Text → Bool
is_valid_nickname [] = false
is_valid_nickname (first ∷ s) =
    if ltb 9 (length (first ∷ s))
    then false
    else if not (c_isalpha first) && not (is_special first)
    then false
    else nickname_rest s

unfoldable pub nick_notice : Text → Text → Text → Text → Text
nick_notice old newer user host =
    codes ":" ++ old ++ codes "!" ++ user ++ codes "@" ++ host ++ codes " NICK :" ++ newer

-- The end of `Nick::execute` and of `User::execute`.
unfoldable pub complete : ℕ → ℕ → Server → Server
complete now c s =
    let s' = on_heap (on_client c try_complete_registration) s in
    if is_missing_password (client s'.heap c)
    then answer c (format_reply err_passwdmismatch (codes "*") (codes "Password incorrect")) s'
      ▷ disconnect_client now c (codes "Bad Password")
    else s'

abbrev pub set_nickname : Text → Client → Client
set_nickname nickname c = record c { nickname = nickname }

unfoldable pub nick : ℕ → ℕ → Message → Server → Server
nick now c msg s =
    let new_nickname = first_param msg.parameter in
    let old = client s.heap c in
    if is_empty msg.parameter || is_empty new_nickname
    then answer c (format_reply err_nonicknamegiven (target_name s c) (codes "No nickname given")) s
    else if not (is_valid_nickname new_nickname)
    then answer c
        (format_reply_with_parameter err_erroneusnickname (target_name s c) new_nickname
          (codes "Erroneous nickname"))
        s
    else if is_nickname_taken s new_nickname c
    then answer c
        (format_reply_with_parameter err_nicknameinuse (target_name s c) new_nickname
          (codes "Nickname is already in use"))
        s
    else (let s' = on_heap (on_client c (set_nickname new_nickname)) s in
        if old.is_registered
        then if text_eq old.nickname new_nickname
          then s'
          else on_heap
              (broadcast_nick_change c (nick_notice old.nickname new_nickname old.username old.ip))
              s'
        else complete now c s')

abbrev pub set_password_verified : Bool → Client → Client
set_password_verified status c = record c { is_password_verified = status }

unfoldable pub pass : ℕ → Message → Server → Server
pass c msg s =
    if is_empty msg.parameter || is_empty (first_param msg.parameter)
    then answer c
        (format_reply_with_parameter err_needmoreparams (target_name s c) (codes "PASS")
          (codes "Not enough parameters"))
        s
    else if (client s.heap c).is_registered
    then answer c
        (format_reply err_alreadyregistered (target_name s c) (codes "You may not reregister")) s
    else on_heap
        (on_client c (set_password_verified (check_password s (first_param msg.parameter)))) s
      ▷ on_heap (on_client c try_complete_registration)

unfoldable pub ping : ℕ → Message → Server → Server
ping c msg s =
    if is_empty msg.parameter || is_empty (first_param msg.parameter)
    then answer c (format_reply err_noorigin (target_name s c) (codes "No origin specified")) s
    else answer c (codes ":ircserv PONG ircserv :" ++ first_param msg.parameter) s

unfoldable pub pong : ℕ → ℕ → Server → Server
pong now c = on_heap (on_client c (update_last_activity now))

unfoldable pub quit : ℕ → ℕ → Message → Server → Server
quit now c msg = disconnect_client now c (
    if not (is_empty msg.parameter) && not (is_empty (first_param msg.parameter))
    then first_param msg.parameter
    else codes "Client Quit")

abbrev pub set_user : Text → Text → Client → Client
set_user username realname c = record c { username = username; realname = realname }

abbrev pub has_at : Text → Bool
has_at s = elim (find b'@' s) [ none ↦ false | some pos ↦ true ]

-- The source reads `params[0]` and `params[3]` once it knows that there are four parameters.
unfoldable pub user_with : ℕ → ℕ → Text → Text → Server → Server
user_with now c username realname s =
    if is_empty username
    then answer c
        (format_reply_with_parameter err_needmoreparams (target_name s c) (codes "USER")
          (codes "Not enough parameters"))
        s
    else if (client s.heap c).is_registered
    then answer c
        (format_reply err_alreadyregistered (target_name s c) (codes "You may not reregister")) s
    else if has_at username
    then answer c
        (format_reply_with_parameter err_needmoreparams (target_name s c) (codes "USER")
          (codes "Not enough parameters"))
        s
    else complete now c (on_heap (on_client c (set_user username realname)) s)

unfoldable pub user_params : ℕ → ℕ → List Text → Server → Server
unfolding user_with
user_params now c (username ∷ mode ∷ unused ∷ realname ∷ more) s =
    user_with now c username realname s
user_params now c params s =
    answer c
      (format_reply_with_parameter err_needmoreparams (target_name s c) (codes "USER")
        (codes "Not enough parameters"))
      s

unfoldable pub user : ℕ → ℕ → Message → Server → Server
unfolding user_params
user now c msg = user_params now c msg.parameter
