-- ===== src/Commands/Rooms.antt =====
-- The commands of common/commandlist/ on channels and users: Invite.cpp, Join.cpp, Kick.cpp,
-- Part.cpp, Privmsg.cpp, Topic.cpp, and `handlePersonalPrivmsg` of common/Reply.cpp.
use ft_irc.Base.{
  ℕ, Bool, true, false, ◌&&◌, not, none, some, List, [], ◌∷◌, ◌++◌, Text, codes, find, text_eq,
  ◌==◌, ltb, if◌then◌else◌, is_empty, length, ◌▷◌,
}
use ft_irc.Map.{Map}
use ft_irc.Reply.{make_reply}
use ft_irc.Reply.Numeric.{
  err_needmoreparams, err_nosuchnick, err_nosuchchannel, err_badchanmask, err_notonchannel,
  err_chanoprivsneeded, err_usernotinchannel, err_norecipient, err_notexttosend,
}
use ft_irc.Channel.{is_member, is_operator, is_channel_empty}
use ft_irc.Heap.{Heap, client, channel, send_to_one}
use ft_irc.Handlers.Member.{command_of, handle_join, handle_part, handle_kick, handle_invite}
use ft_irc.Handlers.Talk.{handle_topic, handle_channel_privmsg}
use ft_irc.Parse.Message.{Message}
use ft_irc.Server.{
  Server, on_heap, find_channel, find_or_create_channel, delete_channel, find_client_by_nickname,
}
use ft_irc.Commands.Session.{target_name, answer}

-- `client.sendReply(makeReply(code, target, text))`
abbrev pub complain : ℕ → ℕ → Text → Server → Server
complain c code text s = answer c (make_reply code (target_name s c) text) s

-- `if (channel->isEmpty()) server.deleteChannel(name);`
unfoldable pub delete_if_empty : ℕ → Text → Server → Server
delete_if_empty ch name s =
    if is_channel_empty (channel s.heap ch) then delete_channel name s else s

unfoldable pub invite_to : ℕ → Text → Text → Server → Server
invite_to c nickname name s = elim (find_client_by_nickname s nickname) [
  | none ↦ complain c err_nosuchnick (nickname ++ codes " :No such nick/channel") s
  | some target ↦ elim (find_channel s name) [
    | none ↦ complain c err_nosuchchannel (name ++ codes " :No such channel") s
    | some ch ↦ on_heap (handle_invite ch c target) s
  ]
]

unfoldable pub invite_params : ℕ → List Text → Server → Server
unfolding invite_to
invite_params c (nickname ∷ name ∷ more) s = invite_to c nickname name s
invite_params c params s = complain c err_needmoreparams (codes "INVITE :Not enough parameters") s

unfoldable pub invite : ℕ → Message → Server → Server
unfolding invite_params
invite c msg = invite_params c msg.parameter

-- `s.find(c) != npos`
abbrev pub has_byte : ℕ → Text → Bool
has_byte c s = elim (find c s) [ none ↦ false | some pos ↦ true ]

unfoldable pub is_valid_channel_name : Text → Bool
is_valid_channel_name [] = false
is_valid_channel_name (first ∷ s) =
    if ltb 50 (length (first ∷ s))
    then false
    else if not (first == b'#') && not (first == b'&')
    then false
    else if has_byte b' ' (first ∷ s)
    then false
    else if has_byte b',' (first ∷ s)
    then false
    else if has_byte 7 (first ∷ s)
    then false
    else true

-- JOIN 0: the loop over a copy of the joined channels.
unfoldable pub part_all : ℕ → Map Text ℕ → Server → Server
part_all c [] s = s
part_all c ((name, ch) ∷ rest) s =
    part_all c rest (on_heap (handle_part ch c []) s ▷ delete_if_empty ch name)

-- The key is empty where the message has none.
unfoldable pub join_channel : ℕ → Text → Text → Server → Server
join_channel c name key s =
    if text_eq name (codes "0")
    then part_all c (client s.heap c).joined_channels s
    else if not (is_valid_channel_name name)
    then complain c err_badchanmask (name ++ codes " :Bad Channel Mask") s
    else (let (ch, s') = find_or_create_channel name s in on_heap (handle_join ch c key) s')

unfoldable pub join_params : ℕ → List Text → Server → Server
unfolding join_channel
join_params c [] s = complain c err_needmoreparams (codes "JOIN :Not enough parameters") s
join_params c (name ∷ []) s = join_channel c name [] s
join_params c (name ∷ key ∷ more) s = join_channel c name key s

unfoldable pub join : ℕ → Message → Server → Server
unfolding join_params
join c msg = join_params c msg.parameter

unfoldable pub kick_from : ℕ → Text → Text → Text → Server → Server
kick_from c name nickname comment s = elim (find_channel s name) [
  | none ↦ complain c err_nosuchchannel (name ++ codes " :No such channel") s
  | some ch ↦ elim (find_client_by_nickname s nickname) [
    | none ↦
        (let room = channel s.heap ch in
          if not (is_member room c)
          then complain c err_notonchannel (room.name ++ codes " :You're not on that channel") s
          else if not (is_operator room c)
          then complain c err_chanoprivsneeded (room.name ++ codes " :You're not channel operator")
              s
          else complain c err_usernotinchannel
              (nickname ++ codes " " ++ name ++ codes " :They aren't on that channel") s)
    | some target ↦ on_heap (handle_kick ch c target comment) s ▷ delete_if_empty ch name
  ]
]

unfoldable pub kick_params : ℕ → List Text → Server → Server
unfolding kick_from
kick_params c (name ∷ nickname ∷ []) s = kick_from c name nickname [] s
kick_params c (name ∷ nickname ∷ comment ∷ more) s = kick_from c name nickname comment s
kick_params c params s = complain c err_needmoreparams (codes "KICK :Not enough parameters") s

unfoldable pub kick : ℕ → Message → Server → Server
unfolding kick_params
kick c msg = kick_params c msg.parameter

unfoldable pub part_from : ℕ → Text → Text → Server → Server
part_from c name comment s = elim (find_channel s name) [
  | none ↦ complain c err_nosuchchannel (name ++ codes " :No such channel") s
  | some ch ↦ on_heap (handle_part ch c comment) s ▷ delete_if_empty ch name
]

unfoldable pub part_params : ℕ → List Text → Server → Server
unfolding part_from
part_params c [] s = complain c err_needmoreparams (codes "PART :Not enough parameters") s
part_params c (name ∷ []) s = part_from c name [] s
part_params c (name ∷ comment ∷ more) s = part_from c name comment s

unfoldable pub part : ℕ → Message → Server → Server
unfolding part_params
part c msg = part_params c msg.parameter

unfoldable pub handle_personal_privmsg : ℕ → ℕ → Text → Heap → Heap
handle_personal_privmsg sender recipient message h =
    send_to_one recipient
      (command_of h sender (codes "PRIVMSG")
        ((client h recipient).nickname ++ codes " :" ++ message))
      h

unfoldable pub privmsg_to : ℕ → Text → Text → Server → Server
privmsg_to c name comment s = elim (find_channel s name) [
  | none ↦ elim (find_client_by_nickname s name) [
    | none ↦ complain c err_nosuchnick (name ++ codes " :No such nick/channel") s
    | some recipient ↦ on_heap (handle_personal_privmsg c recipient comment) s
  ]
  | some ch ↦ on_heap (handle_channel_privmsg ch c comment) s
]

-- A text that is missing and one that is empty are refused alike.
unfoldable pub privmsg_params : ℕ → List Text → Server → Server
unfolding privmsg_to
privmsg_params c [] s = complain c err_norecipient (codes ":No recipient given (PRIVMSG)") s
privmsg_params c (name ∷ []) s =
    if is_empty name
    then complain c err_norecipient (codes ":No recipient given (PRIVMSG)") s
    else complain c err_notexttosend (codes ":No text to send") s
privmsg_params c (name ∷ text ∷ more) s =
    if is_empty name
    then complain c err_norecipient (codes ":No recipient given (PRIVMSG)") s
    else if is_empty text
    then complain c err_notexttosend (codes ":No text to send") s
    else privmsg_to c name text s

unfoldable pub privmsg : ℕ → Message → Server → Server
unfolding privmsg_params
privmsg c msg = privmsg_params c msg.parameter

unfoldable pub topic_of : ℕ → Text → Text → Bool → Server → Server
topic_of c name topic has_topic_param s = elim (find_channel s name) [
  | none ↦ complain c err_nosuchchannel (name ++ codes " :No such channel") s
  | some ch ↦ on_heap (handle_topic ch c topic has_topic_param) s
]

unfoldable pub topic_params : ℕ → List Text → Server → Server
unfolding topic_of
topic_params c [] s = complain c err_needmoreparams (codes "TOPIC :Not enough parameters") s
topic_params c (name ∷ []) s = topic_of c name [] false s
topic_params c (name ∷ topic ∷ more) s = topic_of c name topic true s

unfoldable pub topic : ℕ → Message → Server → Server
unfolding topic_params
topic c msg = topic_params c msg.parameter
