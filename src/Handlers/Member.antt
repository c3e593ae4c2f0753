-- ===== src/Handlers/Member.antt =====
-- Members and operators, JOIN, PART, KICK, INVITE and the clean-up after QUIT, of
-- channel/Channel.cpp.
use ft_irc.Base.{
  ℕ, ◌+◌, ◌-◌, ◌^◌, ◌%◌, ◌&&◌, not, List, [], ◌∷◌, ◌++◌, Text, codes, ltb, if◌then◌else◌, remove,
  push_back, is_empty, length, ◌▷◌,
}
use ft_irc.Reply.{make_reply, make_command}
use ft_irc.Reply.Numeric.{
  err_badchannelkey, err_inviteonlychan, err_channelisfull, rpl_notopic, rpl_topic, rpl_namreply,
  rpl_endofnames, err_notonchannel, err_chanoprivsneeded, err_usernotinchannel, err_useronchannel,
  rpl_inviting,
}
use ft_irc.Client.{
  add_joined_channels, remove_joined_channels, add_invited_channel, remove_invited_channel,
}
use ft_irc.Channel.{
  Channel, check_key, is_full, is_invited, is_member, is_operator, remove_member_from_invited_users,
  add_operator, remove_operator,
}
use ft_irc.Heap.{Heap, client, channel, on_client, on_channel, send_to_one, send_to_all}

-- `makeReply` and `makeCommand` for a client.
abbrev pub reply_to : Heap → ℕ → ℕ → Text → Text
reply_to h user code text = make_reply code (client h user).nickname text

abbrev pub command_of : Heap → ℕ → Text → Text → Text
command_of h user cmd rest =
    make_command (client h user).nickname (client h user).username (client h user).ip cmd rest

abbrev push_member : ℕ → Channel → Channel
push_member user c = record c { members = push_back c.members user }

abbrev drop_member : ℕ → Channel → Channel
drop_member user c = record c { members = remove user c.members }

unfoldable pub add_member : ℕ → ℕ → Heap → Heap
add_member ch user h =
    if not (is_member (channel h ch) user)
    then on_channel ch (push_member user) h
      ▷ on_client user (add_joined_channels (channel h ch).name ch)
    else h

unfoldable pub remove_member : ℕ → ℕ → Heap → Heap
remove_member ch user h =
    on_channel ch (drop_member user) h
    ▷ on_channel ch (remove_operator user)
    ▷ on_client user (remove_joined_channels (channel h ch).name)

-- The loop that writes the NAMES lines, each of at most `limit` bytes behind the prefix, if one
-- entry fits.
unfoldable pub send_names : ℕ → ℕ → Text → ℕ → List ℕ → Text → Heap → Heap
send_names ch user prefix limit [] users h =
    if not (is_empty users) then send_to_one user (prefix ++ users) h else h
send_names ch user prefix limit (m ∷ ms) users h =
    let entry : Text =
      (if is_operator (channel h ch) m then codes "@" else []) ++ (client h m).nickname in
    let flush = not (is_empty users) && ltb limit (length users + 1 + length entry) in
    let kept : Text = if flush then [] else users in
    let spaced : Text = if not (is_empty kept) then kept ++ codes " " else kept in
    send_names ch user prefix limit ms (spaced ++ entry)
      (if flush then send_to_one user (prefix ++ users) h else h)

-- The replies to a client that has joined.
unfoldable pub welcome : ℕ → ℕ → Heap → Heap
welcome ch user h =
    let c = channel h ch in
    let prefix = reply_to h user rpl_namreply (codes "= " ++ c.name ++ codes " :") in
    let limit = (2 ^ 64 + 510 - length prefix) % 2 ^ 64 in
    send_to_all ch (command_of h user (codes "JOIN") c.name) h
    ▷ send_to_one user (
        if is_empty c.topic
        then reply_to h user rpl_notopic (c.name ++ codes " :No topic is set")
        else reply_to h user rpl_topic (c.name ++ codes " :" ++ c.topic))
    ▷ send_names ch user prefix limit c.members []
    ▷ send_to_one user (reply_to h user rpl_endofnames (c.name ++ codes " :End of /NAMES list"))

-- The part of `handleJoin` that lets the client in.
unfoldable pub enter : ℕ → ℕ → Heap → Heap
enter ch user h =
    let is_first = is_empty (channel h ch).members in
    on_channel ch (remove_member_from_invited_users user) h
    ▷ on_client user (remove_invited_channel ch)
    ▷ add_member ch user
    ▷ (λ h'. if is_first then on_channel ch (add_operator user) h' else h')
    ▷ welcome ch user

unfoldable pub handle_join : ℕ → ℕ → Text → Heap → Heap
handle_join ch user key h =
    let c = channel h ch in
    if is_member c user
    then h
    else if not (is_empty c.key) && not (check_key c key)
    then send_to_one user
        (reply_to h user err_badchannelkey (c.name ++ codes " :Cannot join channel (+k)")) h
    else if c.invite_only && not (is_invited c user)
    then send_to_one user
        (reply_to h user err_inviteonlychan (c.name ++ codes " :Cannot join channel (+i)")) h
    else if is_full c
    then send_to_one user
        (reply_to h user err_channelisfull (c.name ++ codes " :Cannot join channel (+l)")) h
    else enter ch user h

unfoldable pub handle_part : ℕ → ℕ → Text → Heap → Heap
handle_part ch user message h =
    let c = channel h ch in
    if not (is_member c user)
    then send_to_one user
        (reply_to h user err_notonchannel (c.name ++ codes " :You're not on that channel")) h
    else (let reason = if ltb 0 (length message) then message else (client h user).nickname in
        send_to_all ch (command_of h user (codes "PART") (c.name ++ codes " :" ++ reason)) h
        ▷ remove_member ch user)

unfoldable pub handle_kick : ℕ → ℕ → ℕ → Text → Heap → Heap
handle_kick ch kicking kicked comment h =
    let c = channel h ch in
    if not (is_member c kicking)
    then send_to_one kicking
        (reply_to h kicking err_notonchannel (c.name ++ codes " :You're not on that channel")) h
    else if not (is_operator c kicking)
    then send_to_one kicking
        (reply_to h kicking err_chanoprivsneeded (c.name ++ codes " :You're not channel operator"))
        h
    else if not (is_member c kicked)
    then send_to_one kicking
        (reply_to h kicking err_usernotinchannel (
          (client h kicked).nickname
          ++ codes " "
          ++ c.name
          ++ codes " :They aren't on that channel"))
        h
    else (let reason = if not (is_empty comment) then comment else (client h kicking).nickname in
        send_to_all ch
          (command_of h kicking (codes "KICK") (c.name ++ codes " " ++ (client h kicked).nickname)
            ++ codes " :"
            ++ reason)
          h
        ▷ remove_member ch kicked)

unfoldable pub handle_invite : ℕ → ℕ → ℕ → Heap → Heap
handle_invite ch inviting invited h =
    let c = channel h ch in
    if not (is_member c inviting)
    then send_to_one inviting
        (reply_to h inviting err_notonchannel (c.name ++ codes " :You're not on that channel")) h
    else if c.invite_only && not (is_operator c inviting)
    then send_to_one inviting
        (reply_to h inviting err_chanoprivsneeded (c.name ++ codes " :You're not channel operator"))
        h
    else if is_invited c invited
    then h
    else if is_member c invited
    then send_to_one inviting
        (reply_to h inviting err_useronchannel
          ((client h invited).nickname ++ codes " " ++ c.name ++ codes " :is already on channel"))
        h
    else on_channel ch (λ x. record x { invited_users = push_back x.invited_users invited }) h
      ▷ on_client invited (add_invited_channel ch)
      ▷ send_to_one inviting
          (reply_to h inviting rpl_inviting (c.name ++ codes " " ++ (client h invited).nickname))
      ▷ send_to_one invited (
          command_of h inviting (codes "INVITE")
            ((client h invited).nickname ++ codes " " ++ c.name))

unfoldable pub remove_quit_user : ℕ → ℕ → Heap → Heap
remove_quit_user ch user h = if is_member (channel h ch) user then remove_member ch user h else h
