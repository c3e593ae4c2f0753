-- ===== src/Handlers/Talk.antt =====
-- TOPIC and PRIVMSG of channel/Channel.cpp.
use ft_irc.Base.{ℕ, Bool, not, ◌&&◌, ◌++◌, Text, codes, if◌then◌else◌, is_empty, ◌▷◌}
use ft_irc.Utf8.{truncate_utf8}
use ft_irc.Reply.Numeric.{
  rpl_notopic, rpl_topic, err_notonchannel, err_chanoprivsneeded, err_cannotsendtochan,
}
use ft_irc.Channel.{Channel, is_member, is_operator}
use ft_irc.Heap.{Heap, channel, on_channel, send_to_one, send_to_all, send_to_all_except}
use ft_irc.Handlers.Member.{reply_to, command_of}

abbrev pub set_topic : Text → Channel → Channel
set_topic topic c = record c { topic = truncate_utf8 topic 300 }

unfoldable pub handle_topic : ℕ → ℕ → Text → Bool → Heap → Heap
handle_topic ch user topic has_topic_param h =
    let c = channel h ch in
    if not (is_member c user)
    then send_to_one user
        (reply_to h user err_notonchannel (c.name ++ codes " :You're not on that channel")) h
    else if not has_topic_param
    then if is_empty c.topic
      then send_to_one user (reply_to h user rpl_notopic (c.name ++ codes " :No topic is set")) h
      else send_to_one user (reply_to h user rpl_topic (c.name ++ codes " :" ++ c.topic)) h
    else if c.topic_by_op_only && not (is_operator c user)
    then send_to_one user
        (reply_to h user err_chanoprivsneeded (c.name ++ codes " :You're not channel operator")) h
    else on_channel ch (set_topic topic) h
      ▷ send_to_all ch
          (command_of h user (codes "TOPIC") (c.name ++ codes " :" ++ truncate_utf8 topic 300))

unfoldable pub handle_channel_privmsg : ℕ → ℕ → Text → Heap → Heap
handle_channel_privmsg ch sender message h =
    let c = channel h ch in
    if not (is_member c sender)
    then send_to_one sender
        (reply_to h sender err_cannotsendtochan (c.name ++ codes " :Cannot send to channel")) h
    else send_to_all_except ch sender
        (command_of h sender (codes "PRIVMSG") (c.name ++ codes " :" ++ message)) h
