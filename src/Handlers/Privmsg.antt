-- ===== src/Handlers/Privmsg.antt =====
-- Who is sent a message to a channel: handleChannelPrivmsg of channel/Channel.cpp.
use ft_irc.Base.{
  ℕ, ◌≡◌, ◌&&◌, ◌∙◌, ◌++◌, ◌==◌, not, if_both, if◌then◌else◌, Text, codes, Distinct, arith,
}
use ft_irc.Client.{wire}
use ft_irc.Channel.{is_member}
use ft_irc.Reply.Numeric.{err_cannotsendtochan}
use ft_irc.Heap.{Heap, channel}
use ft_irc.Heap.Quiet.{IsLiveClient}
use ft_irc.Heap.Delivery.{sent_to, sent-one, send_to_all_except-delivery}
use ft_irc.Handlers.Member.{reply_to, command_of}
use ft_irc.Handlers.Talk.{handle_channel_privmsg}

module _ (ch sender : ℕ) (message : Text) (h : Heap) where
  abbrev pub privmsg_line : Text
  privmsg_line =
      command_of h sender (codes "PRIVMSG") ((channel h ch).name ++ codes " :" ++ message)

  abbrev pub cannot_send : Text
  cannot_send =
      reply_to h sender err_cannotsendtochan
        ((channel h ch).name ++ codes " :Cannot send to channel")

  -- If the members of a channel are distinct and a client is there, a message to the channel is
  -- appended once to that client's write buffer if the sender and the client are members and the
  -- client is not the sender; a sender that is no member is sent 404 instead; and no other line
  -- is appended.
  pub handle_channel_privmsg-delivery :
      (p : ℕ)
      → IsLiveClient h p
      → Distinct (channel h ch).members
      → sent_to (handle_channel_privmsg ch sender message h) p ≡ (
          if is_member (channel h ch) sender
          then (if is_member (channel h ch) p && not (p == sender)
              then sent_to h p ++ wire privmsg_line
              else sent_to h p)
          else (if sender == p then sent_to h p ++ wire cannot_send else sent_to h p))
  unfolding handle_channel_privmsg
  handle_channel_privmsg-delivery p l d =
      if_both
        (λ (k : Heap). sent_to k p ≡ (
          if is_member (channel h ch) sender
          then (if is_member (channel h ch) p && not (p == sender)
              then sent_to h p ++ wire privmsg_line
              else sent_to h p)
          else (if sender == p then sent_to h p ++ wire cannot_send else sent_to h p)))
        (not (is_member (channel h ch) sender)) _ _
        (λ n. sent-one sender _ h p l ∙ ground (arith, n))
        (λ m. send_to_all_except-delivery ch sender _ h p l d ∙ ground (arith, m))
