-- ===== src/Handlers/Topic.antt =====
-- Who can change a topic, and to what: handleTopic of channel/Channel.cpp.
use ft_irc.Base.{
  ℕ, Bool, ◌≡◌, ◌&&◌, ◌||◌, ◌∙◌, not, if_both, is_empty, if◌then◌else◌, ◌==◌, Text, arith,
}
use ft_irc.Utf8.{truncate_utf8}
use ft_irc.Channel.{Channel, is_member, is_operator}
use ft_irc.Heap.{Heap, channel}
use ft_irc.Heap.Quiet.{IsLiveChannel, quiet-send_to_one, quiet-send_to_all, channel-on_channel}
use ft_irc.Heap.Silent.{channel-silent}
use ft_irc.Handlers.Talk.{handle_topic, set_topic}

-- What TOPIC asks of the client that gives a topic.
abbrev pub may_set_topic : Channel → ℕ → Bool
may_set_topic c user = is_member c user && (not c.topic_by_op_only || is_operator c user)

module _ (ch u : ℕ) (topic : Text) (has_topic_param : Bool) (h : Heap) (lc : IsLiveChannel h ch)
    (x : ℕ) where
  abbrev After : Heap → Type 0
  After k = channel k x ≡ (
      if ch == x && (has_topic_param && may_set_topic (channel h ch) u)
      then record (channel h ch) { topic = truncate_utf8 topic 300 }
      else channel h x)

  -- If the channel is there, TOPIC leaves every channel as it is, but for the topic of that
  -- channel if a topic is given by a client that is in the channel and, where the channel is +t,
  -- an operator of it; the topic is then the given one, cut to 300 bytes.
  pub handle_topic-sets : channel (handle_topic ch u topic has_topic_param h) x ≡ (
      if ch == x && (has_topic_param && may_set_topic (channel h ch) u)
      then record (channel h ch) { topic = truncate_utf8 topic 300 }
      else channel h x)
  unfolding handle_topic
  handle_topic-sets =
      if_both After (not (is_member (channel h ch) u)) _ _
        (λ n. channel-silent _ _ (quiet-send_to_one u _ h) x ∙ ground (arith, n))
        (λ m.
          if_both After (not has_topic_param) _ _
            (λ n.
              if_both After (is_empty (channel h ch).topic) _ _
                (λ e. channel-silent _ _ (quiet-send_to_one u _ h) x ∙ ground (arith, n))
                (λ e. channel-silent _ _ (quiet-send_to_one u _ h) x ∙ ground (arith, n)))
            (λ t.
              if_both After ((channel h ch).topic_by_op_only && not (is_operator (channel h ch) u))
                _ _ (λ n. channel-silent _ _ (quiet-send_to_one u _ h) x ∙ ground (arith, m, t, n))
                (λ o.
                  channel-silent _ _ (quiet-send_to_all ch _ _) x
                  ∙ channel-on_channel ch (set_topic topic) h x lc
                  ∙ ground (arith, m, t, o))))
