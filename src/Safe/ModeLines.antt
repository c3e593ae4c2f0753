-- ===== src/Safe/ModeLines.antt =====
-- What a MODE query shows in a server that `Server::run` reaches.
use ft_irc.Server.{Server}
use ft_irc.Heap.{channel}
use ft_irc.Safe.Reach.{IsReachable-Inv, IsReachable}
use ft_irc.Client.{wire}
use ft_irc.Handlers.Member.{reply_to}
use ft_irc.Handlers.Modes.{handle_mode}
use ft_irc.Channel.{is_member, build_mode_string, Channel}
use ft_irc.Heap.Delivery.{sent_to, sent-one}
use ft_irc.Heap.Quiet.{IsLiveClient}
use ft_irc.Room.Modes.{settings_of}
use ft_irc.Room.Modes.Shown.{read_mode_line, unset, build_mode_string-reads}
use ft_irc.Reply.Numeric.{rpl_channelmodeis}
use ft_irc.Base.{Text, codes, ℕ, ◌<◌, ◌≡◌, ◌∙◌, true, List, [], ◌++◌, eq_self, refl}

-- In a reached server, a member of a channel that is there itself and asks for its modes is sent
-- 324 with the mode string, once; a client reads that string, starting from a channel without
-- modes, as the settings of the channel; and the limit among them is below 10^9.
pub reached-mode_query :
    (s : Server)
    → IsReachable s
    → (ch u : ℕ) (params : List Text) → IsLiveClient s.heap u
    → is_member (channel s.heap ch) u ≡ true
    → let c : Channel = channel s.heap ch in
      (sent_to (handle_mode ch u [] params s.heap) u
        ≡ sent_to s.heap u
          ++ wire
              (reply_to s.heap u rpl_channelmodeis (c.name ++ codes " " ++ build_mode_string c)))
      × (read_mode_line (build_mode_string c) (unset (settings_of c)) ≡ settings_of c)
      × (c.user_limit < 1000000000)
unfolding handle_mode
reached-mode_query s reached ch u params l m =
    let settled = (IsReachable-Inv reached).linked.settled ch in
    (
      rw m (sent-one u _ s.heap u l ∙ rw (eq_self u) refl),
      build_mode_string-reads (channel s.heap ch) settled.0,
      settled.1,
    )
