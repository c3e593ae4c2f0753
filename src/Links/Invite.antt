-- ===== src/Links/Invite.antt =====
-- A client is invited to a channel.
use ft_irc.Heap.{client, channel, on_client, on_channel, Heap}
use ft_irc.Links.{names-keep, IsRoom, Linked, IsSettled-if}
use ft_irc.Client.{add_invited_channel}
use ft_irc.Channel.{is_invited, is_member, Channel}
use ft_irc.Heap.Live.{of_live-on_client_channel, of_live-on_channel}
use ft_irc.Heap.Quiet.{IsLiveClient, IsLiveChannel}
use ft_irc.Base.{
  ◌==◌, if◌then◌else◌, push_back, contains-push_back, Distinct-push_back, ℕ, ◌≡◌, false, arith,
}
use ft_irc.Links.Leave.{IsRoom-if}

abbrev pub with_invited : ℕ → Channel → Channel
with_invited u c = record c { invited_users = push_back c.invited_users u }

IsRoom-with_invited :
    (u : ℕ) (c : Channel)
    → is_member c u ≡ false
    → is_invited c u ≡ false
    → IsRoom c
    → IsRoom (with_invited u c)
IsRoom-with_invited u c m i r = record {
  operators_in = r.operators_in;
  invited_out = λ p e. ground (arith, contains-push_back c.invited_users u p, r.invited_out p);
  members_distinct = r.members_distinct;
  operators_distinct = r.operators_distinct;
  invited_distinct = Distinct-push_back c.invited_users u r.invited_distinct i;
}

-- Both lists of an invitation.
abbrev pub note_invitation : ℕ → ℕ → Heap → Heap
note_invitation ch u h = on_client u (add_invited_channel ch) (on_channel ch (with_invited u) h)

module _ (ch u : ℕ) (h : Heap) (lc : IsLiveChannel h ch) (lu : IsLiveClient h u) where
  pub channel-note_invitation :
      (x : ℕ)
      → channel (note_invitation ch u h) x
        ≡ (if ch == x then with_invited u (channel h ch) else channel h x)
  unfolding channel on_channel on_client
  channel-note_invitation x = ground arith

  client-note_invitation :
      (p : ℕ)
      → client (note_invitation ch u h) p ≡ (
          if u == p
          then record (client h u) { invited_channels = push_back (client h u).invited_channels ch }
          else client h p)
  unfolding add_invited_channel client on_channel on_client
  client-note_invitation p = ground arith

  pub Linked-note_invitation :
      is_member (channel h ch) u ≡ false
      → is_invited (channel h ch) u ≡ false
      → Linked h
      → Linked (note_invitation ch u h)
  Linked-note_invitation m i l = record {
    rooms = λ x.
        rw (channel-note_invitation x)
          (IsRoom-if (ch == x) _ _ (IsRoom-with_invited u _ m i (l.rooms ch)) (l.rooms x));
    settled = λ x.
        rw (channel-note_invitation x) (IsSettled-if (ch == x) _ _ (l.settled ch) (l.settled x));
    member_joined = λ x p.
        rw (channel-note_invitation x, client-note_invitation p)
          (λ e. ground (arith, l.member_joined x p));
    joined_member = λ p name x.
        rw (channel-note_invitation x, client-note_invitation p)
          (λ e. ground (arith, l.joined_member p name x));
    invited_both = λ x p.
        rw (channel-note_invitation x, client-note_invitation p)
          (ground (
            arith,
            contains-push_back (channel h ch).invited_users u p,
            contains-push_back (client h u).invited_channels ch x,
            l.invited_both x p,
          ));
    keys = λ p. rw (client-note_invitation p) (ground (arith, l.keys u, l.keys p));
    names =
        names-keep h _ (λ x e. of_live-on_channel ch _ h x (of_live-on_client_channel u _ _ x e))
          (λ x. rw (channel-note_invitation x) (ground arith)) l.names;
  }
