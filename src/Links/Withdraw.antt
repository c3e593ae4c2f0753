-- ===== src/Links/Withdraw.antt =====
-- The last steps of `Server::disconnect`: the invitations of a client that is in no channel are
-- withdrawn, and its object is deleted.
use ft_irc.Heap.{client, channel, on_channel, Heap}
use ft_irc.Map.{lookup, text_key, nat_key}
use ft_irc.Links.{IsRoom, Linked, IsSettled-if}
use ft_irc.Client.{new_client, Client}
use ft_irc.Channel.{new_channel, is_invited, is_member, remove_member_from_invited_users, Channel}
use ft_irc.Heap.Live.{of_live-on_channel, live-on_channel}
use ft_irc.Heap.Quiet.{IsLiveChannel}
use ft_irc.Server.Disconnect.{withdraw_invitations, free_client}
use ft_irc.Links.Delete.{remove_twice}
use ft_irc.Links.Leave.{IsRoom-if}
use ft_irc.Base.{
  ℕ, ◌==◌, if◌then◌else◌, contains, remove, contains-remove, Distinct-remove, ◌≡◌, refl, ap, ◌∙◌,
  false, ◌&&◌, Option, List, [], ◌∷◌, arith,
}

abbrev pub without_invitation : ℕ → Channel → Channel
without_invitation u c = record c { invited_users = remove u c.invited_users }

channel-withdraw_one :
    (u ch : ℕ) (h : Heap) (x : ℕ)
    → channel (on_channel ch (remove_member_from_invited_users u) h) x
      ≡ (if ch == x then without_invitation u (channel h x) else channel h x)
unfolding channel on_channel remove_member_from_invited_users new_channel remove
channel-withdraw_one u ch h x = ground arith

without_twice :
    (u : ℕ) (c : Channel) → without_invitation u (without_invitation u c) ≡ without_invitation u c
without_twice u c = ground (arith, remove_twice u c.invited_users)

pub channel-withdraw_invitations :
    (u : ℕ) (chs : List ℕ) (h : Heap) (x : ℕ)
    → channel (withdraw_invitations u chs h) x
      ≡ (if contains chs x then without_invitation u (channel h x) else channel h x)
unfolding withdraw_invitations contains
channel-withdraw_invitations u [] h x = refl
channel-withdraw_invitations u (ch ∷ chs) h x =
    channel-withdraw_invitations u chs (on_channel ch (remove_member_from_invited_users u) h) x
    ∙ rw (channel-withdraw_one u ch h x) (ground (arith, without_twice u (channel h x)))

pub client-withdraw_invitations :
    (u : ℕ) (chs : List ℕ) (h : Heap) → (withdraw_invitations u chs h).client_at ≡ h.client_at
unfolding withdraw_invitations on_channel
client-withdraw_invitations u [] h = refl
client-withdraw_invitations u (ch ∷ chs) h =
    client-withdraw_invitations u chs (on_channel ch (remove_member_from_invited_users u) h)

pub IsLiveChannel-withdraw :
    (u : ℕ) (chs : List ℕ) (h : Heap) (x : ℕ)
    → IsLiveChannel h x
    → IsLiveChannel (withdraw_invitations u chs h) x
unfolding withdraw_invitations
IsLiveChannel-withdraw u [] h x l = l
IsLiveChannel-withdraw u (ch ∷ chs) h x l =
    IsLiveChannel-withdraw u chs _ x (live-on_channel ch _ h x l)

pub of_IsLiveChannel-withdraw :
    (u : ℕ) (chs : List ℕ) (h : Heap) (x : ℕ)
    → IsLiveChannel (withdraw_invitations u chs h) x
    → IsLiveChannel h x
unfolding withdraw_invitations
of_IsLiveChannel-withdraw u [] h x l = l
of_IsLiveChannel-withdraw u (ch ∷ chs) h x l =
    of_live-on_channel ch _ h x (of_IsLiveChannel-withdraw u chs _ x l)

IsRoom-without_invitation : (u : ℕ) (c : Channel) → IsRoom c → IsRoom (without_invitation u c)
IsRoom-without_invitation u c r = record {
  operators_in = r.operators_in;
  invited_out = λ p e. ground (arith, contains-remove u c.invited_users p, r.invited_out p);
  members_distinct = r.members_distinct;
  operators_distinct = r.operators_distinct;
  invited_distinct = Distinct-remove u c.invited_users r.invited_distinct;
}

module _ (u : ℕ) (h : Heap) (out : (x : ℕ) → is_member (channel h x) u ≡ false) (l : Linked h) where
  abbrev invited : List ℕ
  invited = (client h u).invited_channels

  abbrev pub dropped : Heap
  dropped = free_client u (withdraw_invitations u invited h)

  pub channel-dropped :
      (x : ℕ)
      → channel dropped x
        ≡ (if contains invited x then without_invitation u (channel h x) else channel h x)
  channel-dropped x = unfold free_client channel in channel-withdraw_invitations u invited h x

  pub client-dropped : (p : ℕ) → client dropped p ≡ (if u == p then new_client 0 0 else client h p)
  unfolding free_client client
  client-dropped p =
      ground (arith, ap (λ (f : ℕ → Option Client). f p) (client-withdraw_invitations u invited h))

  pub name-dropped : (x : ℕ) → (channel dropped x).name ≡ (channel h x).name
  name-dropped x = rw (channel-dropped x) (ground arith)

  pub members-dropped : (x : ℕ) → (channel dropped x).members ≡ (channel h x).members
  members-dropped x = rw (channel-dropped x) (ground arith)

  invited-dropped :
      (x p : ℕ)
      → is_invited (channel dropped x) p
        ≡ (if u == p && contains invited x then false else is_invited (channel h x) p)
  invited-dropped x p =
      rw (channel-dropped x) (ground (arith, contains-remove u (channel h x).invited_users p))

  pub Linked-dropped : Linked dropped
  unfolding new_client contains lookup
  Linked-dropped = record {
    rooms = λ x. rw (channel-dropped x) (
        IsRoom-if (contains invited x) _ _ (IsRoom-without_invitation u _ (l.rooms x)) (l.rooms x));
    settled = λ x.
        rw (channel-dropped x) (IsSettled-if (contains invited x) _ _ (l.settled x) (l.settled x));
    member_joined = λ x p m.
        rw (name-dropped x, client-dropped p)
          (ground (arith, members-dropped x, m, out x, l.member_joined x p));
    joined_member = λ p n x.
        rw (client-dropped p)
          (λ e. ground (arith, members-dropped x, name-dropped x, l.joined_member p n x));
    invited_both =
        λ x p. rw (invited-dropped x p, client-dropped p) (ground (arith, l.invited_both x p));
    keys = λ p. rw (client-dropped p) (ground (arith, l.keys p));
    names = λ x y a b e.
        l.names x y (of_IsLiveChannel-withdraw u invited h x (unfold free_client in a))
          (of_IsLiveChannel-withdraw u invited h y (unfold free_client in b))
          (ground (arith, name-dropped x, name-dropped y, e));
  }
