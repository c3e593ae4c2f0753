-- ===== src/Links/Leave.antt =====
-- A client leaves a channel: `removeMember`.
use ft_irc.Base.{
  ℕ, ◌≡◌, Bool, true, false, some, arith, Text, text_eq_iff, ◌==◌, if◌then◌else◌, remove,
  contains-remove, Distinct-remove,
}
use ft_irc.Map.{UniqueKeys-erase, lookup, erase, text_key, lookup-erase, nat_key}
use ft_irc.Client.{remove_joined_channels}
use ft_irc.Channel.{Channel, is_member, remove_operator}
use ft_irc.Heap.{Heap, client, channel, on_client, on_channel}
use ft_irc.Heap.Quiet.{IsLiveClient, IsLiveChannel}
use ft_irc.Heap.Live.{of_live-on_channel, of_live-on_client_channel}
use ft_irc.Handlers.Member.{remove_member}
use ft_irc.Links.{IsRoom, Linked, names-keep, IsSettled-if}

abbrev pub without_member : ℕ → Channel → Channel
without_member u c = record c { members = remove u c.members; operators = remove u c.operators }

module _ (ch u : ℕ) (h : Heap) (lc : IsLiveChannel h ch) (lu : IsLiveClient h u) where
  pub channel-remove_member :
      (x : ℕ)
      → channel (remove_member ch u h) x
        ≡ (if ch == x then without_member u (channel h ch) else channel h x)
  unfolding remove_member remove_operator channel on_channel on_client
  channel-remove_member x = ground arith

  pub client-remove_member :
      (p : ℕ)
      → client (remove_member ch u h) p ≡ (
          if u == p
          then record (client h u) {
            joined_channels = erase (channel h ch).name (client h u).joined_channels;
          }
          else client h p)
  unfolding remove_member remove_joined_channels client on_channel on_client
  client-remove_member p = ground arith

  pub name-remove_member : (x : ℕ) → (channel (remove_member ch u h) x).name ≡ (channel h x).name
  name-remove_member x = rw (channel-remove_member x) (ground arith)

  pub live-remove_member : (x : ℕ) → IsLiveChannel (remove_member ch u h) x → IsLiveChannel h x
  unfolding remove_member
  live-remove_member x e =
      of_live-on_channel ch _ h x
        (of_live-on_channel ch _ _ x (of_live-on_client_channel u _ _ x e))

pub IsRoom-without_member : (u : ℕ) (c : Channel) → IsRoom c → IsRoom (without_member u c)
IsRoom-without_member u c r = record {
  operators_in = λ p e.
      ground
        (arith, contains-remove u c.members p, contains-remove u c.operators p, r.operators_in p);
  invited_out = λ p e. ground (arith, contains-remove u c.members p, r.invited_out p);
  members_distinct = Distinct-remove u c.members r.members_distinct;
  operators_distinct = Distinct-remove u c.operators r.operators_distinct;
  invited_distinct = r.invited_distinct;
}

pub IsRoom-if : (b : Bool) (c d : Channel) → IsRoom c → IsRoom d → IsRoom (if b then c else d)
IsRoom-if true c d rc rd = rc
IsRoom-if false c d rc rd = rd

module _ (ch u : ℕ) (h : Heap) (lc : IsLiveChannel h ch) (lu : IsLiveClient h u)
    (m : is_member (channel h ch) u ≡ true) (l : Linked h) where
  member_joined-remove_member :
      (x p : ℕ)
      → is_member (channel (remove_member ch u h) x) p ≡ true
      → lookup
          (channel (remove_member ch u h) x).name
          (client (remove_member ch u h) p).joined_channels
        ≡ some x
  member_joined-remove_member x p =
      rw (channel-remove_member ch u h lc lu x, client-remove_member ch u h lc lu p)
        (λ e. ground (
          arith,
          contains-remove u (channel h ch).members p,
          lookup-erase (channel h ch).name (channel h x).name (client h u).joined_channels,
          text_eq_iff (channel h ch).name (channel h x).name,
          l.member_joined x p,
          l.member_joined ch u m,
        ))

  joined_member-remove_member :
      (p : ℕ) (name : Text) (x : ℕ)
      → lookup name (client (remove_member ch u h) p).joined_channels ≡ some x
      → (is_member (channel (remove_member ch u h) x) p ≡ true)
        × ((channel (remove_member ch u h) x).name ≡ name)
  joined_member-remove_member p name x =
      rw (channel-remove_member ch u h lc lu x, client-remove_member ch u h lc lu p)
        (λ e. ground (
          arith,
          contains-remove u (channel h ch).members p,
          lookup-erase (channel h ch).name name (client h u).joined_channels,
          text_eq_iff (channel h ch).name name,
          l.joined_member p name x,
        ))

  pub Linked-remove_member : Linked (remove_member ch u h)
  Linked-remove_member = record {
    rooms = λ x.
        rw (channel-remove_member ch u h lc lu x)
          (IsRoom-if (ch == x) _ _ (IsRoom-without_member u _ (l.rooms ch)) (l.rooms x));
    settled = λ x.
        rw (channel-remove_member ch u h lc lu x)
          (IsSettled-if (ch == x) _ _ (l.settled ch) (l.settled x));
    member_joined = member_joined-remove_member;
    joined_member = joined_member-remove_member;
    invited_both = λ x p.
        rw (channel-remove_member ch u h lc lu x, client-remove_member ch u h lc lu p)
          (ground (arith, l.invited_both x p, l.invited_both ch p, l.invited_both x u));
    keys = λ p. rw (client-remove_member ch u h lc lu p) (
        ground (
          arith,
          UniqueKeys-erase (channel h ch).name (client h u).joined_channels (l.keys u),
          l.keys p,
        ));
    names =
        names-keep h _ (live-remove_member ch u h lc lu) (name-remove_member ch u h lc lu) l.names;
  }
