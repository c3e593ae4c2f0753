-- ===== src/Server/Rooms.antt =====
-- The invariant through `findOrCreateChannel`.
use ft_irc.Commands.Rooms.{is_valid_channel_name}
use ft_irc.Server.Vacant.{IsVacant}
use ft_irc.Links.Delete.{no_member-new_channel}
use ft_irc.Server.People.{persona, People-same, People}
use ft_irc.Reply.{to_lower}
use ft_irc.Server.{alloc_channel, Server}
use ft_irc.Heap.{client, channel}
use ft_irc.Map.{lookup, insert, lookup-insert, text_key, nat_key}
use ft_irc.Map.Each.{Each-insert, Each-map}
use ft_irc.Channel.{new_channel, is_member}
use ft_irc.Heap.Quiet.{IsLiveChannel, IsLiveClient}
use ft_irc.Server.Inv.{ChannelEntry, Inv}
use ft_irc.Base.{
  Option-cases, Text, text_eq_refl, text_eq_iff, ℕ, suc, ◌≡◌, refl, ap, subst, ◌≢◌, inl, inr, none,
  some, arith, true, ◌==◌, false,
}
use ft_irc.Links.Create.{channel-made, live-made, Linked-made, client-made}

module _ (name : Text) (s : Server) (v : Inv s)
    (missing : lookup (to_lower name) s.channels ≡ none) where
  abbrev created : Server
  created = record s {
    channels = insert (to_lower name) s.next_channel s.channels;
    heap = alloc_channel s.next_channel (new_channel name) s.heap;
    next_channel = suc s.next_channel;
  }

  free_address : s.heap.channel_at s.next_channel ≡ none
  free_address = elim (Option-cases (s.heap.channel_at s.next_channel)) [
    | inl e ↦ e
    | inr live ↦ absurd (omega (arith, v.channel_fresh s.next_channel live))
  ]

  fresh_name : (x : ℕ) → IsLiveChannel s.heap x → (channel s.heap x).name ≢ name
  fresh_name x live e = ground (arith, v.channels_listed x live, missing, ap to_lower e)

  entry-created :
      (x : ℕ)
      → IsLiveChannel s.heap x
      → IsLiveChannel created.heap x × (channel created.heap x ≡ channel s.heap x)
  entry-created x live = (
    live_made x live,
    rw (channel-made s.next_channel name s.heap free_address fresh_name x)
        (ground (arith, v.channel_fresh x live)),
  )
    where
      live_made : (y : ℕ) → IsLiveChannel s.heap y → IsLiveChannel created.heap y
      live_made y (c, e) = unfold alloc_channel in (c, ground (arith, v.channel_fresh y (c, e)))

  pub channel-created : channel created.heap s.next_channel ≡ new_channel name
  channel-created =
      rw (channel-made s.next_channel name s.heap free_address fresh_name s.next_channel)
        (ground arith)

  pub live-created : IsLiveChannel created.heap s.next_channel
  live-created = unfold alloc_channel in (new_channel name, ground arith)

  listed-created :
      (x : ℕ)
      → IsLiveChannel created.heap x
      → lookup (to_lower (channel created.heap x).name) created.channels ≡ some x
  listed-created x live =
      elim (live-made s.next_channel name s.heap free_address fresh_name x live) [
        | inl same ↦
            subst (λ y. lookup (to_lower (channel created.heap y).name) created.channels ≡ some y)
              same
              (rw (channel-created, lookup-insert)
                (unfold new_channel in ground (arith, text_eq_refl (to_lower name))))
        | inr old ↦
            rw ((entry-created x old).1, lookup-insert)
              (ground (
                arith,
                v.channels_listed x old,
                missing,
                text_eq_iff (to_lower name) (to_lower (channel s.heap x).name),
              ))
      ]

  named-created :
      is_valid_channel_name name ≡ true
      → (x : ℕ) → IsLiveChannel created.heap x
      → is_valid_channel_name (channel created.heap x).name ≡ true
  named-created valid x live =
      elim (live-made s.next_channel name s.heap free_address fresh_name x live) [
        | inl same ↦
            subst (λ y. is_valid_channel_name (channel created.heap y).name ≡ true) same
              (rw channel-created (unfold new_channel in valid))
        | inr old ↦ rw ((entry-created x old).1) (v.channel_names x old)
      ]

  client_same : (p : ℕ) → client created.heap p ≡ client s.heap p
  client_same = client-made s.next_channel name s.heap free_address fresh_name

  no_client_made : (p : ℕ) → IsLiveClient created.heap p → IsLiveClient s.heap p
  unfolding alloc_channel
  no_client_made p l = l

  member_before :
      (x p : ℕ)
      → is_member (channel created.heap x) p ≡ true
      → is_member (channel s.heap x) p ≡ true
  member_before x p m = ground (
    arith,
    rw (channel-made s.next_channel name s.heap free_address fresh_name x) at m,
    no_member-new_channel name p,
  )

  People-created : People created.heap
  People-created =
      People-same s.heap created.heap (λ p. ap persona (client_same p)) no_client_made
        (λ x p m. v.people.members_registered x p (member_before x p m)) v.people

  pub IsVacant-created :
      (x : ℕ) → s.next_channel == x ≡ false → IsVacant created.heap x → IsVacant s.heap x
  IsVacant-created x other v =
      elim (live-made s.next_channel name s.heap free_address fresh_name x v.0) [
        | inl same ↦ absurd (ground (arith, same, other))
        | inr old ↦ (old, rw ((entry-created x old).1) at v.1)
      ]

  pub Inv-created : is_valid_channel_name name ≡ true → Inv created
  Inv-created valid = record {
    linked = Linked-made s.next_channel name s.heap free_address fresh_name v.linked;
    people = People-created;
    clients_in = unfold alloc_channel client in v.clients_in;
    clients_listed = unfold alloc_channel client in v.clients_listed;
    channels_in =
        Each-insert (ChannelEntry created.heap) (to_lower name) s.next_channel s.channels
          (Each-map (ChannelEntry s.heap) (ChannelEntry created.heap)
            (λ key x e. ((entry-created x e.0).0, rw ((entry-created x e.0).1) e.1)) s.channels
            v.channels_in)
          (live-created, rw channel-created (unfold new_channel in refl));
    channels_listed = listed-created;
    channel_names = named-created valid;
    client_fresh = unfold alloc_channel in v.client_fresh;
    channel_fresh = λ x live.
        elim (live-made s.next_channel name s.heap free_address fresh_name x live) [
          | inl same ↦ omega (arith, same)
          | inr old ↦ omega (arith, v.channel_fresh x old)
        ];
  }
