-- ===== src/Server/Deletion.antt =====
-- The invariant through `deleteChannel` on a channel without members.
use ft_irc.Server.Vacant.{IsVacant}
use ft_irc.Server.People.{People-same, People}
use ft_irc.Server.People.Moves.{persona_of}
use ft_irc.Reply.{to_lower}
use ft_irc.Client.{remove_invited_channel}
use ft_irc.Server.{free_channel, clear_invited, Server}
use ft_irc.Heap.{channel, Heap, client}
use ft_irc.Map.{lookup, erase, values, text_key, nat_key, lookup-erase}
use ft_irc.Map.Each.{Each-lookup, contains-values, Each-map, Each-erase}
use ft_irc.Channel.{new_channel, is_channel_empty, Channel, is_member}
use ft_irc.Heap.Quiet.{IsLiveClient, IsLiveChannel}
use ft_irc.Server.Inv.{ChannelEntry, Inv, ClientEntry}
use ft_irc.Base.{
  ◌==◌, if◌then◌else◌, contains, Text, ℕ, ◌≡◌, ◌≢◌, true, some, List, [], ◌∷◌, arith, text_eq,
  text_eq_iff, refl, ap, ◌∙◌, false, Option,
}
use ft_irc.Links.Delete.{
  channel-gone, live-gone, channels-clear_invited, Linked-gone, no_member-new_channel,
}
use ft_irc.Links.Objects.{
  SameObjects-refl, SameObjects-trans, SameObjects-on_client, IsLiveClient-same,
  of_IsLiveClient-same, identity-same, Identity, SameObjects,
}

pub SameObjects-clear_invited :
    (ch : ℕ) (ps : List ℕ) (h : Heap) → SameObjects h (clear_invited ch ps h)
unfolding clear_invited remove_invited_channel
SameObjects-clear_invited ch [] h = SameObjects-refl h
SameObjects-clear_invited ch (p ∷ ps) h =
    SameObjects-trans (SameObjects-on_client p _ h (λ c. refl)) (SameObjects-clear_invited ch ps _)

module _ (key : Text) (ch : ℕ) (s : Server) (v : Inv s) (found : lookup key s.channels ≡ some ch)
    (empty : is_channel_empty (channel s.heap ch) ≡ true) where
  abbrev deleted : Server
  deleted = record s {
    channels = erase key s.channels;
    heap = free_channel ch (clear_invited ch (values s.clients) s.heap);
  }

  all_listed : (p : ℕ) → IsLiveClient s.heap p → contains (values s.clients) p ≡ true
  all_listed p live = contains-values _ p s.clients (v.clients_listed p live)

  found_entry : ChannelEntry s.heap key ch
  found_entry = Each-lookup (ChannelEntry s.heap) key ch s.channels v.channels_in found

  channel-deleted :
      (x : ℕ) → channel deleted.heap x ≡ (if ch == x then new_channel [] else channel s.heap x)
  channel-deleted = channel-gone ch (values s.clients) s.heap all_listed empty

  of_live-deleted : (x : ℕ) → IsLiveChannel deleted.heap x → IsLiveChannel s.heap x × (ch ≢ x)
  of_live-deleted = live-gone ch (values s.clients) s.heap all_listed empty

  channel_kept : (x : ℕ) → ch ≢ x → channel deleted.heap x ≡ channel s.heap x
  channel_kept x other = rw (channel-deleted x) (ground arith)

  -- The clients are the same but for their invitations.
  clients_same : SameObjects s.heap (clear_invited ch (values s.clients) s.heap)
  clients_same = SameObjects-clear_invited ch (values s.clients) s.heap

  channel_entry :
      (k : Text) (x : ℕ)
      → ChannelEntry s.heap k x × (text_eq k key ≡ false)
      → ChannelEntry deleted.heap k x
  channel_entry k x (((c, e), named), other) = ((c, live_kept), rw (channel_kept x different) named)
    where
      different : ch ≢ x
      different same = ground (arith, text_eq_iff k key, found_entry.1, named, same)

      live_kept : deleted.heap.channel_at x ≡ some c
      live_kept =
          unfold free_channel in
          ground (
            arith,
            different,
            ap (λ (f : ℕ → Option Channel). f x)
                (channels-clear_invited ch (values s.clients) s.heap),
          )

  listed-deleted :
      (x : ℕ)
      → IsLiveChannel deleted.heap x
      → lookup (to_lower (channel deleted.heap x).name) deleted.channels ≡ some x
  listed-deleted x live =
      let (old, other) = of_live-deleted x live in
      rw (channel_kept x other, lookup-erase)
        (ground (
          arith,
          other,
          v.channels_listed x old,
          text_eq_iff key (to_lower (channel s.heap x).name),
        ))

  member_before :
      (x p : ℕ)
      → is_member (channel deleted.heap x) p ≡ true
      → is_member (channel s.heap x) p ≡ true
  member_before x p m = ground (arith, rw (channel-deleted x) at m, no_member-new_channel [] p)

  People-deleted : People deleted.heap
  unfolding free_channel client
  People-deleted =
      People-same s.heap deleted.heap (λ p. ap persona_of (identity-same _ _ clients_same p))
        (λ p l. of_IsLiveClient-same _ _ clients_same p l)
        (λ x p m. v.people.members_registered x p (member_before x p m)) v.people

  pub IsVacant-deleted : (x : ℕ) → IsVacant deleted.heap x → IsVacant s.heap x × (ch ≢ x)
  IsVacant-deleted x v =
      let (old, other) = of_live-deleted x v.0 in ((old, rw (channel_kept x other) at v.1), other)

  pub Inv-deleted : Inv deleted
  Inv-deleted = record {
    linked = Linked-gone ch (values s.clients) s.heap all_listed empty v.linked;
    people = People-deleted;
    clients_in =
        Each-map (ClientEntry s.heap) (ClientEntry deleted.heap)
          (λ fd p e.
            unfold free_channel client in
            (
              IsLiveClient-same _ _ clients_same p e.0,
              ap (λ (i : Identity). i.fd) (identity-same _ _ clients_same p) ∙ e.1,
            ))
          s.clients v.clients_in;
    clients_listed = λ p live.
        let old = of_IsLiveClient-same _ _ clients_same p (unfold free_channel in live) in
        unfold free_channel client in
        rw (ap (λ (i : Identity). i.fd) (identity-same _ _ clients_same p))
          (v.clients_listed p old);
    channels_in =
        Each-map _ (ChannelEntry deleted.heap) channel_entry (erase key s.channels)
          (Each-erase (ChannelEntry s.heap) key s.channels v.channels_in);
    channels_listed = listed-deleted;
    channel_names = λ x live.
        let (old, other) = of_live-deleted x live in
        rw (channel_kept x other) (v.channel_names x old);
    client_fresh = λ p live.
        v.client_fresh p (of_IsLiveClient-same _ _ clients_same p (unfold free_channel in live));
    channel_fresh = λ x live. v.channel_fresh x (of_live-deleted x live).0;
  }
