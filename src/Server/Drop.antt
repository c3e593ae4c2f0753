-- ===== src/Server/Drop.antt =====
-- The invariant through `Server::disconnect`.
use ft_irc.Server.Vacant.{IsVacant}
use ft_irc.Server.People.{Credentials, People, WellNamed, WellNamed-new_client}
use ft_irc.Server.{Server}
use ft_irc.Heap.{client, channel}
use ft_irc.Map.{lookup, erase, text_key, nat_key, lookup-erase}
use ft_irc.Map.Each.{Each-lookup, Each-map, Each-erase}
use ft_irc.Client.{Client, new_client}
use ft_irc.Channel.{is_member, is_channel_empty}
use ft_irc.Heap.Quiet.{IsLiveClient, IsLiveChannel}
use ft_irc.Server.Inv.{ClientEntry, Inv, ChannelEntry}
use ft_irc.Server.Disconnect.{free_client}
use ft_irc.Links.Withdraw.{
  client-withdraw_invitations, dropped, client-dropped, IsLiveChannel-withdraw,
  of_IsLiveChannel-withdraw, name-dropped, Linked-dropped, members-dropped,
}
use ft_irc.Base.{ℕ, ◌≡◌, ap, ◌≢◌, false, Option, some, arith, ==_iff, ◌==◌, if_both, true}

-- The client is in no channel any more: its invitations are withdrawn, its object is deleted and
-- its entry is erased.
module _ (fd u : ℕ) (s : Server) (v : Inv s) (found : lookup fd s.clients ≡ some u)
    (out : (x : ℕ) → is_member (channel s.heap x) u ≡ false) where
  abbrev without_client : Server
  without_client = record s { clients = erase fd s.clients; heap = dropped u s.heap out v.linked }

  entry_u : ClientEntry s.heap fd u
  entry_u = Each-lookup (ClientEntry s.heap) fd u s.clients v.clients_in found

  client_kept : (p : ℕ) → u ≢ p → client without_client.heap p ≡ client s.heap p
  client_kept p other = rw (client-dropped u s.heap out v.linked p) (ground (arith, other))

  live_kept : (p : ℕ) → u ≢ p → IsLiveClient s.heap p → IsLiveClient without_client.heap p
  unfolding free_client
  live_kept p other (c, e) = (
    c,
    ground (
      arith,
      other,
      e,
      ap (λ (f : ℕ → Option Client). f p)
          (client-withdraw_invitations u (client s.heap u).invited_channels s.heap),
    ),
  )

  of_live_kept : (p : ℕ) → IsLiveClient without_client.heap p → IsLiveClient s.heap p × (u ≢ p)
  unfolding free_client
  of_live_kept p (c, e) = (
    (
      c,
      ground (
        arith,
        e,
        ap (λ (f : ℕ → Option Client). f p)
            (client-withdraw_invitations u (client s.heap u).invited_channels s.heap),
      ),
    ),
    ground (arith, e),
  )

  different : (f p : ℕ) → ClientEntry s.heap f p → f ≢ fd → u ≢ p
  different f p e other same = other (ground (arith, entry_u.1, e.1, same))

  IsLiveChannel-kept : (x : ℕ) → IsLiveChannel s.heap x → IsLiveChannel without_client.heap x
  IsLiveChannel-kept x l =
      unfold free_client in IsLiveChannel-withdraw u (client s.heap u).invited_channels s.heap x l

  of_IsLiveChannel-kept : (x : ℕ) → IsLiveChannel without_client.heap x → IsLiveChannel s.heap x
  of_IsLiveChannel-kept x l =
      of_IsLiveChannel-withdraw u (client s.heap u).invited_channels s.heap x
        (unfold free_client in l)

  name_kept : (x : ℕ) → (channel without_client.heap x).name ≡ (channel s.heap x).name
  name_kept = name-dropped u s.heap out v.linked

  People-without_client : People without_client.heap
  unfolding new_client
  People-without_client = record {
    credentials = λ p.
        rw (client-dropped u s.heap out v.linked p)
          (if_both Credentials (u == p) _ _ (λ e r. absurd (cc)) (λ e. v.people.credentials p));
    well_named = λ p. rw (client-dropped u s.heap out v.linked p) (
        if_both WellNamed (u == p) _ _ (λ e. WellNamed-new_client 0 0)
          (λ e. v.people.well_named p));
    nicknames = λ p q a b.
        let (old_p, other_p) = of_live_kept p a in
        let (old_q, other_q) = of_live_kept q b in
        rw (client_kept p other_p, client_kept q other_q) (v.people.nicknames p q old_p old_q);
    members_registered = λ x p m.
        let m' : is_member (channel s.heap x) p ≡ true =
          ground (arith, m, members-dropped u s.heap out v.linked x) in
        rw (client_kept p (λ same. ground (arith, same, m', out x)))
          (v.people.members_registered x p m');
  }

  pub Inv-without_client : Inv without_client
  Inv-without_client = record {
    linked = Linked-dropped u s.heap out v.linked;
    people = People-without_client;
    clients_in =
        Each-map _ (ClientEntry without_client.heap)
          (λ f p e.
            let other = different f p e.0 (λ q. ground (arith, e.1, ==_iff f fd, q)) in
            (live_kept p other e.0.0, rw (client_kept p other) e.0.1))
          (erase fd s.clients) (Each-erase (ClientEntry s.heap) fd s.clients v.clients_in);
    clients_listed = λ p l.
        let (old, other) = of_live_kept p l in
        rw (client_kept p other, lookup-erase)
          (ground (arith, v.clients_listed p old, found, other, ==_iff fd (client s.heap p).fd));
    channels_in =
        Each-map (ChannelEntry s.heap) (ChannelEntry without_client.heap)
          (λ key x e. (IsLiveChannel-kept x e.0, rw (name_kept x) e.1)) s.channels v.channels_in;
    channels_listed = λ x l. rw (name_kept x) (v.channels_listed x (of_IsLiveChannel-kept x l));
    channel_names = λ x l. rw (name_kept x) (v.channel_names x (of_IsLiveChannel-kept x l));
    client_fresh = λ p l. v.client_fresh p (of_live_kept p l).0;
    channel_fresh = λ x l. v.channel_fresh x (of_IsLiveChannel-kept x l);
  }

  pub IsVacant-without_client : (x : ℕ) → IsVacant without_client.heap x → IsVacant s.heap x
  unfolding is_channel_empty
  IsVacant-without_client x w =
      (of_IsLiveChannel-kept x w.0, rw (members-dropped u s.heap out v.linked x) at w.1)
