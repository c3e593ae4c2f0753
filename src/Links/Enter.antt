-- ===== src/Links/Enter.antt =====
-- A client enters a channel, and one is invited.
use ft_irc.Heap.Live.{of_live-on_client_channel, of_live-on_channel, live_of_member}
use ft_irc.Links.Leave.{IsRoom-if}
use ft_irc.Base.{
  ℕ, ◌≡◌, sym, true, false, some, arith, Text, text_eq_iff, text_eq_refl, ◌==◌, if◌then◌else◌,
  remove, push_back, contains-remove, contains-push_back, Distinct-remove, Distinct-push_back,
  Bool-cases, inl, inr,
}
use ft_irc.Map.{UniqueKeys-insert, lookup, insert, text_key, lookup-insert, nat_key}
use ft_irc.Client.{add_joined_channels, remove_invited_channel}
use ft_irc.Channel.{Channel, is_member, remove_member_from_invited_users}
use ft_irc.Heap.{Heap, client, channel, on_client, on_channel}
use ft_irc.Heap.Quiet.{IsLiveClient, IsLiveChannel}
use ft_irc.Handlers.Member.{add_member}
use ft_irc.Links.{IsRoom, Linked, names-keep, IsSettled-if}

-- What the lists of a channel are after an entry.
abbrev pub with_member : ℕ → Channel → Channel
with_member u c = record c {
  members = push_back c.members u;
  invited_users = remove u c.invited_users;
}

pub IsRoom-with_member :
    (u : ℕ) (c : Channel) → is_member c u ≡ false → IsRoom c → IsRoom (with_member u c)
IsRoom-with_member u c n r = record {
  operators_in = λ p e. ground (arith, contains-push_back c.members u p, r.operators_in p);
  invited_out = λ p e. ground (
    arith,
    contains-push_back c.members u p,
    contains-remove u c.invited_users p,
    r.invited_out p,
  );
  members_distinct = Distinct-push_back c.members u r.members_distinct n;
  operators_distinct = r.operators_distinct;
  invited_distinct = Distinct-remove u c.invited_users r.invited_distinct;
}

-- The first steps of `handleJoin`: the invitation is used up, and the client is a member.
abbrev pub let_in : ℕ → ℕ → Heap → Heap
let_in ch u h =
    add_member ch u (
      on_client u (remove_invited_channel ch)
        (on_channel ch (remove_member_from_invited_users u) h))

of_live-add_member :
    (ch u : ℕ) (h : Heap) (x : ℕ) → IsLiveChannel (add_member ch u h) x → IsLiveChannel h x
unfolding add_member
of_live-add_member ch u h x e = elim (Bool-cases (is_member (channel h ch) u)) [
  | inl m ↦ rw (m, add_member) at e
  | inr m ↦
      of_live-on_channel ch _ h x (of_live-on_client_channel u _ _ x (rw (m, add_member) at e))
]

module _ (ch u : ℕ) (h : Heap) (lc : IsLiveChannel h ch) (lu : IsLiveClient h u)
    (n : is_member (channel h ch) u ≡ false) where
  pub channel-let_in :
      (x : ℕ)
      → channel (let_in ch u h) x ≡ (if ch == x then with_member u (channel h ch) else channel h x)
  unfolding add_member remove_member_from_invited_users channel on_channel on_client
  channel-let_in x = ground arith

  pub client-let_in :
      (p : ℕ)
      → client (let_in ch u h) p ≡ (
          if u == p
          then record (client h u) {
            joined_channels = insert (channel h ch).name ch (client h u).joined_channels;
            invited_channels = remove ch (client h u).invited_channels;
          }
          else client h p)
  unfolding add_member remove_member_from_invited_users remove_invited_channel add_joined_channels
      channel client on_channel on_client
  client-let_in p = ground arith

  pub name-let_in : (x : ℕ) → (channel (let_in ch u h) x).name ≡ (channel h x).name
  name-let_in x = rw (channel-let_in x) (ground arith)

  pub live-let_in : (x : ℕ) → IsLiveChannel (let_in ch u h) x → IsLiveChannel h x
  live-let_in x e =
      of_live-on_channel ch _ h x
        (of_live-on_client_channel u _ _ x (of_live-add_member ch u _ x e))

  module _ (l : Linked h) where
    -- No other channel that the client is in has the name.
    no_clash : (x : ℕ) → lookup (channel h ch).name (client h u).joined_channels ≡ some x → ⊥
    no_clash x e =
        let j = l.joined_member u (channel h ch).name x e in
        let same = l.names ch x lc (live_of_member h x u j.0) (sym j.1) in cc (n, j.0, same)

    member_joined-let_in :
        (x p : ℕ)
        → is_member (channel (let_in ch u h) x) p ≡ true
        → lookup (channel (let_in ch u h) x).name (client (let_in ch u h) p).joined_channels
          ≡ some x
    member_joined-let_in x p =
        rw (channel-let_in x, client-let_in p)
          (λ e. ground (
            arith,
            contains-push_back (channel h ch).members u p,
            lookup-insert (channel h ch).name (channel h x).name ch (client h u).joined_channels,
            lookup-insert (channel h ch).name (channel h ch).name ch (client h u).joined_channels,
            text_eq_iff (channel h ch).name (channel h x).name,
            text_eq_refl (channel h ch).name,
            l.member_joined x p,
            l.member_joined ch p,
            no_clash x,
          ))

    joined_member-let_in :
        (p : ℕ) (name : Text) (x : ℕ)
        → lookup name (client (let_in ch u h) p).joined_channels ≡ some x
        → (is_member (channel (let_in ch u h) x) p ≡ true)
          × ((channel (let_in ch u h) x).name ≡ name)
    joined_member-let_in p name x =
        rw (channel-let_in x, client-let_in p)
          (λ e. ground (
            arith,
            contains-push_back (channel h ch).members u p,
            lookup-insert (channel h ch).name name ch (client h u).joined_channels,
            text_eq_iff (channel h ch).name name,
            l.joined_member p name x,
          ))

    pub Linked-let_in : Linked (let_in ch u h)
    Linked-let_in = record {
      rooms = λ x.
          rw (channel-let_in x)
            (IsRoom-if (ch == x) _ _ (IsRoom-with_member u _ n (l.rooms ch)) (l.rooms x));
      settled =
          λ x. rw (channel-let_in x) (IsSettled-if (ch == x) _ _ (l.settled ch) (l.settled x));
      member_joined = member_joined-let_in;
      joined_member = joined_member-let_in;
      invited_both = λ x p.
          rw (channel-let_in x, client-let_in p)
            (ground (
              arith,
              contains-remove u (channel h ch).invited_users p,
              contains-remove ch (client h u).invited_channels x,
              l.invited_both x p,
            ));
      keys = λ p. rw (client-let_in p) (
          ground (
            arith,
            UniqueKeys-insert (channel h ch).name ch (client h u).joined_channels (l.keys u),
            l.keys p,
          ));
      names = names-keep h _ live-let_in name-let_in l.names;
    }
