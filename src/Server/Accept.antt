-- ===== src/Server/Accept.antt =====
-- A new connection, and the server before the first one.
use ft_irc.Server.Alloc.{client-alloc, live-alloc, of_live-alloc, Linked-alloc}
use ft_irc.Reply.{to_lower}
use ft_irc.Server.People.{Credentials, People, not_empty-to_lower, WellNamed, WellNamed-new_client}
use ft_irc.Base.{
  ℕ, ◌≡◌, ◌==◌, suc, refl, ◌∷◌, subst, true, false, none, some, inl, inr, if◌then◌else◌, Bool-cases,
  Option-cases, Text, [], List, contains, arith, if_both, ==_iff, is_empty,
}
use ft_irc.Map.{lookup, lookup-insert, insert, nat_key, text_key}
use ft_irc.Map.Each.{Each-insert, Each-map}
use ft_irc.Client.{Client, new_client}
use ft_irc.Channel.{new_channel}
use ft_irc.Heap.{client, channel}
use ft_irc.Heap.Quiet.{IsLiveClient}
use ft_irc.Links.{IsSettled-new_channel}
use ft_irc.Links.Delete.{IsRoom-new_channel}
use ft_irc.Server.{Server, PollFd}
use ft_irc.Server.Inv.{Inv, ClientEntry, Inv-shell}
use ft_irc.Loop.{accept_new_client, alloc_client, Accepted, refused, blocking, accepted}

module _ (fd : ℕ) (c : Client) (s : Server) (polls : List PollFd) where
  abbrev with_client : Server
  with_client = record s {
    poll_fds = polls;
    clients = insert fd s.next_client s.clients;
    heap = alloc_client s.next_client c s.heap;
    next_client = suc s.next_client;
  }

  module _ (v : Inv s) (unused : lookup fd s.clients ≡ none) (same_fd : c.fd ≡ fd)
      (joined : c.joined_channels ≡ []) (invited : c.invited_channels ≡ [])
      (stranger : c.is_registered ≡ false) (nameless : c.nickname ≡ []) (named : WellNamed c) where
    free_address : s.heap.client_at s.next_client ≡ none
    free_address = elim (Option-cases (s.heap.client_at s.next_client)) [
      | inl e ↦ e
      | inr live ↦ absurd (omega (arith, v.client_fresh s.next_client live))
    ]

    made_here : client with_client.heap s.next_client ≡ c
    made_here = rw (client-alloc s.next_client c s.heap free_address s.next_client) (ground arith)

    old_here : (p : ℕ) → IsLiveClient s.heap p → client with_client.heap p ≡ client s.heap p
    old_here p l =
        rw (client-alloc s.next_client c s.heap free_address p) (ground (arith, v.client_fresh p l))

    entry_here : (f p : ℕ) → ClientEntry s.heap f p → ClientEntry with_client.heap f p
    entry_here f p e =
        (live-alloc s.next_client c s.heap free_address p e.0, rw (old_here p e.0) e.1)

    listed_here :
        (p : ℕ)
        → IsLiveClient with_client.heap p
        → lookup (client with_client.heap p).fd with_client.clients ≡ some p
    listed_here p live = elim (of_live-alloc s.next_client c s.heap free_address p live) [
      | inl same ↦
          (subst
            (λ x.
              lookup (client with_client.heap x).fd (insert fd s.next_client s.clients) ≡ some x)
            same
            (rw (made_here, same_fd, lookup-insert fd fd s.next_client s.clients) (ground arith)))
      | inr old ↦
          rw (old_here p old, lookup-insert fd (client s.heap p).fd s.next_client s.clients)
            (ground (arith, v.clients_listed p old, unused))
    ]

    client_now :
        (p : ℕ) → client with_client.heap p ≡ (if s.next_client == p then c else client s.heap p)
    client_now = client-alloc s.next_client c s.heap free_address

    same_person :
        (p q : ℕ)
        → IsLiveClient with_client.heap p
        → IsLiveClient with_client.heap q
        → is_empty (if s.next_client == p then c else client s.heap p).nickname ≡ false
        → to_lower (if s.next_client == p then c else client s.heap p).nickname
          ≡ to_lower (if s.next_client == q then c else client s.heap q).nickname
        → p ≡ q
    same_person p q a b n e = elim (Bool-cases (s.next_client == p)) [
      | inl is_p ↦ absurd (ground (arith, nameless, rw is_p at n))
      | inr not_p ↦ elim (Bool-cases (s.next_client == q)) [
        | inl is_q ↦
            let m = not_empty-to_lower _ _ (rw (not_p, is_q) at e) (rw not_p at n) in
            absurd (ground (arith, nameless, m))
        | inr not_q ↦
            v.people.nicknames p q (old_live p not_p a) (old_live q not_q b) (rw not_p at n)
              (rw (not_p, not_q) at e)
      ]
    ]
      where
        old_live :
            (r : ℕ)
            → s.next_client == r ≡ false
            → IsLiveClient with_client.heap r
            → IsLiveClient s.heap r
        old_live r other l = elim (of_live-alloc s.next_client c s.heap free_address r l) [
          | inl same ↦ absurd (ground (arith, same, other))
          | inr old ↦ old
        ]

    -- No one is at the new address before.
    stranger_there : (client s.heap s.next_client).is_registered ≡ false
    unfolding client new_client
    stranger_there = rw (client, free_address) refl

    People-with_client : People with_client.heap
    People-with_client = record {
      credentials = λ p. rw (client_now p) (
          if_both Credentials (s.next_client == p) _ _ (λ e r. absurd (ground (arith, stranger, r)))
            (λ e. v.people.credentials p));
      well_named = λ p.
          rw (client_now p)
            (if_both WellNamed (s.next_client == p) _ _ (λ e. named) (λ e. v.people.well_named p));
      nicknames = λ p q a b. rw (client_now p, client_now q) (same_person p q a b);
      members_registered = λ x p m.
          let r = v.people.members_registered x p (unfold channel in m) in
          rw (client_now p) (ground (arith, r, stranger_there, ==_iff s.next_client p));
    }

    Inv-with_client : Inv with_client
    unfolding channel
    Inv-with_client = record {
      linked = Linked-alloc s.next_client c s.heap free_address joined invited v.linked;
      people = People-with_client;
      clients_in =
          Each-insert (ClientEntry with_client.heap) fd s.next_client s.clients
            (Each-map (ClientEntry s.heap) (ClientEntry with_client.heap) entry_here s.clients
              v.clients_in)
            ((c, ground arith), rw made_here same_fd);
      clients_listed = listed_here;
      channels_in = v.channels_in;
      channels_listed = v.channels_listed;
      channel_names = v.channel_names;
      client_fresh = λ p live. elim (of_live-alloc s.next_client c s.heap free_address p live) [
        | inl same ↦ omega (arith, same)
        | inr old ↦ omega (arith, v.client_fresh p old)
      ];
      channel_fresh = v.channel_fresh;
    }

-- What `accept` reports is a descriptor that no connection has.
abbrev pub IsUnused : Accepted → Server → Type 0
IsUnused refused s = Unit
IsUnused blocking s = Unit
IsUnused (accepted fd ip) s = lookup fd s.clients ≡ none

-- If the invariant holds and the descriptor of the new connection, if there is one, is not in
-- the table of connections, the invariant holds after the connection is accepted.
pub Inv-accept_new_client :
    (now : ℕ) (r : Accepted) (s : Server) → IsUnused r s → Inv s → Inv (accept_new_client now r s)
unfolding accept_new_client new_client
Inv-accept_new_client now refused s u v = Inv-shell s _ s.to_disconnected s.closing v
Inv-accept_new_client now blocking s u v = v
Inv-accept_new_client now (accepted fd ip) s u v =
    Inv-with_client fd (record (new_client fd now) { ip = ip }) s _ v u refl refl refl refl refl
      (WellNamed-new_client fd now)

-- `Server::Server` before the first connection: the listening socket, and no objects.
abbrev pub new_server : ℕ → Text → Server
new_server server_fd password = record {
  server_fd = server_fd;
  password = password;
  poll_fds = record { fd = server_fd; pollin = true; pollout = false } ∷ [];
  clients = [];
  channels = [];
  to_disconnected = [];
  closing = [];
  heap = record { client_at = λ p. none; channel_at = λ x. none };
  next_client = 0;
  next_channel = 0;
}

pub Inv-new_server : (server_fd : ℕ) (password : Text) → Inv (new_server server_fd password)
unfolding channel client new_channel new_client lookup contains
Inv-new_server server_fd password = record {
  people = record {
    credentials = λ p r. absurd (cc);
    well_named = λ p. WellNamed-new_client 0 0;
    nicknames = λ p q l. absurd (ground (arith, l.1));
    members_registered = λ x p m. absurd (cc);
  };
  linked = record {
    rooms = λ ch. IsRoom-new_channel [];
    settled = λ ch. IsSettled-new_channel [];
    member_joined = λ ch p m. absurd (ground arith);
    joined_member = λ p name ch e. absurd (cc);
    invited_both = λ ch p. refl;
    keys = λ p. tt;
    names = λ ch ch' l l' e. absurd (ground (arith, l.1));
  };
  clients_in = tt;
  clients_listed = λ p l. absurd (ground (arith, l.1));
  channels_in = tt;
  channels_listed = λ x l. absurd (ground (arith, l.1));
  channel_names = λ x l. absurd (ground (arith, l.1));
  client_fresh = λ p l. absurd (ground (arith, l.1));
  channel_fresh = λ x l. absurd (ground (arith, l.1));
}
