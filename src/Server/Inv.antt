-- ===== src/Server/Inv.antt =====
-- The invariant of the server: its maps lead to the objects that there are and to no other, and
-- the objects are linked.
use ft_irc.Commands.Rooms.{is_valid_channel_name}
use ft_irc.Server.People.{People-on_client, People, KeepsPerson}
use ft_irc.Server.People.Moves.{People-Moves}
use ft_irc.Reply.{to_lower}
use ft_irc.Server.{on_heap, find_channel, Server, PollFd}
use ft_irc.Heap.{client, channel, on_client, Heap}
use ft_irc.Map.{text_key, nat_key, lookup, Map}
use ft_irc.Links.{Linked}
use ft_irc.Map.Each.{Each, Each-lookup, Each-map}
use ft_irc.Client.{Client}
use ft_irc.Channel.{is_channel_empty}
use ft_irc.Heap.Quiet.{IsLiveClient, IsLiveChannel}
use ft_irc.Base.{Text, ℕ, ◌<◌, ◌≡◌, ap, ◌∙◌, false, some, Bool, List, true}
use ft_irc.Links.Private.{
  SameHandles-of-objects, SameHandles-on_client, Linked-on_client, KeepsLinks, SameHandles,
}
use ft_irc.Links.Objects.{SameObjects-Moves}
use ft_irc.Links.Moves.{Linked-Moves, Moves}

abbrev pub ClientEntry : Heap → ℕ → ℕ → Type 0
ClientEntry h fd p = IsLiveClient h p × ((client h p).fd ≡ fd)

abbrev pub ChannelEntry : Heap → Text → ℕ → Type 0
ChannelEntry h key ch = IsLiveChannel h ch × (to_lower (channel h ch).name ≡ key)

pub record Inv (s : Server) : Type 0 where
  pub linked : Linked s.heap
  pub people : People s.heap
  pub clients_in : Each (ClientEntry s.heap) s.clients
  pub clients_listed :
      (p : ℕ) → IsLiveClient s.heap p → lookup (client s.heap p).fd s.clients ≡ some p
  pub channels_in : Each (ChannelEntry s.heap) s.channels
  pub channels_listed :
      (x : ℕ)
      → IsLiveChannel s.heap x
      → lookup (to_lower (channel s.heap x).name) s.channels ≡ some x
  pub channel_names :
      (x : ℕ) → IsLiveChannel s.heap x → is_valid_channel_name (channel s.heap x).name ≡ true
  pub client_fresh : (p : ℕ) → IsLiveClient s.heap p → p < s.next_client
  pub channel_fresh : (x : ℕ) → IsLiveChannel s.heap x → x < s.next_channel

-- Every channel that is there has a member.
abbrev pub Populated : Server → Type 0
Populated s = (x : ℕ) → IsLiveChannel s.heap x → is_channel_empty (channel s.heap x) ≡ false

pub Inv-heap :
    (s : Server) (h' : Heap)
    → SameHandles s.heap h'
    → Linked h'
    → People h'
    → Inv s
    → Inv (record s { heap = h' })
Inv-heap s h' t l people v = record {
  linked = l;
  people = people;
  clients_in =
      Each-map (ClientEntry s.heap) (ClientEntry h')
        (λ fd p e. (t.live_client p e.0, t.same_fd p e.0 ∙ e.1)) s.clients v.clients_in;
  clients_listed = λ p live.
      rw (t.same_fd p (t.of_live_client p live)) (v.clients_listed p (t.of_live_client p live));
  channels_in =
      Each-map (ChannelEntry s.heap) (ChannelEntry h')
        (λ key x e. (t.live_channel x e.0, ap to_lower (t.same_name x) ∙ e.1)) s.channels
        v.channels_in;
  channels_listed = λ x live. rw (t.same_name x) (v.channels_listed x (t.of_live_channel x live));
  channel_names = λ x live. rw (t.same_name x) (v.channel_names x (t.of_live_channel x live));
  client_fresh = λ p live. v.client_fresh p (t.of_live_client p live);
  channel_fresh = λ x live. v.channel_fresh x (t.of_live_channel x live);
}

-- The invariant is about the objects and the two maps to them.
pub Inv-shell :
    (s : Server) (polls : List PollFd) (marked closing : Map ℕ Text)
    → Inv s
    → Inv (record s { poll_fds = polls; to_disconnected = marked; closing = closing })
Inv-shell s polls marked closing v = record {
  linked = v.linked;
  people = v.people;
  clients_in = v.clients_in;
  clients_listed = v.clients_listed;
  channels_in = v.channels_in;
  channels_listed = v.channels_listed;
  channel_names = v.channel_names;
  client_fresh = v.client_fresh;
  channel_fresh = v.channel_fresh;
}

pub Inv-Moves :
    {L : ℕ → Bool} (s : Server) (f : Heap → Heap)
    → Moves L s.heap (f s.heap)
    → Inv s
    → Inv (on_heap f s)
unfolding on_heap
Inv-Moves s f m v =
    Inv-heap s (f s.heap) (SameHandles-of-objects (SameObjects-Moves m)) (Linked-Moves m v.linked)
      (People-Moves m v.people) v

pub Inv-on_client :
    (s : Server) (p : ℕ) (f : Client → Client)
    → KeepsLinks f
    → (IsLiveClient s.heap p → KeepsPerson p f s.heap)
    → Inv s
    → Inv (on_heap (on_client p f) s)
unfolding on_heap
Inv-on_client s p f k o v =
    Inv-heap s _ (SameHandles-on_client p f s.heap k) (Linked-on_client p f s.heap k v.linked)
      (People-on_client p f s.heap o v.people) v

-- A channel that is found is there, and so is a client.
pub live_of_find_channel :
    (s : Server) (name : Text) {ch : ℕ}
    → Inv s
    → find_channel s name ≡ some ch
    → ChannelEntry s.heap (to_lower name) ch
unfolding find_channel
live_of_find_channel s name {ch} v e =
    Each-lookup (ChannelEntry s.heap) (to_lower name) ch s.channels v.channels_in e
