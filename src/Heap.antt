-- ===== src/Heap.antt =====
-- The objects that the pointers of the program lead to: clients and channels, each at an address.
-- The methods of Client.cpp and channel/Channel.cpp that follow pointers. To follow a pointer to
-- a deleted object is undefined in C++; here it reads a blank object and writes nothing.
use ft_irc.Base.{
  ℕ, Option, none, some, List, [], ◌∷◌, Text, ◌==◌, if◌then◌else◌, contains, push_back,
}
pub mod Quiet
pub mod Live
pub mod Silent
pub mod Delivery
pub mod Broadcast
use mathlib.Core.Option
use ft_irc.Map.{values}
use ft_irc.Client.{Client, new_client, send_reply}
use ft_irc.Channel.{Channel, new_channel}

pub record Heap : Type 0 where
  pub client_at : ℕ → Option Client
  pub channel_at : ℕ → Option Channel

-- `*p` for a `Client *` and for a `Channel *`.
unfoldable pub client : Heap → ℕ → Client
client h p = elim (h.client_at p) [ none ↦ new_client 0 0 | some c ↦ c ]

unfoldable pub channel : Heap → ℕ → Channel
channel h p = elim (h.channel_at p) [ none ↦ new_channel [] | some c ↦ c ]

-- A method call `p->f()` that changes the object.
unfoldable pub on_client : ℕ → (Client → Client) → Heap → Heap
on_client p f h = record h {
  client_at = λ q. if p == q then Option.map f (h.client_at q) else h.client_at q;
}

unfoldable pub on_channel : ℕ → (Channel → Channel) → Heap → Heap
on_channel p f h = record h {
  channel_at = λ q. if p == q then Option.map f (h.channel_at q) else h.channel_at q;
}

unfoldable pub send_to_one : ℕ → Text → Heap → Heap
send_to_one user message = on_client user (send_reply message)

-- `for (...) members[i]->sendReply(message);`
unfoldable pub send_each : List ℕ → Text → Heap → Heap
send_each [] message h = h
send_each (m ∷ ms) message h = send_each ms message (send_to_one m message h)

unfoldable pub send_to_all : ℕ → Text → Heap → Heap
send_to_all ch message h = send_each (channel h ch).members message h

unfoldable pub send_each_except : ℕ → List ℕ → Text → Heap → Heap
send_each_except except [] message h = h
send_each_except except (m ∷ ms) message h =
    send_each_except except ms message (if m == except then h else send_to_one m message h)

unfoldable pub send_to_all_except : ℕ → ℕ → Text → Heap → Heap
send_to_all_except ch except message h = send_each_except except (channel h ch).members message h

-- The loop over the members of one joined channel, with the set of those who were notified.
unfoldable pub notify_members : Text → List ℕ → List ℕ → Heap → List ℕ × Heap
notify_members notice [] notified h = (notified, h)
notify_members notice (m ∷ ms) notified h =
    notify_members notice ms (if contains notified m then notified else push_back notified m)
      (if contains notified m then h else send_to_one m notice h)

-- The loop over the joined channels.
unfoldable pub notify_channels : Text → List ℕ → List ℕ → Heap → Heap
notify_channels notice [] notified h = h
notify_channels notice (ch ∷ chs) notified h =
    let (notified', h') = notify_members notice (channel h ch).members notified h in
    notify_channels notice chs notified' h'

unfoldable pub broadcast_quit : ℕ → Text → Heap → Heap
broadcast_quit this notice h =
    notify_channels notice (values (client h this).joined_channels) (this ∷ []) h

unfoldable pub broadcast_nick_change : ℕ → Text → Heap → Heap
broadcast_nick_change this notice h =
    let h' = send_to_one this notice h in
    notify_channels notice (values (client h' this).joined_channels) (this ∷ []) h'
