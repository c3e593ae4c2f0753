-- ===== src/Server.antt =====
-- network/Server.hpp, network/ChannelHandler.cpp, network/ServerUtils.cpp and
-- network/ServerDisconnect.cpp. `new` returns an address that was never used before.
pub mod Disconnect
pub mod People
pub mod Inv
pub mod Rooms
pub mod Deletion
pub mod Vacant
pub mod Keeps
pub mod Changes
pub mod Found
pub mod Sweep
pub mod Alloc
pub mod Accept
pub mod Quit
pub mod Emptied
pub mod Drop
use mathlib.Core.Option
use ft_irc.Base.{
  ℕ, suc, Bool, true, false, ◌&&◌, Option, none, some, List, [], ◌∷◌, Text, text_eq, ◌==◌,
  if◌then◌else◌, ◌▷◌,
}
use ft_irc.Map.{Map, text_key, nat_key, lookup, insert, erase, values}
use ft_irc.Reply.{to_lower}
use ft_irc.Client.{remove_invited_channel}
use ft_irc.Channel.{Channel, new_channel}
use ft_irc.Heap.{Heap, client, on_client}

-- `struct pollfd`: `events` is POLLIN, POLLOUT or both. `revents` is what `poll` reports.
pub record PollFd : Type 0 where
  pub fd : ℕ
  pub pollin : Bool
  pub pollout : Bool

pub record Server : Type 0 where
  pub server_fd : ℕ
  pub password : Text
  pub poll_fds : List PollFd
  pub clients : Map ℕ ℕ
  pub channels : Map Text ℕ
  pub to_disconnected : Map ℕ Text
  pub closing : Map ℕ Text
  pub heap : Heap
  pub next_client : ℕ
  pub next_channel : ℕ

-- A call that changes only the objects.
unfoldable pub on_heap : (Heap → Heap) → Server → Server
on_heap f s = record s { heap = f s.heap }

unfoldable pub find_channel : Server → Text → Option ℕ
find_channel s name = lookup (to_lower name) s.channels

-- `new Channel(name)` and `delete channel`
unfoldable pub alloc_channel : ℕ → Channel → Heap → Heap
alloc_channel p c h = record h { channel_at = λ q. if p == q then some c else h.channel_at q }

unfoldable pub free_channel : ℕ → Heap → Heap
free_channel p h = record h { channel_at = λ q. if p == q then none else h.channel_at q }

unfoldable pub find_or_create_channel : Text → Server → ℕ × Server
find_or_create_channel name s =
    let key = to_lower name in
    elim (find_channel s key) [
      | some channel ↦ (channel, s)
      | none ↦ (
        s.next_channel,
        record s {
          channels = insert key s.next_channel s.channels;
          heap = alloc_channel s.next_channel (new_channel name) s.heap;
          next_channel = suc s.next_channel;
        },
      )
    ]

-- The loop of `clearInvitedUsers`.
unfoldable pub clear_invited : ℕ → List ℕ → Heap → Heap
clear_invited channel [] h = h
clear_invited channel (p ∷ ps) h =
    clear_invited channel ps (on_client p (remove_invited_channel channel) h)

unfoldable pub clear_invited_users : ℕ → Server → Server
clear_invited_users channel s = on_heap (clear_invited channel (values s.clients)) s

unfoldable pub delete_channel : Text → Server → Server
delete_channel name s = elim (lookup (to_lower name) s.channels) [
  | none ↦ s
  | some channel ↦
      record s { channels = erase (to_lower name) s.channels }
      ▷ clear_invited_users channel
      ▷ on_heap (free_channel channel)
]

-- `self` is the client's own address.
unfoldable pub nickname_taken_by : Heap → Text → ℕ → List ℕ → Bool
nickname_taken_by h nick self [] = false
nickname_taken_by h nick self (p ∷ ps) =
    let rest = nickname_taken_by h nick self ps in
    if p == self then rest else if text_eq (to_lower (client h p).nickname) nick then true else rest

unfoldable pub is_nickname_taken : Server → Text → ℕ → Bool
is_nickname_taken s nickname self =
    nickname_taken_by s.heap (to_lower nickname) self (values s.clients)

unfoldable pub check_password : Server → Text → Bool
check_password s password = text_eq s.password password

unfoldable pub client_by_nickname : Heap → Text → List ℕ → Option ℕ
client_by_nickname h nickname [] = none
client_by_nickname h nickname (p ∷ ps) =
    let rest = client_by_nickname h nickname ps in
    if (client h p).is_registered && text_eq (to_lower (client h p).nickname) (to_lower nickname)
    then some p
    else rest

unfoldable pub find_client_by_nickname : Server → Text → Option ℕ
find_client_by_nickname s nickname = client_by_nickname s.heap nickname (values s.clients)
