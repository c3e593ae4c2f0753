-- ===== src/Server/Disconnect.antt =====
-- network/ServerDisconnect.cpp: a client is marked, or told and left to be flushed, and closed
-- after the round.
use ft_irc.Base.{
  ℕ, Bool, true, false, none, some, List, [], ◌∷◌, ◌++◌, Text, codes, ◌==◌, if◌then◌else◌,
  push_back, ◌▷◌,
}
use ft_irc.Map.{Map, text_key, nat_key, lookup, insert, erase, has}
use ft_irc.Client.{Client}
use ft_irc.Channel.{is_member, is_channel_empty, remove_member_from_invited_users}
use ft_irc.Heap.{Heap, send_to_one, client, channel, on_client, on_channel, broadcast_quit}
use ft_irc.Handlers.Member.{command_of, remove_quit_user}
use ft_irc.Server.{Server, PollFd, on_heap, delete_channel}

unfoldable pub is_marked : Server → ℕ → Bool
is_marked s client_fd = has client_fd s.to_disconnected

unfoldable pub mark_for_disconnection : ℕ → Text → Server → Server
mark_for_disconnection client_fd reason s =
    if has client_fd s.to_disconnected
    then s
    else record s { to_disconnected = insert client_fd reason s.to_disconnected }

abbrev mark_closing : ℕ → Client → Client
mark_closing now c = record c { closing_since = now }

unfoldable pub disconnect_after_flush : ℕ → ℕ → Text → Server → Server
disconnect_after_flush now c reason s =
    on_heap
      (send_to_one c (
        codes "ERROR :Closing Link: " ++ (client s.heap c).ip ++ codes " (" ++ reason ++ codes ")"))
      s
    ▷ (λ t. record t { closing = insert (client t.heap c).fd reason t.closing })
    ▷ on_heap (on_client c (mark_closing now))

-- `Server::disconnectClient` of network/ServerUtils.cpp
unfoldable pub disconnect_client : ℕ → ℕ → Text → Server → Server
disconnect_client = disconnect_after_flush

-- The loop over the channels: the keys of those that the client leaves empty, and the objects.
unfoldable pub quit_channels : ℕ → Map Text ℕ → List Text → Heap → List Text × Heap
quit_channels user [] emptied h = (emptied, h)
quit_channels user ((key, ch) ∷ rest) emptied h =
    let h' = remove_quit_user ch user h in
    if is_member (channel h ch) user
    then quit_channels user rest
        (if is_channel_empty (channel h' ch) then push_back emptied key else emptied) h'
    else quit_channels user rest emptied h

unfoldable pub delete_channels : List Text → Server → Server
delete_channels [] s = s
delete_channels (key ∷ keys) s = delete_channels keys (delete_channel key s)

unfoldable pub withdraw_invitations : ℕ → List ℕ → Heap → Heap
withdraw_invitations user [] h = h
withdraw_invitations user (ch ∷ chs) h =
    withdraw_invitations user chs (on_channel ch (remove_member_from_invited_users user) h)

unfoldable pub remove_client_from_all_channels : ℕ → Text → Server → Server
remove_client_from_all_channels user reason s =
    let s1 =
      if (client s.heap user).is_registered
      then on_heap
          (broadcast_quit user (command_of s.heap user (codes "QUIT") (codes ":" ++ reason))) s
      else s in
    let (emptied, h2) = quit_channels user s1.channels [] s1.heap in
    let s3 = delete_channels emptied (record s1 { heap = h2 }) in
    on_heap (withdraw_invitations user (client s3.heap user).invited_channels) s3

-- `delete it->second`
unfoldable pub free_client : ℕ → Heap → Heap
free_client p h = record h { client_at = λ q. if p == q then none else h.client_at q }

-- The loop that takes one entry out of `_poll_fds`.
unfoldable pub erase_poll : ℕ → List PollFd → List PollFd
erase_poll client_fd [] = []
erase_poll client_fd (p ∷ ps) =
    let rest = erase_poll client_fd ps in if p.fd == client_fd then ps else p ∷ rest

-- `_poll_fds[0].events = POLLIN;`
unfoldable pub listen_again : List PollFd → List PollFd
listen_again [] = []
listen_again (p ∷ ps) = record p { pollin = true; pollout = false } ∷ ps

-- The entry of a closed client in `_clients`, and the object.
unfoldable pub drop_client : ℕ → Text → Server → Server
drop_client client_fd cause s = elim (lookup client_fd s.clients) [
  | none ↦ s
  | some p ↦
      remove_client_from_all_channels p cause s
      ▷ on_heap (free_client p)
      ▷ (λ t. record t { clients = erase client_fd t.clients })
]

unfoldable pub disconnect : ℕ → Text → Server → Server
disconnect client_fd reason s =
    let cause : Text = elim (lookup client_fd s.closing) [ none ↦ reason | some r ↦ r ] in
    record s { closing = erase client_fd s.closing }
    ▷ drop_client client_fd cause
    ▷ (λ t. record t { poll_fds = listen_again (erase_poll client_fd t.poll_fds) })

unfoldable pub disconnect_each : Map ℕ Text → Server → Server
disconnect_each [] s = s
disconnect_each ((client_fd, reason) ∷ rest) s =
    disconnect_each rest (disconnect client_fd reason s)

unfoldable pub cleanup_disconnected : Server → Server
cleanup_disconnected s = disconnect_each s.to_disconnected (record s { to_disconnected = [] })
