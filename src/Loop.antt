-- ===== src/Loop.antt =====
-- network/Server.cpp and network/ServerConnection.cpp: the poll loop. What the system calls report
-- is an argument; the clock is `now`.
pub mod Round
pub mod Run
use ft_irc.Base.{
  ℕ, zero, suc, ◌*◌, ◌/◌, true, false, ◌&&◌, not, Option, none, some, List, [], ◌∷◌, ◌++◌, Text,
  codes, ◌==◌, ltb, if◌then◌else◌, is_empty, length, drop, push_back, ◌▷◌,
}
use ft_irc.Map.{Map, nat_key, lookup, insert, erase, has}
use ft_irc.Client.{
  Client, new_client, has_complete_line, pop_line, update_last_activity, get_idle_time,
  get_connect_time, get_closing_time, send_reply,
}
use ft_irc.Heap.{Heap, client, on_client}
use ft_irc.Server.{Server, PollFd, on_heap}
use ft_irc.Server.Disconnect.{is_marked, mark_for_disconnection, disconnect_after_flush}
use ft_irc.Commands.{operate}

abbrev pub timeout_seconds : ℕ
timeout_seconds = 300

abbrev pub timeout_registration : ℕ
timeout_registration = 60

abbrev pub max_sendq : ℕ
max_sendq = 1024 * 1024

-- What `recv` reports: a negative number, or the bytes, none of them at the end of the input.
pub data Received : Type 0 where
  failed : Received
  received : Text → Received

abbrev pub append_read : Text → Client → Client
append_read bytes c = record c { read_buffer = c.read_buffer ++ bytes }

abbrev pub pop : Client → Client
pop c = (pop_line c).1

-- The loop over the complete lines, on fuel.
unfoldable pub process_lines : ℕ → ℕ → ℕ → ℕ → Server → Server
process_lines zero now fd p s = s
process_lines (suc fuel) now fd p s =
    let line = (pop_line (client s.heap p)).0 in
    let s' = on_heap (on_client p pop) s in
    let next =
      process_lines fuel now fd p (if is_empty line then s' else (operate now p line s').1) in
    if not (is_marked s fd) && has_complete_line (client s.heap p) && not (has fd s.closing)
    then next
    else s

unfoldable pub take_bytes : ℕ → ℕ → ℕ → Text → Server → Server
take_bytes now fd p bytes s =
    if is_empty bytes
    then mark_for_disconnection fd (codes "Client disconnected") s
    else if has fd s.closing
    then s
    else (let s' =
          on_heap (on_client p (append_read bytes)) s
          ▷ on_heap (on_client p (update_last_activity now)) in
        let c = client s'.heap p in
        if ltb 8192 (length c.read_buffer) && not (has_complete_line c)
        then mark_for_disconnection fd (codes "Input buffer overflow") s'
        else process_lines (suc (length c.read_buffer)) now fd p s')

unfoldable pub receive_data : ℕ → ℕ → Received → Server → Server
receive_data now fd r s = elim (lookup fd s.clients) [
  | none ↦ s
  | some p ↦ elim r [
    | failed ↦ mark_for_disconnection fd (codes "Receive error") s
    | received bytes ↦ take_bytes now fd p bytes s
  ]
]

-- What `send` reports: `none` for a negative number, or the number of bytes.
abbrev pub erase_sent : ℕ → Client → Client
erase_sent n c = record c { write_buffer = drop n c.write_buffer }

unfoldable pub finish_closing : ℕ → Server → Server
finish_closing fd s = elim (lookup fd s.closing) [
  | none ↦ s
  | some reason ↦
      mark_for_disconnection fd reason s ▷ (λ t. record t { closing = erase fd t.closing })
]

unfoldable pub send_data : ℕ → Option ℕ → Server → Server
send_data fd sent s = elim (lookup fd s.clients) [
  | none ↦ s
  | some p ↦ if is_empty (client s.heap p).write_buffer then s else elim sent [
    | none ↦ mark_for_disconnection fd (codes "Send error") s
    | some n ↦
        (let s' = on_heap (on_client p (erase_sent n)) s in
          if is_empty (client s'.heap p).write_buffer then finish_closing fd s' else s')
  ]
]

abbrev pub stop_listening : List PollFd → List PollFd
stop_listening [] = []
stop_listening (p ∷ ps) = record p { pollin = false; pollout = false } ∷ ps

abbrev pub alloc_client : ℕ → Client → Heap → Heap
alloc_client p c h = record h { client_at = λ q. if p == q then some c else h.client_at q }

-- What `accept` and `fcntl` report: no connection, one that cannot be made non-blocking, or one
-- with its descriptor and address. Memory is assumed not to run out.
pub data Accepted : Type 0 where
  refused : Accepted
  blocking : Accepted
  accepted : ℕ → Text → Accepted

unfoldable pub accept_new_client : ℕ → Accepted → Server → Server
accept_new_client now refused s = record s { poll_fds = stop_listening s.poll_fds }
accept_new_client now blocking s = s
accept_new_client now (accepted fd ip) s = record s {
  poll_fds = push_back s.poll_fds (record { fd = fd; pollin = true; pollout = false });
  clients = insert fd s.next_client s.clients;
  heap = alloc_client s.next_client (record (new_client fd now) { ip = ip }) s.heap;
  next_client = suc s.next_client;
}

abbrev pub set_ping_sent : Client → Client
set_ping_sent c = record c { ping_sent = true }

-- One round of the loop of `checkIdleClients`.
unfoldable pub check_idle_client : ℕ → ℕ → ℕ → Server → Server
check_idle_client now fd p s =
    let c = client s.heap p in
    elim (lookup fd s.closing) [
      | some reason ↦
          if ltb 5 (get_closing_time now c) then mark_for_disconnection fd reason s else s
      | none ↦
          if not c.is_registered
          then if ltb timeout_registration (get_connect_time now c)
            then mark_for_disconnection fd (codes "Registration timeout") s
            else s
          else if ltb timeout_seconds (get_idle_time now c)
          then disconnect_after_flush now p (codes "Ping timeout") s
          else if ltb (timeout_seconds / 2) (get_idle_time now c) && not c.ping_sent
          then on_heap (on_client p (send_reply (codes "PING :ircserv"))) s
            ▷ on_heap (on_client p set_ping_sent)
          else s
    ]

unfoldable pub check_idle_each : ℕ → Map ℕ ℕ → Server → Server
check_idle_each now [] s = s
check_idle_each now ((fd, p) ∷ rest) s = check_idle_each now rest (check_idle_client now fd p s)

unfoldable pub check_idle_clients : ℕ → Server → Server
check_idle_clients now s = check_idle_each now s.clients s

-- One round of the loop of `refreshPollEvents`: the entry, and the server, which may mark.
unfoldable pub refresh_poll_fd : PollFd → Server → PollFd × Server
refresh_poll_fd poll s =
    if poll.fd == s.server_fd
    then (poll, s)
    else (let listening : PollFd = record poll { pollin = true; pollout = false } in
        elim (lookup poll.fd s.clients) [
          | none ↦ (listening, s)
          | some p ↦
              (let buffer = (client s.heap p).write_buffer in
                if ltb max_sendq (length buffer)
                then (listening, mark_for_disconnection poll.fd (codes "SendQ exceeded") s)
                else if not (is_empty buffer)
                then (record listening { pollout = true }, s)
                else (listening, s))
        ])

unfoldable pub refresh_poll_fds : List PollFd → Server → List PollFd × Server
refresh_poll_fds [] s = ([], s)
refresh_poll_fds (poll ∷ rest) s =
    let (poll', s') = refresh_poll_fd poll s in
    let (rest', s'') = refresh_poll_fds rest s' in (poll' ∷ rest', s'')

unfoldable pub refresh_poll_events : Server → Server
refresh_poll_events s =
    let (polls, s') = refresh_poll_fds s.poll_fds s in record s' { poll_fds = polls }
