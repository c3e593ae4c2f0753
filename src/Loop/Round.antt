-- ===== src/Loop/Round.antt =====
-- `Server::run` of network/Server.cpp: one round of the loop. What `poll` reports of each entry,
-- and what the system calls on it report, are arguments.
use ft_irc.Base.{
  ℕ, Bool, true, false, ◌&&◌, ◌||◌, not, Option, List, [], ◌∷◌, codes, ◌==◌, if◌then◌else◌, ◌▷◌,
  is_empty,
}
use ft_irc.Server.{Server, PollFd}
use ft_irc.Server.Disconnect.{is_marked, mark_for_disconnection, cleanup_disconnected}
use ft_irc.Loop.{
  Received, Accepted, accept_new_client, receive_data, send_data, check_idle_clients,
  refresh_poll_events,
}

-- `revents` of one entry, and what `accept`, `recv` and `send` report if they are called.
pub record Report : Type 0 where
  pub fd : ℕ
  pub pollin : Bool
  pub pollout : Bool
  pub pollhup : Bool
  pub pollerr : Bool
  pub pollnval : Bool
  pub accepting : Accepted
  pub receiving : Received
  pub sending : Option ℕ

unfoldable pub serve_client : ℕ → Report → Server → Server
serve_client now r s =
    let s' = if r.pollin || r.pollhup then receive_data now r.fd r.receiving s else s in
    if r.pollout && not (is_marked s' r.fd) then send_data r.fd r.sending s' else s'

-- One round of the loop over the entries.
unfoldable pub serve : ℕ → Report → Server → Server
serve now r s =
    if r.fd == s.server_fd
    then if r.pollin then accept_new_client now r.accepting s else s
    else if r.pollerr || r.pollnval
    then mark_for_disconnection r.fd (codes "Connection error") s
    else serve_client now r s

unfoldable pub serve_each : ℕ → List Report → Server → Server
serve_each now [] s = s
serve_each now (r ∷ rs) s = serve_each now rs (serve now r s)

-- `_poll_fds[0].events = POLLIN`
abbrev pub resume_listening : List PollFd → List PollFd
resume_listening [] = []
resume_listening (p ∷ ps) = record p { pollin = true; pollout = false } ∷ ps

-- What `poll` reports: a failure, an interrupt among them, or the entries with an event.
pub data Polled : Type 0 where
  poll_failed : Polled
  polled : List Report → Polled

-- An interrupt skips the rest of the round, and any other failure ends the loop.
unfoldable pub run_round : ℕ → Polled → Server → Server
run_round now poll_failed s = refresh_poll_events s
run_round now (polled reports) s =
    refresh_poll_events s
    ▷ (λ t. if is_empty reports then record t { poll_fds = resume_listening t.poll_fds } else t)
    ▷ serve_each now reports
    ▷ cleanup_disconnected
    ▷ check_idle_clients now
