-- ===== src/Safe/Reach.antt =====
-- The servers that `Server::run` reaches.
use ft_irc.Server.{Server}
use ft_irc.Loop.Round.{resume_listening, run_round, Report, poll_failed, polled}
use ft_irc.Safe.Cleanup.{Inv-cleanup_disconnected}
use ft_irc.Safe.Serve.{AreUnused, Inv-serve_each}
use ft_irc.Safe.Loop.{Round-check_idle_clients, Round-refresh_poll_events}
use ft_irc.Loop.{refresh_poll_events}
use ft_irc.Server.Inv.{Inv, Inv-shell}
use ft_irc.Server.Accept.{new_server, Inv-new_server}
use ft_irc.Base.{ℕ, if◌then◌else◌, if_both, ◌▷◌, is_empty, Text, List}

-- `poll` and `accept` are free to report what they like, but for a descriptor that is in use.
abbrev pub polled_server : List Report → Server → Server
polled_server reports s =
    refresh_poll_events s
    ▷ (λ t. if is_empty reports then record t { poll_fds = resume_listening t.poll_fds } else t)

-- One round of the loop.
pub data RoundOf (s : Server) : Server → Type 0 where
  interrupted : (now : ℕ) → RoundOf s (run_round now poll_failed s)
  served :
      (now : ℕ) (reports : List Report)
      → AreUnused now reports (polled_server reports s)
      → RoundOf s (run_round now (polled reports) s)

-- After any number of rounds from the start.
pub data IsReachable : Server → Type 0 where
  start : (server_fd : ℕ) (password : Text) → IsReachable (new_server server_fd password)
  step : {s t : Server} → IsReachable s → RoundOf s t → IsReachable t

pub Inv-polled_server : (reports : List Report) (s : Server) → Inv s → Inv (polled_server reports s)
Inv-polled_server reports s v =
    let a = (Round-refresh_poll_events s v).inv in
    if_both Inv (is_empty reports) _ _ (λ e. Inv-shell (refresh_poll_events s) _ _ _ a) (λ e. a)

pub Inv-run_round : {s t : Server} → RoundOf s t → Inv s → Inv t
unfolding run_round
Inv-run_round {s} (interrupted now) v = (Round-refresh_poll_events s v).inv
Inv-run_round {s} (served now reports unused) v =
    let polled_ok = Inv-polled_server reports s v in
    let serve_ok = Inv-serve_each now reports _ unused polled_ok in
    (Round-check_idle_clients now _ (Inv-cleanup_disconnected _ serve_ok)).inv

-- The invariant holds of every server that is reached from the start by rounds of the poll loop,
-- interrupted ones among them, whatever the time and whatever the system calls report, if accept
-- reports no descriptor that is in the table of connections.
pub IsReachable-Inv : {s : Server} → IsReachable s → Inv s
IsReachable-Inv (start server_fd password) = Inv-new_server server_fd password
IsReachable-Inv (step r m) = Inv-run_round m (IsReachable-Inv r)
