-- ===== src/Safe/Serve.antt =====
-- The invariant through the loop of Server::run over the entries with an event.
use ft_irc.Safe.Step.{Round-refl, Round-and, Round-mark, Round}
use ft_irc.Base.{ℕ, ◌&&◌, ◌||◌, not, List, [], ◌∷◌, ◌==◌, if_both, if◌then◌else◌}
use ft_irc.Server.{Server}
use ft_irc.Server.Disconnect.{is_marked}
use ft_irc.Server.Inv.{Inv}
use ft_irc.Server.Accept.{IsUnused, Inv-accept_new_client}
use ft_irc.Loop.{receive_data}
use ft_irc.Loop.Round.{Report, serve_client, serve, serve_each}
use ft_irc.Safe.Receive.{Round-receive_data}
use ft_irc.Safe.Loop.{Round-send_data}

pub Round-serve_client :
    (now : ℕ) (r : Report) (s : Server) → Inv s → Round s (serve_client now r s)
unfolding serve_client
Round-serve_client now r s v =
    let first : Round s (if r.pollin || r.pollhup then receive_data now r.fd r.receiving s else s) =
      if_both (Round s) (r.pollin || r.pollhup) _ _
        (λ e. Round-receive_data now r.fd r.receiving s v) (λ e. Round-refl s v) in
    Round-and first (λ a.
      if_both (Round _)
        (r.pollout
          && not (
              is_marked (if r.pollin || r.pollhup then receive_data now r.fd r.receiving s else s)
                r.fd))
        _ _ (λ e. Round-send_data r.fd r.sending _ a) (λ e. Round-refl _ a))

pub Inv-serve :
    (now : ℕ) (r : Report) (s : Server) → IsUnused r.accepting s → Inv s → Inv (serve now r s)
unfolding serve
Inv-serve now r s u v =
    if_both Inv (r.fd == s.server_fd) _ _
      (λ e. if_both Inv r.pollin _ _ (λ q. Inv-accept_new_client now r.accepting s u v) (λ q. v))
      (λ e.
        if_both Inv (r.pollerr || r.pollnval) _ _ (λ q. (Round-mark r.fd _ s v).inv)
          (λ q. (Round-serve_client now r s v).inv))

-- Whenever a connection is accepted, its descriptor is not that of another connection.
abbrev pub AreUnused : ℕ → List Report → Server → Type 0
AreUnused now [] s = Unit
AreUnused now (r ∷ rs) s = IsUnused r.accepting s × AreUnused now rs (serve now r s)

-- If the invariant holds, and the descriptor of every new connection is not in the table of
-- connections when it is accepted, the invariant holds after all entries with an event are
-- served, whatever the system calls report.
pub Inv-serve_each :
    (now : ℕ) (reports : List Report) (s : Server)
    → AreUnused now reports s
    → Inv s
    → Inv (serve_each now reports s)
unfolding serve_each
Inv-serve_each now [] s u v = v
Inv-serve_each now (r ∷ rs) s u v = Inv-serve_each now rs _ u.1 (Inv-serve now r s u.0 v)
