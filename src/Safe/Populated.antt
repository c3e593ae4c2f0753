-- ===== src/Safe/Populated.antt =====
-- The channels without members, through the rounds of the poll loop.
use ft_irc.Safe.Step.{Round-mark}
use ft_irc.Safe.Reach.{start, step}
use ft_irc.Server.{on_heap, Server}
use ft_irc.Heap.{channel}
use ft_irc.Loop.Round.{serve, serve_each, run_round, Report}
use ft_irc.Map.{Map, lookup, erase, text_key, nat_key}
use ft_irc.Map.Each.{Each-lookup}
use ft_irc.Safe.Cleanup.{
  emptied, Keeps-emptied, emptied-out, Inv-disconnect, Inv-cleanup_disconnected,
}
use ft_irc.Safe.Reach.{
  polled_server, Inv-polled_server, IsReachable-Inv, RoundOf, IsReachable, interrupted, served,
  start, step,
}
use ft_irc.Safe.Serve.{Round-serve_client, Inv-serve, AreUnused, Inv-serve_each}
use ft_irc.Safe.Loop.{Round-check_idle_clients, Round-refresh_poll_events}
use ft_irc.Channel.{is_channel_empty}
use ft_irc.Loop.{accept_new_client, Accepted, refused, blocking, accepted}
use ft_irc.Server.Vacant.{IsVacant}
use ft_irc.Server.Inv.{ClientEntry, Populated, Inv-shell, Inv}
use ft_irc.Server.Disconnect.{
  remove_client_from_all_channels, drop_client, disconnect, disconnect_each, cleanup_disconnected,
}
use ft_irc.Server.Drop.{IsVacant-without_client}
use ft_irc.Base.{
  ◌==◌, Bool-cases, Option-cases, if_both, is_empty, Text, ℕ, refl, inl, inr, ◌||◌, List, [], ◌∷◌,
  arith,
}

IsVacant-drop_client :
    (fd : ℕ) (cause : Text) (s : Server) (x : ℕ)
    → Inv s
    → IsVacant (drop_client fd cause s).heap x
    → IsVacant s.heap x
unfolding drop_client remove_client_from_all_channels
IsVacant-drop_client fd cause s x v = elim (Option-cases (lookup fd s.clients)) [
  | inl e ↦ rw (e, drop_client) (λ w. w)
  | inr (u, e) ↦
      let live = (Each-lookup (ClientEntry s.heap) fd u s.clients v.clients_in e).0 in
      let kept = Keeps-emptied u cause s v live in
      rw (e, drop_client)
        (unfold on_heap in
          λ w. kept.no_vacancy x refl (
            IsVacant-without_client fd u (emptied u cause s v live) kept.inv
              (rw kept.same_clients e) (emptied-out u cause s v live) x w))
]

IsVacant-disconnect :
    (fd : ℕ) (reason : Text) (s : Server) (x : ℕ)
    → Inv s
    → IsVacant (disconnect fd reason s).heap x
    → IsVacant s.heap x
unfolding disconnect
IsVacant-disconnect fd reason s x v =
    IsVacant-drop_client fd _ _ x (Inv-shell s s.poll_fds s.to_disconnected (erase fd s.closing) v)

IsVacant-disconnect_each :
    (m : Map ℕ Text) (s : Server) (x : ℕ)
    → Inv s
    → IsVacant (disconnect_each m s).heap x
    → IsVacant s.heap x
unfolding disconnect_each
IsVacant-disconnect_each [] s x v w = w
IsVacant-disconnect_each ((fd, reason) ∷ rest) s x v w =
    IsVacant-disconnect fd reason s x v
      (IsVacant-disconnect_each rest _ x (Inv-disconnect fd reason s v) w)

pub IsVacant-cleanup_disconnected :
    (s : Server) (x : ℕ) → Inv s → IsVacant (cleanup_disconnected s).heap x → IsVacant s.heap x
unfolding cleanup_disconnected
IsVacant-cleanup_disconnected s x v =
    IsVacant-disconnect_each s.to_disconnected _ x (Inv-shell s s.poll_fds [] s.closing v)

IsVacant-accept_new_client :
    (now : ℕ) (r : Accepted) (s : Server) (x : ℕ)
    → IsVacant (accept_new_client now r s).heap x
    → IsVacant s.heap x
unfolding accept_new_client channel
IsVacant-accept_new_client now refused s x w = w
IsVacant-accept_new_client now blocking s x w = w
IsVacant-accept_new_client now (accepted fd ip) s x w = w

IsVacant-serve :
    (now : ℕ) (r : Report) (s : Server) (x : ℕ)
    → Inv s
    → IsVacant (serve now r s).heap x
    → IsVacant s.heap x
unfolding serve
IsVacant-serve now r s x v =
    if_both Steady (r.fd == s.server_fd) _ _
      (λ e.
        if_both Steady r.pollin _ _ (λ q. IsVacant-accept_new_client now r.accepting s x)
          (λ q w. w))
      (λ e.
        if_both Steady (r.pollerr || r.pollnval) _ _ (λ q. (Round-mark r.fd _ s v).no_vacancy x)
          (λ q. (Round-serve_client now r s v).no_vacancy x))
  where
    Steady : Server → Type 0
    Steady t = IsVacant t.heap x → IsVacant s.heap x

IsVacant-serve_each :
    (now : ℕ) (reports : List Report) (s : Server) (x : ℕ)
    → AreUnused now reports s
    → Inv s
    → IsVacant (serve_each now reports s).heap x
    → IsVacant s.heap x
unfolding serve_each
IsVacant-serve_each now [] s x u v w = w
IsVacant-serve_each now (r ∷ rs) s x u v w =
    IsVacant-serve now r s x v (IsVacant-serve_each now rs _ x u.1 (Inv-serve now r s u.0 v) w)

IsVacant-polled_server :
    (reports : List Report) (s : Server) (x : ℕ)
    → Inv s
    → IsVacant (polled_server reports s).heap x
    → IsVacant s.heap x
IsVacant-polled_server reports s x v =
    if_both (λ (t : Server). IsVacant t.heap x → IsVacant s.heap x) (is_empty reports) _ _
      (λ e. (Round-refresh_poll_events s v).no_vacancy x)
      (λ e. (Round-refresh_poll_events s v).no_vacancy x)

IsVacant-run_round :
    {s t : Server} → RoundOf s t → (x : ℕ) → Inv s → IsVacant t.heap x → IsVacant s.heap x
unfolding run_round
IsVacant-run_round {s} (interrupted now) x v w = (Round-refresh_poll_events s v).no_vacancy x w
IsVacant-run_round {s} (served now reports unused) x v w =
    let polled_ok = Inv-polled_server reports s v in
    let serve_ok = Inv-serve_each now reports _ unused polled_ok in
    let clean_ok = Inv-cleanup_disconnected _ serve_ok in
    IsVacant-polled_server reports s x v (
      IsVacant-serve_each now reports _ x unused polled_ok (
        IsVacant-cleanup_disconnected _ x serve_ok
          ((Round-check_idle_clients now _ clean_ok).no_vacancy x w)))

reached_full : {s : Server} → IsReachable s → (x : ℕ) → ¬ IsVacant s.heap x
unfolding channel
reached_full (start server_fd password) x w = absurd (ground (arith, w.0.1))
reached_full (step r m) x w = reached_full r x (IsVacant-run_round m x (IsReachable-Inv r) w)

-- In a reached server, every channel that is there has a member.
pub reached-Populated : {s : Server} → IsReachable s → Populated s
reached-Populated {s} r x live = elim (Bool-cases (is_channel_empty (channel s.heap x))) [
  | inl e ↦ absurd (reached_full r x (live, e))
  | inr e ↦ e
]
