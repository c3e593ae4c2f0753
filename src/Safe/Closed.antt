-- ===== src/Safe/Closed.antt =====
-- Which connections `cleanupDisconnected` closes.
use ft_irc.Safe.Step.{Round-marked}
use ft_irc.Server.{on_heap, Server}
use ft_irc.Map.{Map, lookup, erase, has, lookup-erase, text_key, nat_key}
use ft_irc.Map.Each.{Each-lookup}
use ft_irc.Safe.Cleanup.{Keeps-emptied, Inv-disconnect}
use ft_irc.Server.Inv.{ClientEntry, Inv, Inv-shell}
use ft_irc.Server.Disconnect.{
  is_marked, remove_client_from_all_channels, drop_client, disconnect, disconnect_each,
  cleanup_disconnected,
}
use ft_irc.Base.{
  ℕ, ◌==◌, if◌then◌else◌, ==_iff, Option-cases, Text, ◌≡◌, refl, ◌∙◌, inl, inr, none, [], ◌∷◌,
  arith,
}

clients-drop_client :
    (fd : ℕ) (cause : Text) (s : Server) (f : ℕ)
    → Inv s
    → lookup f (drop_client fd cause s).clients ≡ (if fd == f then none else lookup f s.clients)
unfolding drop_client remove_client_from_all_channels
clients-drop_client fd cause s f v = elim (Option-cases (lookup fd s.clients)) [
  | inl e ↦ rw (e, drop_client) (ground (arith, e, ==_iff fd f))
  | inr (u, e) ↦
      let live = (Each-lookup (ClientEntry s.heap) fd u s.clients v.clients_in e).0 in
      rw (e, drop_client)
        (unfold on_heap in
          rw ((Keeps-emptied u cause s v live).same_clients) (lookup-erase fd f s.clients))
]

clients-disconnect :
    (fd : ℕ) (reason : Text) (s : Server) (f : ℕ)
    → Inv s
    → lookup f (disconnect fd reason s).clients ≡ (if fd == f then none else lookup f s.clients)
unfolding disconnect
clients-disconnect fd reason s f v =
    clients-drop_client fd _ _ f (Inv-shell s s.poll_fds s.to_disconnected (erase fd s.closing) v)

clients-disconnect_each :
    (m : Map ℕ Text) (s : Server) (f : ℕ)
    → Inv s
    → lookup f (disconnect_each m s).clients ≡ (if has f m then none else lookup f s.clients)
unfolding disconnect_each has lookup
clients-disconnect_each [] s f v = refl
clients-disconnect_each ((fd, reason) ∷ rest) s f v =
    clients-disconnect_each rest _ f (Inv-disconnect fd reason s v)
    ∙ ground (arith, clients-disconnect fd reason s f v)

-- If the invariant holds, then after cleanupDisconnected a marked descriptor is not in the table
-- of connections, and every other descriptor leads to what it led to.
pub cleanup_disconnected-closes :
    (s : Server) (fd : ℕ)
    → Inv s
    → lookup fd (cleanup_disconnected s).clients
      ≡ (if is_marked s fd then none else lookup fd s.clients)
unfolding cleanup_disconnected is_marked
cleanup_disconnected-closes s fd v =
    clients-disconnect_each s.to_disconnected _ fd (Round-marked s [] v).inv
