-- ===== src/Safe/End.antt =====
-- `Server::run` to its end, and `Server::~Server`.
-- The descriptors that `accept` reports, over all rounds.
use ft_irc.Safe.Reach.{start}
use ft_irc.Server.Accept.{new_server}
use ft_irc.Server.{free_channel, Server}
use ft_irc.Heap.{Heap}
use ft_irc.Loop.Round.{run_round, Polled, poll_failed, polled}
use ft_irc.Loop.Run.{run, free_clients, free_channels, shut_down}
use ft_irc.Map.{Map, values, text_key, nat_key}
use ft_irc.Map.Each.{contains-values}
use ft_irc.Safe.Reach.{
  polled_server, interrupted, served, IsReachable-Inv, IsReachable, step, start,
}
use ft_irc.Safe.Serve.{AreUnused}
use ft_irc.Client.{Client}
use ft_irc.Channel.{Channel}
use ft_irc.Server.Inv.{Inv}
use ft_irc.Server.Disconnect.{free_client}
use ft_irc.Base.{
  if◌then◌else◌, Option-cases, contains, Text, ℕ, ◌≡◌, refl, ap, ◌∙◌, inl, inr, Option, none, some,
  List, [], ◌∷◌, arith,
}

abbrev pub AllUnused : List (ℕ × Option Polled) → Server → Type 0
AllUnused [] s = Unit
AllUnused ((now, none) ∷ rest) s = Unit
AllUnused ((now, some poll_failed) ∷ rest) s = AllUnused rest (run_round now poll_failed s)
AllUnused ((now, some (polled reports)) ∷ rest) s =
    AreUnused now reports (polled_server reports s)
    × AllUnused rest (run_round now (polled reports) s)

run-IsReachable :
    (ticks : List (ℕ × Option Polled)) (s : Server)
    → AllUnused ticks s
    → IsReachable s
    → IsReachable (run ticks s)
unfolding run run_round
run-IsReachable [] s u r = r
run-IsReachable ((now, none) ∷ rest) s u r = step r (interrupted now)
run-IsReachable ((now, some poll_failed) ∷ rest) s u r =
    run-IsReachable rest _ u (step r (interrupted now))
run-IsReachable ((now, some (polled reports)) ∷ rest) s u r =
    run-IsReachable rest _ u.1 (step r (served now reports u.0))

client-free_clients :
    (m : Map ℕ ℕ) (h : Heap) (p : ℕ)
    → (free_clients m h).client_at p ≡ (if contains (values m) p then none else h.client_at p)
unfolding free_clients free_client contains
client-free_clients [] h p = refl
client-free_clients ((fd, q) ∷ m) h p = client-free_clients m (free_client q h) p ∙ ground arith

channel-free_clients : (m : Map ℕ ℕ) (h : Heap) → (free_clients m h).channel_at ≡ h.channel_at
unfolding free_clients free_client
channel-free_clients [] h = refl
channel-free_clients ((fd, q) ∷ m) h = channel-free_clients m (free_client q h)

channel-free_channels :
    (m : Map Text ℕ) (h : Heap) (x : ℕ)
    → (free_channels m h).channel_at x ≡ (if contains (values m) x then none else h.channel_at x)
unfolding free_channels free_channel contains
channel-free_channels [] h x = refl
channel-free_channels ((key, y) ∷ m) h x =
    channel-free_channels m (free_channel y h) x ∙ ground arith

client-free_channels : (m : Map Text ℕ) (h : Heap) → (free_channels m h).client_at ≡ h.client_at
unfolding free_channels free_channel
client-free_channels [] h = refl
client-free_channels ((key, y) ∷ m) h = client-free_channels m (free_channel y h)

pub shut_down-frees :
    (s : Server) (p x : ℕ)
    → IsReachable s
    → ((shut_down s).1.client_at p ≡ none) × ((shut_down s).1.channel_at x ≡ none)
unfolding shut_down
shut_down-frees s p x reached = (no_client, no_channel)
  where
    v : Inv s
    v = IsReachable-Inv reached

    freed : Heap
    freed = free_channels s.channels (free_clients s.clients s.heap)

    no_client : freed.client_at p ≡ none
    no_client =
        ap (λ (f : ℕ → Option Client). f p) (client-free_channels s.channels _)
        ∙ client-free_clients s.clients s.heap p
        ∙ elim (Option-cases (s.heap.client_at p)) [
          | inl e ↦ ground (arith, e)
          | inr l ↦ ground (arith, contains-values _ p s.clients (v.clients_listed p l))
        ]

    no_channel : freed.channel_at x ≡ none
    no_channel =
        channel-free_channels s.channels _ x
        ∙ ap (λ (f : ℕ → Option Channel). if contains (values s.channels) x then none else f x)
            (channel-free_clients s.clients s.heap)
        ∙ elim (Option-cases (s.heap.channel_at x)) [
          | inl e ↦ ground (arith, e)
          | inr l ↦ ground (arith, contains-values _ x s.channels (v.channels_listed x l))
        ]

-- Whatever rounds the loop runs from the start, if accept reports no descriptor that is in the
-- table of connections, no client and no channel is there after the destructor.
pub run-leaves_nothing :
    (server_fd : ℕ) (password : Text) (ticks : List (ℕ × Option Polled)) (p x : ℕ)
    → AllUnused ticks (new_server server_fd password)
    → let left : Heap = (shut_down (run ticks (new_server server_fd password))).1 in
      (left.client_at p ≡ none) × (left.channel_at x ≡ none)
run-leaves_nothing server_fd password ticks p x u =
    shut_down-frees (run ticks (new_server server_fd password)) p x
      (run-IsReachable ticks _ u (start server_fd password))
