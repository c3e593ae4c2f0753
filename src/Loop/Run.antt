-- ===== src/Loop/Run.antt =====
-- `Server::run` and `Server::~Server` of network/Server.cpp. What each call of `poll` reports is an
-- argument, and the list of them ends where `g_stop` is set.
use ft_irc.Base.{ℕ, Option, none, some, List, [], ◌∷◌, ◌++◌, Text}
use ft_irc.Map.{Map}
use ft_irc.Heap.{Heap}
use ft_irc.Server.{Server, free_channel}
use ft_irc.Server.Disconnect.{free_client}
use ft_irc.Loop.{refresh_poll_events}
use ft_irc.Loop.Round.{Polled, run_round}

-- A failure of `poll` that is no interrupt ends the loop: `break`.
unfoldable pub run : List (ℕ × Option Polled) → Server → Server
run [] s = s
run ((now, none) ∷ rest) s = refresh_poll_events s
run ((now, some report) ∷ rest) s = run rest (run_round now report s)

unfoldable pub free_clients : Map ℕ ℕ → Heap → Heap
free_clients [] h = h
free_clients ((fd, p) ∷ rest) h = free_clients rest (free_client p h)

unfoldable pub free_channels : Map Text ℕ → Heap → Heap
free_channels [] h = h
free_channels ((key, ch) ∷ rest) h = free_channels rest (free_channel ch h)

unfoldable pub descriptors : Map ℕ ℕ → List ℕ
descriptors [] = []
descriptors ((fd, p) ∷ rest) = fd ∷ descriptors rest

-- The descriptors that are closed, in their order, and the objects that are left.
unfoldable pub shut_down : Server → List ℕ × Heap
shut_down s = (
  descriptors s.clients ++ s.server_fd ∷ [],
  free_channels s.channels (free_clients s.clients s.heap),
)
