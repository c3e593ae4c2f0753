-- ===== src/Safe/Broadcasts.antt =====
-- Whom broadcastQuit and broadcastNickChange of Client.cpp reach in a server that `Server::run`
-- reaches.
use ft_irc.Server.{Server}
use ft_irc.Heap.{client, channel, broadcast_quit, broadcast_nick_change, Heap}
use ft_irc.Map.{Map, values, text_key, nat_key}
use ft_irc.Links.{Linked}
use ft_irc.Map.Each.{Each, contains-values}
use ft_irc.Safe.Reach.{IsReachable-Inv, IsReachable}
use ft_irc.Safe.PartAll.{Each-of-lookup}
use ft_irc.Client.{wire}
use ft_irc.Channel.{is_member}
use ft_irc.Heap.Broadcast.{
  is_in_some, shares_channel, broadcast_quit-delivery, broadcast_nick_change-delivery,
}
use ft_irc.Heap.Delivery.{sent_to}
use ft_irc.Heap.Quiet.{IsLiveClient}
use ft_irc.Base.{
  ◌==◌, if◌then◌else◌, not, ==_iff, Bool-cases, contains, Text, ℕ, ◌≡◌, ◌↔◌, inl, inr, Bool, true,
  ◌&&◌, ◌||◌, List, [], ◌∷◌, ◌++◌, arith,
}

is_in_some-met :
    (h : Heap) (u p : ℕ) (m : Map Text ℕ)
    → Each (λ (name : Text) ch. is_member (channel h ch) u ≡ true) m
    → is_in_some h (values m) p ≡ true
    → (ch : ℕ) × (is_member (channel h ch) u ≡ true) × (is_member (channel h ch) p ≡ true)
unfolding is_in_some
is_in_some-met h u p [] e i = absurd (cc)
is_in_some-met h u p ((name, ch) ∷ m) e i = elim (Bool-cases (is_member (channel h ch) p)) [
  | inl here ↦ (ch, e.0, here)
  | inr later ↦ is_in_some-met h u p m e.1 (rw later at i)
]

is_in_some-of_channel :
    (h : Heap) (p ch : ℕ) (chs : List ℕ)
    → contains chs ch ≡ true
    → is_member (channel h ch) p ≡ true
    → is_in_some h chs p ≡ true
unfolding is_in_some contains
is_in_some-of_channel h p ch [] c m = absurd (cc)
is_in_some-of_channel h p ch (x ∷ chs) c m =
    ground (arith, m, c, is_in_some-of_channel h p ch chs, ==_iff x ch)

shares_channel_iff :
    (h : Heap) (u p : ℕ)
    → Linked h
    → (shares_channel h u p ≡ true)
      ↔ ((ch : ℕ) × (is_member (channel h ch) u ≡ true) × (is_member (channel h ch) p ≡ true))
shares_channel_iff h u p v = (
  λ e.
      is_in_some-met h u p (client h u).joined_channels
        (Each-of-lookup u _ _ (v.keys u) (λ name ch q. (v.joined_member u name ch q).0)) e,
  λ (ch, a, b).
      is_in_some-of_channel h p ch (values (client h u).joined_channels)
        (contains-values (channel h ch).name ch (client h u).joined_channels
          (v.member_joined ch u a))
        b,
)

-- In a reached server, a quit notice is appended once to the write buffer of each other client
-- with which the client shares a channel, and a nickname notice to these and to the client's
-- own, and to that of no other client that is there; and to share a channel, by the client's
-- table, is that both are members of some channel.
pub reached-broadcasts :
    (s : Server)
    → IsReachable s
    → (u p : ℕ) (notice : Text) → IsLiveClient s.heap p
    → let sent : Heap → Text = λ h. sent_to h p in
      let shared : Bool = shares_channel s.heap u p in
      (sent (broadcast_quit u notice s.heap)
        ≡ (if shared && not (u == p) then sent s.heap ++ wire notice else sent s.heap))
      × (sent (broadcast_nick_change u notice s.heap)
          ≡ (if u == p || shared then sent s.heap ++ wire notice else sent s.heap))
      × ((shared ≡ true) ↔ (
          (ch : ℕ) × (is_member (channel s.heap ch) u ≡ true)
          × (is_member (channel s.heap ch) p ≡ true)))
reached-broadcasts s reached u p notice l = (
  broadcast_quit-delivery u notice s.heap p l,
  broadcast_nick_change-delivery u notice s.heap p l,
  shares_channel_iff s.heap u p (IsReachable-Inv reached).linked,
)
