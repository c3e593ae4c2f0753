-- ===== src/Safe/Cleanup.antt =====
-- The invariant through network/ServerDisconnect.cpp.
use ft_irc.Server.Changes.{Keeps-Moves}
use ft_irc.Safe.Step.{Round-marked}
use ft_irc.Server.Emptied.{channel-quit_channels, LeadsTo-quit_channels, delete_channels-LeadsTo}
use ft_irc.Server.Vacant.{IsVacant}
use ft_irc.Links.Objects.{SameObjects-Moves, of_IsLiveChannel-same}
use ft_irc.Reply.{to_lower}
use ft_irc.Heap.Live.{live_of_member}
use ft_irc.Reply.CaseMap.{to_lower_idem}
use ft_irc.Server.Drop.{Inv-without_client}
use ft_irc.Map.{text_key, nat_key, Map, lookup, erase, values}
use ft_irc.Server.{on_heap, Server}
use ft_irc.Heap.{client, channel, broadcast_quit, Heap}
use ft_irc.Map.Each.{Each-map, Each-lookup, contains-values, Each}
use ft_irc.Handlers.Member.{command_of}
use ft_irc.Channel.{new_channel, is_member}
use ft_irc.Heap.Quiet.{quiet-broadcast_quit, IsLiveClient, IsLiveChannel}
use ft_irc.Server.Quit.{
  AllEmptied, Moves-quit_channels, members-quit_channels, channel-delete_channels,
  Keeps-delete_channels,
}
use ft_irc.Server.Keeps.{
  Keeps-refl, Keeps-and, Keeps, Mostly-of-Keeps, Keeps-instead, Mostly, Nobody,
}
use ft_irc.Server.Inv.{Inv, ClientEntry, ChannelEntry, Inv-shell}
use ft_irc.Server.Disconnect.{
  quit_channels, delete_channels, remove_client_from_all_channels, drop_client, disconnect,
  disconnect_each, cleanup_disconnected,
}
use ft_irc.Links.Moves.{one, Moves, silent, anywhere}
use ft_irc.Base.{
  ℕ, if◌then◌else◌, if_both, contains, Text, codes, ◌≡◌, refl, ◌∙◌, false, List, [], ◌++◌, not,
  Bool-cases, Option-cases, subst, inl, inr, ◌&&◌, none, some, ◌∷◌, arith, true,
}

listed_at :
    (t : Server) (key : Text) (ch : ℕ)
    → Inv t
    → ChannelEntry t.heap key ch
    → lookup (to_lower key) t.channels ≡ some ch
listed_at t key ch v e =
    subst (λ k. lookup (to_lower k) t.channels ≡ some ch) e.1
      (rw to_lower_idem (v.channels_listed ch e.0))

-- A channel with members is among those of the server.
no_other :
    (t : Server)
    → Inv t
    → (x u : ℕ) → (is_member (channel t.heap x) u && not (contains (values t.channels) x)) ≡ false
no_other t v x u = elim (Bool-cases (is_member (channel t.heap x) u)) [
  | inl m ↦
      ground (
        arith,
        m,
        contains-values _ x t.channels (v.channels_listed x (live_of_member t.heap x u m)),
      )
  | inr n ↦ ground (arith, n)
]

-- The steps of `removeClientFromAllChannels`, up to the invitations.
module _ (u : ℕ) (reason : Text) (s : Server) (v : Inv s) (live : IsLiveClient s.heap u) where
  abbrev told : Server
  told =
      if (client s.heap u).is_registered
      then on_heap (broadcast_quit u (command_of s.heap u (codes "QUIT") (codes ":" ++ reason))) s
      else s

  Keeps-told : Keeps s told
  Keeps-told =
      if_both (Keeps s) (client s.heap u).is_registered _ _
        (λ r. Keeps-Moves s _ v (one (silent _ (quiet-broadcast_quit u _ s.heap))))
        (λ r. Keeps-refl s v)

  -- The keys of the emptied channels, and the heap that the client has left.
  abbrev quitted : List Text × Heap
  quitted = quit_channels u told.channels [] told.heap

  abbrev left : Server
  left = record told { heap = quitted.1 }

  told-live : IsLiveClient told.heap u
  told-live = Keeps-told.still_live u live

  quit_facts : Moves anywhere told.heap quitted.1 × AllEmptied quitted.0 left
  quit_facts =
      Moves-quit_channels u told.channels [] told.heap told told-live
        (Each-map _ _ (λ key ch e. (e.0, listed_at told key ch Keeps-told.inv e)) told.channels
          Keeps-told.inv.channels_in)
        tt

  Keeps-left : Mostly anywhere Nobody told left
  Keeps-left =
      unfold on_heap in
      Keeps-Moves told (λ h. (quit_channels u told.channels [] h).1) Keeps-told.inv quit_facts.0

  abbrev pub emptied : Server
  emptied = delete_channels quitted.0 left

  listed : Each (λ key ch. IsLiveChannel told.heap ch) told.channels
  listed = Each-map _ _ (λ key ch e. e.0) told.channels Keeps-told.inv.channels_in

  deletion : Keeps left emptied
  deletion = Keeps-delete_channels quitted.0 left Keeps-left.inv quit_facts.1

  -- What the client has left without members is deleted.
  none_left : (x : ℕ) → is_member (channel told.heap x) u ≡ true → ¬ IsVacant emptied.heap x
  none_left x m w =
      delete_channels-LeadsTo quitted.0 left x Keeps-left.inv quit_facts.1
        (LeadsTo-quit_channels u told.channels [] told.heap told.channels x told-live
          (Each-map _ _ (λ key ch e. (e.0, listed_at told key ch Keeps-told.inv e)) told.channels
            Keeps-told.inv.channels_in)
          (deletion.no_vacancy x refl w).1
          (inr (
            contains-values _ x told.channels
                (Keeps-told.inv.channels_listed x (live_of_member told.heap x u m)),
            m,
          )))
        w

  vacant_before : (x : ℕ) → IsVacant emptied.heap x → IsVacant told.heap x
  vacant_before x w = elim (Bool-cases (is_member (channel told.heap x) u)) [
    | inl m ↦ absurd (none_left x m w)
    | inr n ↦
        let in_left = deletion.no_vacancy x refl w in
        let stays : channel left.heap x ≡ channel told.heap x =
          channel-quit_channels u told.channels [] told.heap x told-live listed n in
        (live_before x in_left.0, rw stays at in_left.1)
  ]
    where
      live_before : (y : ℕ) → IsLiveChannel left.heap y → IsLiveChannel told.heap y
      live_before y = of_IsLiveChannel-same _ _ (SameObjects-Moves quit_facts.0) y

  pub Keeps-emptied : Keeps s emptied
  Keeps-emptied =
      Keeps-and Keeps-told
        (λ a. Keeps-instead (Keeps-and Keeps-left (λ b. Mostly-of-Keeps deletion)) vacant_before)

  left-out : (x : ℕ) → is_member (channel left.heap x) u ≡ false
  left-out x =
      members-quit_channels u told.channels [] told.heap x told-live
        (Each-map _ _ (λ key ch e. e.0) told.channels Keeps-told.inv.channels_in)
      ∙ no_other told Keeps-told.inv x u

  pub emptied-out : (x : ℕ) → is_member (channel emptied.heap x) u ≡ false
  emptied-out x =
      channel-delete_channels (λ c. is_member c u ≡ false) (unfold new_channel contains in refl)
        quitted.0 left x (left-out x)

-- Whatever descriptor is disconnected, with whatever reason, the invariant is kept.
Inv-drop_client : (fd : ℕ) (cause : Text) (s : Server) → Inv s → Inv (drop_client fd cause s)
unfolding drop_client remove_client_from_all_channels
Inv-drop_client fd cause s v = elim (Option-cases (lookup fd s.clients)) [
  | inl e ↦ rw (e, drop_client) v
  | inr (u, e) ↦
      let live = (Each-lookup (ClientEntry s.heap) fd u s.clients v.clients_in e).0 in
      let kept = Keeps-emptied u cause s v live in
      rw (e, drop_client)
        (unfold on_heap in
          Inv-without_client fd u (emptied u cause s v live) kept.inv (rw kept.same_clients e)
            (emptied-out u cause s v live))
]

pub Inv-disconnect : (fd : ℕ) (reason : Text) (s : Server) → Inv s → Inv (disconnect fd reason s)
unfolding disconnect
Inv-disconnect fd reason s v =
    let cause : Text = elim (lookup fd s.closing) [ none ↦ reason | some r ↦ r ] in
    Inv-shell _ _ _ _
      (Inv-drop_client fd cause _ (Inv-shell s s.poll_fds s.to_disconnected (erase fd s.closing) v))

Inv-disconnect_each : (m : Map ℕ Text) (s : Server) → Inv s → Inv (disconnect_each m s)
unfolding disconnect_each
Inv-disconnect_each [] s v = v
Inv-disconnect_each ((fd, reason) ∷ rest) s v =
    Inv-disconnect_each rest _ (Inv-disconnect fd reason s v)

-- If the invariant holds, it holds after all marked clients are disconnected.
pub Inv-cleanup_disconnected : (s : Server) → Inv s → Inv (cleanup_disconnected s)
unfolding cleanup_disconnected
Inv-cleanup_disconnected s v = Inv-disconnect_each s.to_disconnected _ (Round-marked s [] v).inv
