-- ===== src/Safe/PartAll.antt =====
-- The invariant through `JOIN 0`, which leaves every channel.
use ft_irc.Server.Changes.{Keeps-Moves}
use ft_irc.Reply.{to_lower}
use ft_irc.Server.{
  on_heap, find_channel, free_channel, clear_invited, clear_invited_users, delete_channel, Server,
}
use ft_irc.Heap.{client, channel, Heap}
use ft_irc.Map.{Map, lookup, has, lookup-erase, UniqueKeys, values, text_key, nat_key}
use ft_irc.Map.Each.{Each}
use ft_irc.Safe.Rooms.{found_still}
use ft_irc.Commands.Rooms.{delete_if_empty, part_all}
use ft_irc.Client.{remove_invited_channel, Client}
use ft_irc.Handlers.Member.{remove_member, handle_part}
use ft_irc.Channel.{is_member, is_channel_empty, Channel}
use ft_irc.Heap.Live.{live_of_member}
use ft_irc.Heap.Silent.{
  Silent, channel-silent, client-silent, IsLiveChannel-silent, IsLiveClient-silent,
}
use ft_irc.Heap.Quiet.{quiet-send_to_all, IsLiveClient, IsLiveChannel}
use ft_irc.Server.Keeps.{Keeps, Keeps-refl, Keeps-and}
use ft_irc.Server.Inv.{Inv}
use ft_irc.Server.Sweep.{Keeps-swept}
use ft_irc.Base.{
  if◌then◌else◌, not, eq_self, Option-cases, if_both, not-true, ◌▷◌, Text, text_eq, text_eq_iff, ℕ,
  ◌≡◌, refl, ap, inl, inr, Bool, true, false, some, [], ◌∷◌, arith,
}
use ft_irc.Links.Delete.{client-clear_invited}
use ft_irc.Links.Leave.{client-remove_member}
use ft_irc.Links.Handlers.{Moves-handle_part}

module _ (c : ℕ) where
  -- What is left of the copy is still joined after the first channel is left.
  joined-remove_member :
      (ch : ℕ) (h : Heap) (name : Text) (x : ℕ)
      → IsLiveChannel h ch
      → IsLiveClient h c
      → text_eq (channel h ch).name name ≡ false
      → lookup name (client h c).joined_channels ≡ some x
      → lookup name (client (remove_member ch c h) c).joined_channels ≡ some x
  joined-remove_member ch h name x lc lu other e =
      rw (client-remove_member ch c h lc lu c)
        (ground (arith, lookup-erase (channel h ch).name name (client h c).joined_channels))

  joined-Silent :
      (h h' : Heap) → Silent h h' → (client h' c).joined_channels ≡ (client h c).joined_channels
  joined-Silent h h' e = ap (λ (k : Client). k.joined_channels) (client-silent h h' e c)

  joined-handle_part :
      (ch : ℕ) (h : Heap) (name : Text) (x : ℕ)
      → IsLiveChannel h ch
      → IsLiveClient h c
      → is_member (channel h ch) c ≡ true
      → text_eq (channel h ch).name name ≡ false
      → lookup name (client h c).joined_channels ≡ some x
      → lookup name (client (handle_part ch c [] h) c).joined_channels ≡ some x
  unfolding handle_part
  joined-handle_part ch h name x lc lu m other e =
      if_both (λ k. lookup name (client k c).joined_channels ≡ some x)
        (not (is_member (channel h ch) c)) _ _ (λ n. absurd (cc (m, not-true _ n)))
        (λ _. leave_silently _ (quiet-send_to_all ch _ h))
    where
      leave_silently :
          (k : Heap)
          → Silent h k
          → lookup name (client (remove_member ch c k) c).joined_channels ≡ some x
      leave_silently k q =
          joined-remove_member ch k name x (IsLiveChannel-silent h k q ch lc)
            (IsLiveClient-silent h k q c lu)
            (ground (arith, other, ap (λ (r : Channel). r.name) (channel-silent h k q ch)))
            (rw (joined-Silent h k q) e)

  same_joined :
      (x : ℕ) (b : Bool) (k : Client)
      → (if b then remove_invited_channel x k else k).joined_channels ≡ k.joined_channels
  unfolding remove_invited_channel
  same_joined x b k =
      if_both (λ (m : Client). m.joined_channels ≡ k.joined_channels) b _ _ (λ e. refl) (λ e. refl)

  client-free_channel : (x : ℕ) (h : Heap) → client (free_channel x h) c ≡ client h c
  unfolding free_channel client
  client-free_channel x h = refl

  joined-cleared :
      (x : ℕ) (s : Server)
      → (client (free_channel x (clear_invited x (values s.clients) s.heap)) c).joined_channels
        ≡ (client s.heap c).joined_channels
  joined-cleared x s =
      rw (client-free_channel x _, client-clear_invited x (values s.clients) s.heap c)
        (same_joined x _ _)

  joined-delete_channel :
      (name : Text) (s : Server)
      → (client (delete_channel name s).heap c).joined_channels ≡ (client s.heap c).joined_channels
  unfolding delete_channel client
  joined-delete_channel name s = elim (Option-cases (lookup (to_lower name) s.channels)) [
    | inl e ↦ rw (e, delete_channel, client) refl
    | inr (x, e) ↦
        rw (e, delete_channel, client) (unfold clear_invited_users on_heap in joined-cleared x s)
  ]

  joined-delete_if_empty :
      (ch : ℕ) (name : Text) (s : Server)
      → (client (delete_if_empty ch name s).heap c).joined_channels
        ≡ (client s.heap c).joined_channels
  unfolding delete_if_empty
  joined-delete_if_empty ch name s =
      if_both
        (λ (t : Server). (client t.heap c).joined_channels ≡ (client s.heap c).joined_channels)
        (is_channel_empty (channel s.heap ch)) _ _ (λ e. joined-delete_channel name s) (λ e. refl)

  has-next :
      (first name : Text) (x : ℕ) (rest : Map Text ℕ)
      → has first ((name, x) ∷ rest) ≡ false
      → (text_eq first name ≡ false) × (has first rest ≡ false)
  unfolding has lookup
  has-next first name x rest u = ground (arith, text_eq_iff first name, text_eq_iff name first)

  -- What is left to leave: each name once, each a channel that the client is in.
  abbrev StillIn : Map Text ℕ → Heap → Type 0
  StillIn rest h = Each (λ name ch. lookup name (client h c).joined_channels ≡ some ch) rest

  StillIn-later :
      (ch : ℕ) (first : Text) (rest : Map Text ℕ) (s : Server)
      → Inv s
      → IsLiveClient s.heap c
      → IsLiveChannel s.heap ch
      → is_member (channel s.heap ch) c ≡ true
      → (channel s.heap ch).name ≡ first
      → has first rest ≡ false
      → StillIn rest s.heap
      → StillIn rest (on_heap (handle_part ch c []) s ▷ delete_if_empty ch first).heap
  StillIn-later ch first [] s v lc lch m n u e = tt
  StillIn-later ch first ((name, x) ∷ rest) s v lc lch m n u e = (
    rw (joined-delete_if_empty ch first (on_heap (handle_part ch c []) s)) (
        unfold on_heap in
        joined-handle_part ch s.heap name x lch lc m (rw n (has-next first name x rest u).0) e.0),
    StillIn-later ch first rest s v lc lch m n (has-next first name x rest u).1 e.1,
  )

  pub Keeps-part_all :
      (rest : Map Text ℕ) (s : Server)
      → Inv s
      → IsLiveClient s.heap c
      → UniqueKeys rest
      → StillIn rest s.heap
      → Keeps s (part_all c rest s)
  unfolding part_all
  Keeps-part_all [] s v l u e = Keeps-refl s v
  Keeps-part_all ((name, ch) ∷ rest) s v l u e =
      let there = v.linked.joined_member c name ch e.0 in
      let lch = live_of_member s.heap ch c there.0 in
      let named : find_channel s name ≡ some ch =
        unfold find_channel in rw there.1 at (v.channels_listed ch lch) in
      let first : Keeps s (on_heap (handle_part ch c []) s ▷ delete_if_empty ch name) =
        Keeps-swept ch name
          (Keeps-Moves s _ v (Moves-handle_part ch c s.heap lch l [] (eq_self ch)))
          (found_still s _ name named) in
      Keeps-and first (λ a.
        Keeps-part_all rest _ a (first.still_live c l) u.1
          (StillIn-later ch name rest s v l lch there.0 there.1 u.0 e.1))

  pub Each-of-lookup :
      (P : Text → ℕ → Type 0) (m : Map Text ℕ)
      → UniqueKeys m
      → ((name : Text) (x : ℕ) → lookup name m ≡ some x → P name x)
      → Each P m
  Each-of-lookup P [] u f = tt
  Each-of-lookup P ((first, ch) ∷ m) u f = (
    f first ch (unfold lookup in ground (arith, text_eq_iff first first)),
    Each-of-lookup P m u.1
        (λ name x e. f name x (unfold has lookup in ground (arith, text_eq_iff first name, u.0))),
  )
