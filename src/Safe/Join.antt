-- ===== src/Safe/Join.antt =====
-- The invariant through common/commandlist/Join.cpp.
use ft_irc.Server.Changes.{Keeps-Moves, Keeps-say}
use ft_irc.Safe.PartAll.{Keeps-part_all, Each-of-lookup}
use ft_irc.Server.Found.{Found-find_or_create, Found}
use ft_irc.Handlers.Access.{handle_join-admits}
use ft_irc.Server.Vacant.{IsVacant}
use ft_irc.Server.Inv.{Inv}
use ft_irc.Commands.Rooms.{join_channel, join_params, join, is_valid_channel_name}
use ft_irc.Parse.Message.{Message}
use ft_irc.Links.Join.{Moves-handle_join}
use ft_irc.Server.Keeps.{Keeps, Keeps-and, Keeps-refilled}
use ft_irc.Server.{on_heap, Server}
use ft_irc.Channel.{is_member, is_channel_empty, new_channel, is_full}
use ft_irc.Heap.{client, channel, Heap}
use ft_irc.Map.{text_key, nat_key}
use ft_irc.Handlers.Member.{handle_join}
use ft_irc.Heap.Quiet.{IsLiveClient, IsLiveChannel}
use ft_irc.Base.{
  Text, List, codes, text_eq, ℕ, ◌≡◌, arith, not, if_both, ◌∷◌, inl, inr, true, [], is_empty,
  contains, subst, ◌∙◌, not-false,
}

module _ (c : ℕ) where
  not_vacant : (h : Heap) (x : ℕ) → is_member (channel h x) c ≡ true → ¬ IsVacant h x
  unfolding is_channel_empty
  not_vacant h x m w = some_member (channel h x).members m w.1
    where
      some_member : (xs : List ℕ) → contains xs c ≡ true → ¬ (is_empty xs ≡ true)
      some_member [] n e = absurd (unfold contains in cc)
      some_member (y ∷ xs) n e = absurd (cc)

  -- Whoever comes first to a new channel is let in.
  new_admits :
      (h : Heap) (ch : ℕ) (name key : Text)
      → IsLiveChannel h ch
      → IsLiveClient h c
      → channel h ch ≡ new_channel name
      → is_member (channel (handle_join ch c key h) ch) c ≡ true
  new_admits h ch name key lc l new =
      handle_join-admits ch c h lc l key ∙ rw new (unfold new_channel is_full in ground arith)

  Keeps-let_in :
      (key name : Text) (s t : Server) (ch : ℕ)
      → Found name s t ch
      → IsLiveClient s.heap c
      → (client s.heap c).is_registered ≡ true
      → Keeps s (on_heap (handle_join ch c key) t)
  Keeps-let_in key name s t ch made l r =
      let l' = made.mostly.still_live c l in
      let r' = made.still_registered c r in
      elim made.old_or_new [
        | inl k ↦
            Keeps-and k
              (λ a. Keeps-Moves t _ a (Moves-handle_join ch c key t.heap made.there l' r'))
        | inr new ↦
            Keeps-refilled
              (Keeps-and made.mostly
                (λ a. Keeps-Moves t _ a (Moves-handle_join ch c key t.heap made.there l' r')))
              (λ x at_ch w.
                let same : ch ≡ x = ground (arith, at_ch) in
                filled x
                  (subst (λ y. is_member (channel (handle_join ch c key t.heap) y) c ≡ true) same
                    (new_admits t.heap ch name key made.there l' new))
                  w)
      ]
    where
      filled :
          (x : ℕ)
          → is_member (channel (handle_join ch c key t.heap) x) c ≡ true
          → ¬ IsVacant (on_heap (handle_join ch c key) t).heap x
      filled x m = unfold on_heap in not_vacant (handle_join ch c key t.heap) x m

  Keeps-join_channel :
      (name key : Text) (s : Server)
      → Inv s
      → IsLiveClient s.heap c
      → (client s.heap c).is_registered ≡ true
      → Keeps s (join_channel c name key s)
  unfolding join_channel
  Keeps-join_channel name key s v l r =
      if_both (Keeps s) (text_eq name (codes "0")) _ _
        (λ e.
          Keeps-part_all c _ s v l (v.linked.keys c)
            (Each-of-lookup c _ _ (v.linked.keys c) (λ n x q. q)))
        (λ e.
          if_both (Keeps s) (not (is_valid_channel_name name)) _ _ (λ n. Keeps-say s c _ v)
            (λ n. Keeps-let_in key name s _ _ (Found-find_or_create name s v (not-false _ n)) l r))

  Keeps-join_params :
      (params : List Text) (s : Server)
      → Inv s
      → IsLiveClient s.heap c
      → (client s.heap c).is_registered ≡ true
      → Keeps s (join_params c params s)
  unfolding join_params
  Keeps-join_params [] s v l r = Keeps-say s c _ v
  Keeps-join_params (name ∷ []) s v l r = Keeps-join_channel name [] s v l r
  Keeps-join_params (name ∷ key ∷ more) s v l r = Keeps-join_channel name key s v l r

  -- If the invariant holds and client c is there and registered, it holds after JOIN with any
  -- parameters, JOIN 0 included; the table of connections stays, and every client that is there
  -- stays, with its descriptor and read buffer; who has given the server's password then had
  -- given it before; and a channel that is without members then was so before.
  pub Keeps-join :
      (msg : Message) (s : Server)
      → Inv s
      → IsLiveClient s.heap c
      → (client s.heap c).is_registered ≡ true
      → Keeps s (join c msg s)
  unfolding join
  Keeps-join msg s v l r = Keeps-join_params msg.parameter s v l r
