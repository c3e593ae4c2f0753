-- ===== src/Room/Enter.antt =====
-- handleJoin of channel/Channel.cpp does to a channel what is said of its room.
use ft_irc.Heap.{channel, on_channel, send_to_one, Heap}
use ft_irc.Handlers.Member.{handle_join}
use ft_irc.Handlers.Member.{enter}
use ft_irc.Heap.Live.{live_of_member}
use ft_irc.Heap.Silent.{channel-silent}
use ft_irc.Heap.Quiet.{quiet-send_to_one, IsLiveClient, IsLiveChannel, channel-on_channel}
use ft_irc.Room.Refine.{length-push_back, same_room, Refines, Refines-silently, Refines-after}
use ft_irc.Links.Join.{quiet-welcome, member-let_in}
use ft_irc.Channel.{is_member, add_operator, Channel, check_key, is_full, is_invited, is_operator}
use ft_irc.Room.{room_of, admits, with_one, without_one, Room}
use ft_irc.Room.{join}
use ft_irc.Base.{
  ◌==◌, if◌then◌else◌, not, if_both, length, is_empty, Text, ℕ, ◌≡◌, refl, false, List, [], ◌∷◌,
  arith, ==_iff, contains-push_back, contains-remove, suc, sym, ap, ◌∙◌, true, ◌&&◌,
}
use ft_irc.Links.Enter.{with_member, let_in, channel-let_in}

abbrev entered : ℕ → Channel → Channel
entered u c = if is_empty c.members then add_operator u (with_member u c) else with_member u c

empty_size : (xs : List ℕ) → is_empty xs ≡ (length xs == 0)
empty_size [] = refl
empty_size (x ∷ xs) = ground arith

room_of-add_operator :
    (u : ℕ) (c : Channel)
    → room_of (add_operator u c)
      ≡ record (room_of c) { operators = with_one u (room_of c).operators }
unfolding add_operator
room_of-add_operator u c =
    if_both
      (λ (d : Channel).
        room_of d ≡ record (room_of c) { operators = with_one u (room_of c).operators })
      (not (is_operator c u)) _ _
      (λ n. same_room _ refl (λ p. refl) (λ p. contains-push_back c.operators u p) (λ p. refl))
      (λ n. same_room _ refl (λ p. refl) (λ p. ground (arith, n, ==_iff u p)) (λ p. refl))

room_of-with_member :
    (u : ℕ) (c : Channel)
    → room_of (with_member u c) ≡ record (room_of c) {
      size = suc (room_of c).size;
      members = with_one u (room_of c).members;
      invited = without_one u (room_of c).invited;
    }
room_of-with_member u c =
    same_room _ (length-push_back u c.members) (contains-push_back c.members u) (λ p. refl)
      (λ p. ground (arith, contains-remove u c.invited_users p))

room_of-entered :
    (u : ℕ) (key : Text) (c : Channel)
    → (not (is_member c u) && admits u key (room_of c)) ≡ true
    → room_of (entered u c) ≡ join u key (room_of c)
room_of-entered u key c n =
    if_both (λ (d : Channel). room_of d ≡ join u key (room_of c)) (is_empty c.members) _ _
      (λ e.
        let nobody : length c.members == 0 ≡ true = sym (empty_size c.members) ∙ e in
        rw (n, nobody)
          (room_of-add_operator u (with_member u c)
            ∙ ap (λ (r : Room). record r { operators = with_one u r.operators })
                (room_of-with_member u c)))
      (λ e.
        let some_one : length c.members == 0 ≡ false = sym (empty_size c.members) ∙ e in
        rw (n, some_one) (room_of-with_member u c))

module _ (ch u : ℕ) (key : Text) (h : Heap) (lc : IsLiveChannel h ch) (lu : IsLiveClient h u) where
  Refines-enter :
      (not (is_member (channel h ch) u) && admits u key (room_of (channel h ch))) ≡ true
      → Refines ch (join u key) h (enter ch u h)
  unfolding enter
  Refines-enter n x =
      ap room_of (channel-silent _ _ (quiet-welcome ch u _) x)
      ∙ Refines-after ch (join u key) h h _ (entered u) refl channel_entered
          (room_of-entered u key (channel h ch) n) x
    where
      out : is_member (channel h ch) u ≡ false
      out = ground (arith, n)

      there : IsLiveChannel (let_in ch u h) ch
      there = live_of_member _ ch u (member-let_in ch u h lc lu out)

      channel_entered :
          (y : ℕ)
          → channel
              (if is_empty (channel h ch).members
                then on_channel ch (add_operator u) (let_in ch u h)
                else let_in ch u h)
              y
            ≡ (if ch == y then entered u (channel h ch) else channel h y)
      channel_entered y =
          if_both
            (λ (k : Heap).
              channel k y ≡ (if ch == y then entered u (channel h ch) else channel h y))
            (is_empty (channel h ch).members) _ _
            (λ e.
              rw
                (
                  channel-on_channel ch (add_operator u) (let_in ch u h) y there,
                  channel-let_in ch u h lc lu out y,
                  channel-let_in ch u h lc lu out ch,
                )
                (ground (arith, e)))
            (λ e. rw (channel-let_in ch u h lc lu out y) (ground (arith, e)))

  pub handle_join-Refines : Refines ch (join u key) h (handle_join ch u key h)
  unfolding handle_join is_full check_key
  handle_join-Refines =
      if_both (Refines ch (join u key) h) (is_member (channel h ch) u) _ _
        (λ m. Refines-silently ch (join u key) h h refl (ground (arith, m)))
        (λ m.
          if_both (Refines ch (join u key) h)
            (not (is_empty (channel h ch).key) && not (check_key (channel h ch) key)) _ _
            (λ n. refused _ (ground (arith, n)))
            (λ k.
              if_both (Refines ch (join u key) h)
                ((channel h ch).invite_only && not (is_invited (channel h ch) u)) _ _
                (λ n. refused _ (ground (arith, n)))
                (λ i.
                  if_both (Refines ch (join u key) h) (is_full (channel h ch)) _ _
                    (λ n. refused _ (ground (arith, n)))
                    (λ f. Refines-enter (ground (arith, m, k, i, f))))))
    where
      refused :
          (message : Text)
          → join u key (room_of (channel h ch)) ≡ room_of (channel h ch)
          → Refines ch (join u key) h (send_to_one u message h)
      refused message e = Refines-silently ch (join u key) h _ (quiet-send_to_one u _ h) e
