-- ===== src/Handlers/Access.antt =====
-- Who is in a channel after handleJoin, handlePart and handleKick of channel/Channel.cpp.
use ft_irc.Base.{
  ℕ, Bool, ◌≡◌, ◌==◌, ◌&&◌, ◌||◌, not, ◌∙◌, ap, true, false, if_both, is_empty, Text, arith,
  contains-remove,
}
use ft_irc.Channel.{Channel, check_key, is_full, is_invited, is_member, is_operator, add_operator}
use ft_irc.Heap.{Heap, channel, on_channel}
use ft_irc.Heap.Quiet.{
  IsLiveClient, IsLiveChannel, quiet-send_to_one, quiet-send_to_all, channel-on_channel,
}
use ft_irc.Heap.Silent.{Silent, channel-silent, IsLiveClient-silent, IsLiveChannel-silent}
use ft_irc.Handlers.Member.{handle_join, handle_part, handle_kick, enter, remove_member}
use ft_irc.Links.Join.{quiet-welcome, member-let_in}
use ft_irc.Heap.Live.{live_of_member}
use ft_irc.Links.Leave.{channel-remove_member}

-- What JOIN asks of the client.
abbrev pub may_join : Channel → ℕ → Text → Bool
may_join c user key =
    (is_empty c.key || check_key c key)
    && (not c.invite_only || is_invited c user)
    && not (is_full c)

member-Silent :
    (h h' : Heap) (ch u : ℕ)
    → Silent h h'
    → is_member (channel h' ch) u ≡ is_member (channel h ch) u
member-Silent h h' ch u q = ap (λ (c : Channel). is_member c u) (channel-silent h h' q ch)

module _ (ch u : ℕ) (h : Heap) (lc : IsLiveChannel h ch) (lu : IsLiveClient h u) where
  operator_stays :
      (k : Heap)
      → IsLiveChannel k ch
      → is_member (channel k ch) u ≡ true
      → is_member (channel (on_channel ch (add_operator u) k) ch) u ≡ true
  unfolding add_operator
  operator_stays k l m = rw (channel-on_channel ch (add_operator u) k ch l) (ground (arith, m))

  member-enter : is_member (channel h ch) u ≡ false → is_member (channel (enter ch u h) ch) u ≡ true
  unfolding enter
  member-enter n =
      member-Silent _ _ ch u (quiet-welcome ch u _)
      ∙ if_both (λ (k : Heap). is_member (channel k ch) u ≡ true) (is_empty (channel h ch).members)
          _ _
          (λ e.
            operator_stays _ (live_of_member _ ch u (member-let_in ch u h lc lu n))
              (member-let_in ch u h lc lu n))
          (λ e. member-let_in ch u h lc lu n)

  -- If the channel and the client are there, the client is in the channel after JOIN just if it
  -- was in it before, or the key, the invitation and the limit allow it.
  pub handle_join-admits :
      (key : Text)
      → is_member (channel (handle_join ch u key h) ch) u
        ≡ (is_member (channel h ch) u || may_join (channel h ch) u key)
  unfolding handle_join
  handle_join-admits key =
      if_both
        (λ (k : Heap).
          is_member (channel k ch) u
          ≡ (is_member (channel h ch) u || may_join (channel h ch) u key))
        (is_member (channel h ch) u) _ _ (λ m. ground (arith, m))
        (λ m.
          if_both
            (λ (k : Heap).
              is_member (channel k ch) u
              ≡ (is_member (channel h ch) u || may_join (channel h ch) u key))
            (not (is_empty (channel h ch).key) && not (check_key (channel h ch) key)) _ _
            (λ n. member-Silent _ _ ch u (quiet-send_to_one u _ h) ∙ ground (arith, m, n))
            (λ n.
              if_both
                (λ (k : Heap).
                  is_member (channel k ch) u
                  ≡ (is_member (channel h ch) u || may_join (channel h ch) u key))
                ((channel h ch).invite_only && not (is_invited (channel h ch) u)) _ _
                (λ i. member-Silent _ _ ch u (quiet-send_to_one u _ h) ∙ ground (arith, m, n, i))
                (λ i.
                  if_both
                    (λ (k : Heap).
                      is_member (channel k ch) u
                      ≡ (is_member (channel h ch) u || may_join (channel h ch) u key))
                    (is_full (channel h ch)) _ _
                    (λ f. member-Silent _ _ ch u (quiet-send_to_one u _ h) ∙ ground (arith, m, f))
                    (λ f. member-enter m ∙ ground (arith, m, n, i, f)))))

  member-remove_member :
      (k : Heap) (p : ℕ)
      → IsLiveChannel k ch
      → IsLiveClient k u
      → is_member (channel (remove_member ch u k) ch) p
        ≡ (is_member (channel k ch) p && not (u == p))
  member-remove_member k p lk luk =
      rw (channel-remove_member ch u k lk luk ch)
        (ground (arith, contains-remove u (channel k ch).members p))

  -- If the channel and the client are there, then after PART those are in the channel who were
  -- in it before, but for that client.
  pub handle_part-leaves :
      (message : Text) (p : ℕ)
      → is_member (channel (handle_part ch u message h) ch) p
        ≡ (is_member (channel h ch) p && not (u == p))
  unfolding handle_part
  handle_part-leaves message p =
      if_both
        (λ (k : Heap). is_member (channel k ch) p ≡ (is_member (channel h ch) p && not (u == p)))
        (not (is_member (channel h ch) u)) _ _
        (λ n. member-Silent _ _ ch p (quiet-send_to_one u _ h) ∙ ground (arith, n))
        (λ m. after_notice _ (quiet-send_to_all ch _ h) p)
    where
      after_notice :
          (k : Heap)
          → Silent h k
          → (p : ℕ)
          → is_member (channel (remove_member ch u k) ch) p
            ≡ (is_member (channel h ch) p && not (u == p))
      after_notice k q p =
          member-remove_member k p (IsLiveChannel-silent h k q ch lc)
            (IsLiveClient-silent h k q u lu)
          ∙ ground (arith, member-Silent h k ch p q)

  -- If the channel and the kicked client are there, then after KICK those are in the channel who
  -- were in it before, but for the kicked client if the kicking client is in the channel and an
  -- operator of it.
  pub handle_kick-removes :
      (kicking : ℕ) (comment : Text) (p : ℕ)
      → is_member (channel (handle_kick ch kicking u comment h) ch) p ≡ (
          is_member (channel h ch) p
          && not (is_member (channel h ch) kicking && is_operator (channel h ch) kicking && u == p))
  unfolding handle_kick
  handle_kick-removes kicking comment p =
      if_both Kicked (not (is_member (channel h ch) kicking)) _ _
        (λ n. member-Silent _ _ ch p (quiet-send_to_one kicking _ h) ∙ ground (arith, n))
        (λ m.
          if_both Kicked (not (is_operator (channel h ch) kicking)) _ _
            (λ n. member-Silent _ _ ch p (quiet-send_to_one kicking _ h) ∙ ground (arith, n))
            (λ o.
              if_both Kicked (not (is_member (channel h ch) u)) _ _
                (λ n. member-Silent _ _ ch p (quiet-send_to_one kicking _ h) ∙ ground (arith, n))
                (λ n. after_kick _ (quiet-send_to_all ch _ h) ∙ ground (arith, m, o))))
    where
      Kicked : Heap → Type 0
      Kicked k = is_member (channel k ch) p ≡ (
          is_member (channel h ch) p
          && not (is_member (channel h ch) kicking && is_operator (channel h ch) kicking && u == p))

      after_kick :
          (k : Heap)
          → Silent h k
          → is_member (channel (remove_member ch u k) ch) p
            ≡ (is_member (channel h ch) p && not (u == p))
      after_kick k q =
          member-remove_member k p (IsLiveChannel-silent h k q ch lc)
            (IsLiveClient-silent h k q u lu)
          ∙ ground (arith, member-Silent h k ch p q)
