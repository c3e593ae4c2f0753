-- ===== src/Links/Handlers.antt =====
-- What the handlers of the channel do, as moves.
use ft_irc.Links.Moves.{one, say, Moves, silent, change, leave, done, after, Move}
use ft_irc.Handlers.Talk.{set_topic, handle_topic, handle_channel_privmsg}
use ft_irc.Links.Settings.{KeepsPeople-of-lists, KeepsLists}
use ft_irc.Heap.{channel, Heap, on_channel, send_to_all}
use ft_irc.Handlers.Member.{
  remove_member, handle_part, handle_kick, handle_invite, remove_quit_user,
}
use ft_irc.Channel.{is_member, is_operator, is_invited, Channel}
use ft_irc.Heap.Silent.{Silent, channel-silent, IsLiveChannel-silent, IsLiveClient-silent}
use ft_irc.Heap.Quiet.{
  quiet-send_to_one, quiet-send_to_all, IsLiveClient, IsLiveChannel, quiet-send_to_all_except,
}
use ft_irc.Base.{if_both, not-false, Text, ℕ, ◌≡◌, refl, true, not, is_empty, Bool, ◌&&◌}

module _ (ch u : ℕ) (h : Heap) (lc : IsLiveChannel h ch) (lu : IsLiveClient h u) where
  -- After any messages a member leaves.
  pub leave_after :
      {L : ℕ → Bool} (h' : Heap)
      → Silent h h'
      → is_member (channel h ch) u ≡ true
      → L ch ≡ true
      → Moves L h (remove_member ch u h')
  leave_after h' e m a = after (one (silent h' e)) (
      leave ch u (IsLiveChannel-silent h h' e ch lc) (IsLiveClient-silent h h' e u lu)
        (rw (channel-silent h h' e ch) m) a)

  pub Moves-handle_part :
      {L : ℕ → Bool} (message : Text) → L ch ≡ true → Moves L h (handle_part ch u message h)
  unfolding handle_part
  Moves-handle_part message a =
      if_both (Moves _ h) _ _ _ (λ n. say u _ h)
        (λ m. leave_after _ (quiet-send_to_all ch _ h) (not-false _ m) a)

  pub Moves-remove_quit_user : {L : ℕ → Bool} → L ch ≡ true → Moves L h (remove_quit_user ch u h)
  unfolding remove_quit_user
  Moves-remove_quit_user a = if_both (Moves _ h) _ _ _ (λ m. leave_after h refl m a) (λ n. done)

pub Moves-handle_kick :
    {L : ℕ → Bool} (ch kicking kicked : ℕ) (comment : Text) (h : Heap)
    → IsLiveChannel h ch
    → IsLiveClient h kicked
    → L ch ≡ true
    → Moves L h (handle_kick ch kicking kicked comment h)
unfolding handle_kick
Moves-handle_kick ch kicking kicked comment h lc lu a =
    if_both (Moves _ h) (not (is_member (channel h ch) kicking)) _ _ (λ n. say kicking _ h)
      (λ m.
        if_both (Moves _ h) (not (is_operator (channel h ch) kicking)) _ _ (λ n. say kicking _ h)
          (λ o.
            if_both (Moves _ h) (not (is_member (channel h ch) kicked)) _ _ (λ n. say kicking _ h)
              (λ k. leave_after ch kicked h lc lu _ (quiet-send_to_all ch _ h) (not-false _ k) a)))

pub Moves-handle_invite :
    {L : ℕ → Bool} (ch inviting invited : ℕ) (h : Heap)
    → IsLiveChannel h ch
    → IsLiveClient h invited
    → Moves L h (handle_invite ch inviting invited h)
unfolding handle_invite
Moves-handle_invite ch inviting invited h lc lu =
    if_both (Moves _ h) (not (is_member (channel h ch) inviting)) _ _ (λ n. say inviting _ h)
      (λ m.
        if_both (Moves _ h)
          ((channel h ch).invite_only && not (is_operator (channel h ch) inviting)) _ _
          (λ n. say inviting _ h)
          (λ o.
            if_both (Moves _ h) (is_invited (channel h ch) invited) _ _ (λ n. done)
              (λ i.
                if_both (Moves _ h) (is_member (channel h ch) invited) _ _ (λ n. say inviting _ h)
                  (λ k.
                    after
                      (after (one (Move.invite ch invited lc lu k i))
                        (silent _ (quiet-send_to_one inviting _ _)))
                      (silent _ (quiet-send_to_one invited _ _))))))

pub Moves-handle_channel_privmsg :
    {L : ℕ → Bool} (ch sender : ℕ) (message : Text) (h : Heap)
    → Moves L h (handle_channel_privmsg ch sender message h)
unfolding handle_channel_privmsg
Moves-handle_channel_privmsg ch sender message h =
    if_both (Moves _ h) (not (is_member (channel h ch) sender)) _ _ (λ n. say sender _ h)
      (λ m. one (silent _ (quiet-send_to_all_except ch sender _ h)))

set_topic-KeepsLists : (topic : Text) (c : Channel) → KeepsLists (set_topic topic) c
set_topic-KeepsLists topic c = record {
  same_name = refl;
  same_members = refl;
  same_operators = refl;
  same_invited = refl;
  settled = λ k. k;
}

-- A change of the settings, and then messages.
change_topic :
    {L : ℕ → Bool} (ch : ℕ) (topic message : Text) (h : Heap)
    → IsLiveChannel h ch
    → Moves L h (send_to_all ch message (on_channel ch (set_topic topic) h))
change_topic ch topic message h lc =
    after (one (change ch _ lc (KeepsPeople-of-lists (set_topic-KeepsLists topic _))))
      (silent _ (quiet-send_to_all ch message _))

pub Moves-handle_topic :
    {L : ℕ → Bool} (ch u : ℕ) (topic : Text) (has_topic_param : Bool) (h : Heap)
    → IsLiveChannel h ch
    → Moves L h (handle_topic ch u topic has_topic_param h)
unfolding handle_topic
Moves-handle_topic ch u topic has_topic_param h lc =
    if_both (Moves _ h) (not (is_member (channel h ch) u)) _ _ (λ n. say u _ h)
      (λ m.
        if_both (Moves _ h) (not has_topic_param) _ _
          (λ n.
            if_both (Moves _ h) (is_empty (channel h ch).topic) _ _ (λ e. say u _ h)
              (λ e. say u _ h))
          (λ t.
            if_both (Moves _ h)
              ((channel h ch).topic_by_op_only && not (is_operator (channel h ch) u)) _ _
              (λ n. say u _ h) (λ o. change_topic ch topic _ h lc)))
