-- ===== src/Room/Refine.antt =====
-- handleJoin, handlePart, handleKick, handleInvite and removeQuitUser of channel/Channel.cpp do
-- to a channel what is said of its room.
use ft_irc.Heap.{channel, send_to_one, Heap}
use ft_irc.Room.{leave, invite, expel}
use ft_irc.Handlers.Member.{
  remove_member, handle_part, handle_kick, handle_invite, remove_quit_user,
}
use ft_irc.Heap.Silent.{Silent, channel-silent, IsLiveChannel-silent, IsLiveClient-silent}
use ft_irc.Heap.Quiet.{quiet-send_to_one, quiet-send_to_all, IsLiveClient, IsLiveChannel}
use ft_irc.Links.{IsRoom}
use ft_irc.Channel.{is_member, is_operator, Channel, is_invited}
use ft_irc.Links.Leave.{without_member, channel-remove_member}
use ft_irc.Links.Invite.{with_invited, note_invitation, channel-note_invitation}
use ft_irc.Room.{Settings, Room, room_of, Crowd, expel}
use ft_irc.Base.{
  ◌==◌, Bool-cases, length, contains, remove, push_back, Distinct, remove_absent, ℕ, suc, ◌-◌, ◌<◌,
  ◌≡◌, refl, ◌∙◌, fun_ext, inl, inr, true, List, [], ◌∷◌, arith, not, contains-push_back,
  contains-remove, ap, false, ◌&&◌, ◌||◌, if◌then◌else◌, if_both, Text, sym, subst, ==_iff,
}

abbrev make : Settings → ℕ → Crowd → Crowd → Crowd → Room
make s n m o i = record { settings = s; size = n; members = m; operators = o; invited = i }

pub length-push_back : (u : ℕ) (xs : List ℕ) → length (push_back xs u) ≡ suc (length xs)
length-push_back u [] = refl
length-push_back u (x ∷ xs) = ground (arith, length-push_back u xs)

length_of_member : (u : ℕ) (xs : List ℕ) → contains xs u ≡ true → 0 < length xs
unfolding contains
length_of_member u [] m = absurd (cc)
length_of_member u (x ∷ xs) m = omega arith

length-remove_one :
    (u : ℕ) (xs : List ℕ)
    → Distinct xs
    → contains xs u ≡ true
    → length (remove u xs) ≡ length xs - 1
unfolding contains remove
length-remove_one u [] d m = absurd (cc)
length-remove_one u (x ∷ xs) d m = elim (Bool-cases (x == u)) [
  | inl same ↦
      let gone : contains xs u ≡ false = ground (arith, same, d.0) in
      ground (arith, same, ap length (remove_absent u xs gone))
  | inr other ↦
      let later : contains xs u ≡ true = ground (arith, other, m) in
      ground (arith, other, length-remove_one u xs d.1 later, length_of_member u xs later)
]

-- Two rooms with the same settings.
pub same_room :
    (s : Settings) {n n' : ℕ} {m m' o o' i i' : Crowd}
    → n ≡ n'
    → ((p : ℕ) → m p ≡ m' p)
    → ((p : ℕ) → o p ≡ o' p)
    → ((p : ℕ) → i p ≡ i' p)
    → make s n m o i ≡ make s n' m' o' i'
same_room s a b c d = λ j. make s (a j) (fun_ext b j) (fun_ext c j) (fun_ext d j)

room_of-without_member :
    (u : ℕ) (c : Channel)
    → IsRoom c
    → is_member c u ≡ true
    → room_of (without_member u c) ≡ leave u (room_of c)
room_of-without_member u c r m = rw m (
    same_room _ (length-remove_one u c.members r.members_distinct m)
      (λ p. ground (arith, contains-remove u c.members p))
      (λ p. ground (arith, contains-remove u c.operators p)) (λ p. refl))

room_of-with_invited :
    (by u : ℕ) (c : Channel)
    → (is_member c by && (not c.invite_only || is_operator c by) && not (is_member c u)) ≡ true
    → room_of (with_invited u c) ≡ invite by u (room_of c)
room_of-with_invited by u c m =
    rw m (same_room _ refl (λ p. refl) (λ p. refl) (λ p. contains-push_back c.invited_users u p))

-- Who is invited already is not invited anew.
room_of-invited :
    (by u : ℕ) (c : Channel) → is_invited c u ≡ true → invite by u (room_of c) ≡ room_of c
room_of-invited by u c i =
    if_both (λ (r : Room). r ≡ room_of c)
      (is_member c by && (not c.invite_only || is_operator c by) && not (is_member c u)) _ _
      (λ m. same_room _ refl (λ p. refl) (λ p. refl) (λ p. ground (arith, i, ==_iff u p)))
      (λ n. refl)

-- One channel's room is changed, and no other.
abbrev pub Refines : ℕ → (Room → Room) → Heap → Heap → Type 0
Refines ch step h h' =
    (x : ℕ)
    → room_of (channel h' x)
      ≡ (if ch == x then step (room_of (channel h ch)) else room_of (channel h x))

-- Messages change no room.
pub Refines-silently :
    (ch : ℕ) (step : Room → Room) (h h' : Heap)
    → Silent h h'
    → step (room_of (channel h ch)) ≡ room_of (channel h ch)
    → Refines ch step h h'
Refines-silently ch step h h' q e x = elim (Bool-cases (ch == x)) [
  | inl same ↦
      let here : ch ≡ x = ground (arith, same) in
      rw same (
        ap room_of (channel-silent h h' q x)
        ∙ subst (λ y. room_of (channel h y) ≡ step (room_of (channel h ch))) here (sym e))
  | inr other ↦ rw other (ap room_of (channel-silent h h' q x))
]

-- A change of one channel, after messages.
pub Refines-after :
    (ch : ℕ) (step : Room → Room) (h k h' : Heap) (c : Channel → Channel)
    → Silent h k
    → ((x : ℕ) → channel h' x ≡ (if ch == x then c (channel k ch) else channel k x))
    → room_of (c (channel h ch)) ≡ step (room_of (channel h ch))
    → Refines ch step h h'
Refines-after ch step h k h' c q there e x = ap room_of (there x) ∙ elim (Bool-cases (ch == x)) [
  | inl same ↦ rw same (ap (λ r. room_of (c r)) (channel-silent h k q ch) ∙ e)
  | inr other ↦ rw other (ap room_of (channel-silent h k q x))
]

-- Two steps that do the same here.
Refines-as :
    (ch : ℕ) (step step' : Room → Room) (h h' : Heap)
    → step' (room_of (channel h ch)) ≡ step (room_of (channel h ch))
    → Refines ch step h h'
    → Refines ch step' h h'
Refines-as ch step step' h h' e r x =
    r x ∙ ap (λ t. if ch == x then t else room_of (channel h x)) (sym e)

module _ (ch u : ℕ) (h : Heap) (lc : IsLiveChannel h ch) (lu : IsLiveClient h u)
    (r : IsRoom (channel h ch)) where
  Refines-leave :
      (k : Heap)
      → Silent h k
      → is_member (channel h ch) u ≡ true
      → Refines ch (leave u) h (remove_member ch u k)
  Refines-leave k q m =
      Refines-after ch (leave u) h k _ (without_member u) q
        (channel-remove_member ch u k (IsLiveChannel-silent h k q ch lc)
          (IsLiveClient-silent h k q u lu))
        (room_of-without_member u (channel h ch) r m)

  pub handle_part-Refines : (message : Text) → Refines ch (leave u) h (handle_part ch u message h)
  unfolding handle_part
  handle_part-Refines message =
      if_both (Refines ch (leave u) h) (not (is_member (channel h ch) u)) _ _
        (λ n. Refines-silently ch (leave u) h _ (quiet-send_to_one u _ h) (ground (arith, n)))
        (λ m. Refines-leave _ (quiet-send_to_all ch _ h) (ground (arith, m)))

  pub handle_kick-Refines :
      (by : ℕ) (comment : Text) → Refines ch (expel by u) h (handle_kick ch by u comment h)
  unfolding handle_kick
  handle_kick-Refines by comment =
      if_both (Refines ch (expel by u) h) (not (is_member (channel h ch) by)) _ _
        (λ n. refused _ (ground (arith, n)))
        (λ m.
          if_both (Refines ch (expel by u) h) (not (is_operator (channel h ch) by)) _ _
            (λ n. refused _ (ground (arith, n)))
            (λ o.
              if_both (Refines ch (expel by u) h) (not (is_member (channel h ch) u)) _ _
                (λ n. refused _ (ground (arith, n)))
                (λ n.
                  Refines-as ch (leave u) (expel by u) h _ (ground (arith, m, o))
                    (Refines-leave _ (quiet-send_to_all ch _ h) (ground (arith, n))))))
    where
      refused :
          (message : Text)
          → expel by u (room_of (channel h ch)) ≡ room_of (channel h ch)
          → Refines ch (expel by u) h (send_to_one by message h)
      refused message e = Refines-silently ch (expel by u) h _ (quiet-send_to_one by _ h) e

  pub remove_quit_user-Refines : Refines ch (leave u) h (remove_quit_user ch u h)
  unfolding remove_quit_user
  remove_quit_user-Refines =
      if_both (Refines ch (leave u) h) (is_member (channel h ch) u) _ _
        (λ m. Refines-leave h refl m)
        (λ n. Refines-silently ch (leave u) h h refl (ground (arith, n)))

  pub handle_invite-Refines : (by : ℕ) → Refines ch (invite by u) h (handle_invite ch by u h)
  unfolding handle_invite
  handle_invite-Refines by =
      if_both (Refines ch (invite by u) h) (not (is_member (channel h ch) by)) _ _
        (λ n. refused _ (ground (arith, n)))
        (λ m.
          if_both (Refines ch (invite by u) h)
            ((channel h ch).invite_only && not (is_operator (channel h ch) by)) _ _
            (λ n. refused _ (ground (arith, n)))
            (λ o.
              if_both (Refines ch (invite by u) h) (is_invited (channel h ch) u) _ _
                (λ i.
                  Refines-silently ch (invite by u) h h refl
                    (room_of-invited by u (channel h ch) i))
                (λ i.
                  if_both (Refines ch (invite by u) h) (is_member (channel h ch) u) _ _
                    (λ n. refused _ (ground (arith, n)))
                    (λ n.
                      told _ _
                        (room_of-with_invited by u (channel h ch) (ground (arith, m, o, n)))))))
    where
      refused :
          (message : Text)
          → invite by u (room_of (channel h ch)) ≡ room_of (channel h ch)
          → Refines ch (invite by u) h (send_to_one by message h)
      refused message e = Refines-silently ch (invite by u) h _ (quiet-send_to_one by _ h) e

      told :
          (reply notice : Text)
          → room_of (with_invited u (channel h ch)) ≡ invite by u (room_of (channel h ch))
          → Refines ch
              (invite by u)
              h
              (send_to_one u notice (send_to_one by reply (note_invitation ch u h)))
      told reply notice e x =
          ap room_of
            (channel-silent _ _ (quiet-send_to_one u notice _ ∙ quiet-send_to_one by reply _) x)
          ∙ Refines-after ch (invite by u) h h _ (with_invited u) refl
              (channel-note_invitation ch u h lc lu) e x
