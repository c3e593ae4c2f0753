-- ===== src/Links/Moves.antt =====
-- What the handlers do to clients and channels, move by move.
use ft_irc.Heap.{channel, on_channel, send_to_one, Heap, client}
use ft_irc.Links.{Linked-of-quiet, Linked-quiet, Linked}
use ft_irc.Handlers.Member.{remove_member}
use ft_irc.Channel.{is_invited, is_member, Channel}
use ft_irc.Heap.Silent.{Silent}
use ft_irc.Heap.Quiet.{quiet-send_to_one, IsLiveClient, IsLiveChannel}
use ft_irc.Base.{Text, Bool, ℕ, ◌≡◌, true, false, ◌==◌}
use ft_irc.Links.Enter.{let_in, Linked-let_in}
use ft_irc.Links.Leave.{Linked-remove_member}
use ft_irc.Links.Invite.{note_invitation, Linked-note_invitation}
use ft_irc.Links.Settings.{Linked-on_channel, KeepsPeople}

-- Every channel may be left, or none, or one.
abbrev pub nowhere : ℕ → Bool
nowhere x = false

abbrev pub only : ℕ → ℕ → Bool
only ch x = ch == x

abbrev pub anywhere : ℕ → Bool
anywhere x = true

-- One move. Only the channels in `L` can be left.
pub data Move (L : ℕ → Bool) (h : Heap) : Heap → Type 0 where
  -- Messages only.
  silent : (h' : Heap) → Silent h h' → Move L h h'
  -- A change of one channel that leaves alone who is in it and who is invited.
  change :
      (ch : ℕ) (f : Channel → Channel)
      → IsLiveChannel h ch
      → KeepsPeople f (channel h ch)
      → Move L h (on_channel ch f h)
  leave :
      (ch u : ℕ)
      → IsLiveChannel h ch
      → IsLiveClient h u
      → is_member (channel h ch) u ≡ true
      → L ch ≡ true
      → Move L h (remove_member ch u h)
  enter :
      (ch u : ℕ)
      → IsLiveChannel h ch
      → IsLiveClient h u
      → is_member (channel h ch) u ≡ false
      → (client h u).is_registered ≡ true
      → Move L h (let_in ch u h)
  invite :
      (ch u : ℕ)
      → IsLiveChannel h ch
      → IsLiveClient h u
      → is_member (channel h ch) u ≡ false
      → is_invited (channel h ch) u ≡ false
      → Move L h (note_invitation ch u h)

pub data Moves (L : ℕ → Bool) (h : Heap) : Heap → Type 0 where
  done : Moves L h h
  after : {k k' : Heap} → Moves L h k → Move L k k' → Moves L h k'

pub one : {L : ℕ → Bool} {h h' : Heap} → Move L h h' → Moves L h h'
one m = after done m

pub Moves-trans : {L : ℕ → Bool} {h k k' : Heap} → Moves L h k → Moves L k k' → Moves L h k'
Moves-trans a done = a
Moves-trans a (after b m) = after (Moves-trans a b) m

pub say : {L : ℕ → Bool} (u : ℕ) (message : Text) (h : Heap) → Moves L h (send_to_one u message h)
say u message h = one (silent _ (quiet-send_to_one u message h))

pub Linked-Silent : (h h' : Heap) → Silent h h' → Linked h → Linked h'
Linked-Silent h h' e l = Linked-of-quiet (rw e (Linked-quiet l))

Linked-Move : {L : ℕ → Bool} {h h' : Heap} → Move L h h' → Linked h → Linked h'
Linked-Move {h = h} (silent h' e) l = Linked-Silent h h' e l
Linked-Move {h = h} (change ch f lc k) l = Linked-on_channel ch f h lc k l
Linked-Move {h = h} (leave ch u lc lu m a) l = Linked-remove_member ch u h lc lu m l
Linked-Move {h = h} (enter ch u lc lu n r) l = Linked-let_in ch u h lc lu n l
Linked-Move {h = h} (invite ch u lc lu m i) l = Linked-note_invitation ch u h lc lu m i l

pub Linked-Moves : {L : ℕ → Bool} {h h' : Heap} → Moves L h h' → Linked h → Linked h'
Linked-Moves done l = l
Linked-Moves (after a m) l = Linked-Move m (Linked-Moves a l)
