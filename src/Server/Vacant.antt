-- ===== src/Server/Vacant.antt =====
-- Channels without members, through what the handlers do.
use ft_irc.Links.Moves.{silent, change, leave, enter, invite, done, after}
use ft_irc.Heap.{channel, Heap}
use ft_irc.Channel.{is_channel_empty}
use ft_irc.Heap.Silent.{channel-silent}
use ft_irc.Heap.Quiet.{IsLiveChannel, channel-on_channel}
use ft_irc.Base.{==_iff, is_empty, push_back, ℕ, ◌≡◌, refl, Bool, true, false, List, [], ◌∷◌, arith}
use ft_irc.Links.Enter.{channel-let_in}
use ft_irc.Links.Leave.{channel-remove_member}
use ft_irc.Links.Objects.{SameObjects-Move, of_IsLiveChannel-same}
use ft_irc.Links.Invite.{channel-note_invitation}
use ft_irc.Links.Moves.{Move, Moves}

abbrev pub IsVacant : Heap → ℕ → Type 0
IsVacant h x = IsLiveChannel h x × (is_channel_empty (channel h x) ≡ true)

empty-push_back : (xs : List ℕ) (p : ℕ) → is_empty (push_back xs p) ≡ false
empty-push_back [] p = refl
empty-push_back (x ∷ xs) p = refl

-- A channel that is without members after a move was so before, if it may not be left.
vacant_before :
    {L : ℕ → Bool} {h h' : Heap}
    → Move L h h'
    → (x : ℕ) → L x ≡ false
    → is_channel_empty (channel h' x) ≡ true
    → is_channel_empty (channel h x) ≡ true
unfolding is_channel_empty
vacant_before {h = h} (silent h' e) x n v = rw (channel-silent h h' e x) at v
vacant_before {h = h} (change ch f lc k) x n v =
    ground (arith, rw (channel-on_channel ch f h x lc) at v, k.same_members, ==_iff ch x)
vacant_before {h = h} (leave ch u lc lu m a) x n v =
    ground (arith, rw (channel-remove_member ch u h lc lu x) at v, n, a, ==_iff ch x)
vacant_before {h = h} (enter ch u lc lu m r) x n v =
    ground
      (arith, rw (channel-let_in ch u h lc lu m x) at v, empty-push_back (channel h ch).members u)
vacant_before {h = h} (invite ch u lc lu m i) x n v =
    ground (arith, rw (channel-note_invitation ch u h lc lu x) at v, ==_iff ch x)

pub IsVacant-Moves :
    {L : ℕ → Bool} {h h' : Heap}
    → Moves L h h'
    → (x : ℕ) → L x ≡ false
    → IsVacant h' x
    → IsVacant h x
IsVacant-Moves done x n v = v
IsVacant-Moves (after a m) x n v =
    IsVacant-Moves a x n
      (of_IsLiveChannel-same _ _ (SameObjects-Move m) x v.0, vacant_before m x n v.1)
