-- ===== src/Server/People/Moves.antt =====
-- The persons, through what the handlers do.
use ft_irc.Links.Moves.{silent, change, leave, enter, invite, done, after}
use ft_irc.Heap.{client, channel, Heap}
use ft_irc.Channel.{is_member}
use ft_irc.Heap.Silent.{channel-silent}
use ft_irc.Heap.Quiet.{channel-on_channel}
use ft_irc.Server.People.{People-same, People, Persona}
use ft_irc.Links.Enter.{channel-let_in}
use ft_irc.Links.Leave.{channel-remove_member}
use ft_irc.Links.Objects.{SameObjects-Move, of_IsLiveClient-same, identity-same, Identity}
use ft_irc.Links.Invite.{channel-note_invitation}
use ft_irc.Links.Moves.{Move, Moves, silent, change, leave, done, after}
use ft_irc.Base.{
  ℕ, ◌==◌, ==_iff, Bool-cases, contains-push_back, contains-remove, ◌≡◌, ap, ◌⊎◌, inl, inr, Bool,
  true, arith,
}

abbrev pub persona_of : Identity → Persona
persona_of i = record {
  nickname = i.nickname;
  username = i.username;
  is_registered = i.is_registered;
  is_password_verified = i.is_password_verified;
}

-- Who is in a channel after a move was in it before, or is registered.
members-Move :
    {L : ℕ → Bool} {h h' : Heap}
    → Move L h h'
    → (x p : ℕ) → is_member (channel h' x) p ≡ true
    → (is_member (channel h x) p ≡ true) ⊎ ((client h p).is_registered ≡ true)
members-Move {h = h} (silent h' e) x p m = inl (rw (channel-silent h h' e x) at m)
members-Move {h = h} (change ch f lc k) x p m =
    inl (ground (arith, rw (channel-on_channel ch f h x lc) at m, k.same_members, ==_iff ch x))
members-Move {h = h} (leave ch u lc lu n a) x p m = inl (
    ground (
      arith,
      rw (channel-remove_member ch u h lc lu x) at m,
      ==_iff ch x,
      contains-remove u (channel h ch).members p,
    ))
members-Move {h = h} (enter ch u lc lu n r) x p m =
    let m' = rw (channel-let_in ch u h lc lu n x) at m in
    elim (Bool-cases (u == p)) [
      | inl same ↦ inr (ground (arith, same, r))
      | inr other ↦
          inl
            (ground (arith, m', other, ==_iff ch x, contains-push_back (channel h ch).members u p))
    ]
members-Move {h = h} (invite ch u lc lu n i) x p m =
    inl (ground (arith, rw (channel-note_invitation ch u h lc lu x) at m, ==_iff ch x))

People-Move : {L : ℕ → Bool} {h h' : Heap} → Move L h h' → People h → People h'
People-Move {h = h} {h' = h'} m v =
    let same = SameObjects-Move m in
    People-same h h' (λ p. ap persona_of (identity-same h h' same p))
      (of_IsLiveClient-same h h' same)
      (λ x p e. elim (members-Move m x p e) [ inl q ↦ v.members_registered x p q | inr q ↦ q ]) v

pub People-Moves : {L : ℕ → Bool} {h h' : Heap} → Moves L h h' → People h → People h'
People-Moves done v = v
People-Moves (after a m) v = People-Move m (People-Moves a v)
