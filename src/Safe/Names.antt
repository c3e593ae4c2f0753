-- ===== src/Safe/Names.antt =====
-- What `findChannel` and `findClientByNickname` find in a server that `Server::run` reaches.
use ft_irc.Heap.Live.{live_of_member, live_of_joined}
use ft_irc.Map.{Map, lookup, values, text_key, nat_key}
use ft_irc.Map.Each.{Each, contains-values}
use ft_irc.Safe.Reach.{IsReachable-Inv, IsReachable}
use ft_irc.Safe.Rooms.{live_of_nickname}
use ft_irc.Channel.{is_member}
use ft_irc.Heap.Quiet.{IsLiveClient, IsLiveChannel}
use ft_irc.Server.Inv.{ClientEntry, live_of_find_channel, Inv}
use ft_irc.Reply.{to_lower}
use ft_irc.Server.{client_by_nickname, find_channel, find_client_by_nickname, Server}
use ft_irc.Heap.{client, Heap, channel}
use ft_irc.Base.{
  Bool-cases, contains, Text, text_eq, text_eq_iff, ℕ, ◌≡◌, subst, inl, inr, true, ◌&&◌, some, List,
  [], ◌∷◌, arith, ◌==◌, ==_iff, sym, ap, ◌∙◌, ◌↔◌, false,
}

module _ (h : Heap) (nickname : Text) where
  -- A client that answers to the nickname.
  abbrev Answers : ℕ → Type 0
  Answers p =
      ((client h p).is_registered ≡ true) × (to_lower (client h p).nickname ≡ to_lower nickname)

  client_by_nickname-Answers :
      (ps : List ℕ) (p : ℕ) → client_by_nickname h nickname ps ≡ some p → Answers p
  unfolding client_by_nickname
  client_by_nickname-Answers [] p e = absurd (cc)
  client_by_nickname-Answers (q ∷ ps) p e =
      elim (Bool-cases (
        (client h q).is_registered
        && text_eq (to_lower (client h q).nickname) (to_lower nickname))) [
          | inl hit ↦
              let same : q ≡ p = ground arith in
              subst Answers same (
                ground (arith, hit),
                ground
                    (arith, hit, text_eq_iff (to_lower (client h q).nickname) (to_lower nickname)),
              )
          | inr miss ↦ client_by_nickname-Answers ps p (rw miss at e)
        ]

  client_by_nickname-finds :
      (ps : List ℕ) (p : ℕ)
      → contains ps p ≡ true
      → Answers p
      → ((q : ℕ) → contains ps q ≡ true → Answers q → q ≡ p)
      → client_by_nickname h nickname ps ≡ some p
  unfolding client_by_nickname contains
  client_by_nickname-finds [] p m a only = absurd (cc)
  client_by_nickname-finds (q ∷ ps) p m a only =
      elim (Bool-cases (
        (client h q).is_registered
        && text_eq (to_lower (client h q).nickname) (to_lower nickname))) [
          | inl hit ↦
              let same : q ≡ p = only q (ground (arith, ==_iff q q)) (
                ground (arith, hit),
                ground
                    (arith, hit, text_eq_iff (to_lower (client h q).nickname) (to_lower nickname)),
              ) in
              rw hit (ap some same)
          | inr miss ↦ rw miss (
              client_by_nickname-finds ps p (listed_later q p a miss m) a
                (λ r n. only r (ground (arith, n))))
        ]
    where
      listed_later :
          (q p : ℕ)
          → Answers p
          → ((client h q).is_registered
              && text_eq (to_lower (client h q).nickname) (to_lower nickname))
            ≡ false
          → contains (q ∷ ps) p ≡ true
          → contains ps p ≡ true
      listed_later q p a miss m = elim (Bool-cases (q == p)) [
        | inl same ↦ absurd (
            ground (
              arith,
              same,
              a.0,
              a.1,
              miss,
              text_eq_iff (to_lower (client h q).nickname) (to_lower nickname),
            ))
        | inr other ↦ ground (arith, other, m)
      ]

live_of_listed :
    (h : Heap) (m : Map ℕ ℕ) (q : ℕ)
    → Each (ClientEntry h) m
    → contains (values m) q ≡ true
    → IsLiveClient h q
unfolding contains
live_of_listed h [] q e n = absurd (cc)
live_of_listed h ((fd, p) ∷ m) q e n = elim (Bool-cases (p == q)) [
  | inl same ↦ let p_is_q : p ≡ q = ground (arith, same) in subst (IsLiveClient h) p_is_q e.0.0
  | inr other ↦ live_of_listed h m q e.1 (ground (arith, other, n))
]

module _ (s : Server) (reached : IsReachable s) where
  -- In a reached server, findClientByNickname finds a client just if that client is there, is
  -- registered and has the nickname up to case.
  pub find_client_by_nickname-finds :
      (nickname : Text) (p : ℕ)
      → (find_client_by_nickname s nickname ≡ some p) ↔ (
          IsLiveClient s.heap p
          × ((client s.heap p).is_registered ≡ true)
          × (to_lower (client s.heap p).nickname ≡ to_lower nickname))
  unfolding find_client_by_nickname
  find_client_by_nickname-finds nickname p = (
    λ e.
        let a = client_by_nickname-Answers s.heap nickname _ p e in
        (live_of_nickname s nickname v e, a.0, a.1),
    λ (l, r, e).
        client_by_nickname-finds s.heap nickname _ p
          (contains-values _ p s.clients (v.clients_listed p l)) (r, e)
          (λ q n a. sym (
            v.people.nicknames p q l (live_of_listed s.heap s.clients q v.clients_in n)
              (v.people.credentials p r).1 (e ∙ sym a.1))),
  )
    where
      v : Inv s
      v = IsReachable-Inv reached

  -- In a reached server, findChannel finds a channel just if that channel is there and has the
  -- name up to case.
  pub find_channel-finds :
      (name : Text) (x : ℕ)
      → (find_channel s name ≡ some x)
        ↔ (IsLiveChannel s.heap x × (to_lower (channel s.heap x).name ≡ to_lower name))
  unfolding find_channel
  find_channel-finds name x = (
    λ e. live_of_find_channel s name (IsReachable-Inv reached) e,
    λ (l, e). rw e at ((IsReachable-Inv reached).channels_listed x l),
  )

  -- In a reached server, who is in a channel is registered, has given the password and is there,
  -- the channel is there, and the client's own table leads to it by its name.
  pub reached-members :
      (x p : ℕ)
      → is_member (channel s.heap x) p ≡ true
      → ((client s.heap p).is_registered ≡ true)
        × ((client s.heap p).is_password_verified ≡ true)
        × IsLiveClient s.heap p
        × IsLiveChannel s.heap x
        × (lookup (channel s.heap x).name (client s.heap p).joined_channels ≡ some x)
  reached-members x p m =
      let v : Inv s = IsReachable-Inv reached in
      let joined = v.linked.member_joined x p m in
      (
        v.people.members_registered x p m,
        (v.people.credentials p (v.people.members_registered x p m)).0,
        live_of_joined s.heap p (channel s.heap x).name joined,
        live_of_member s.heap x p m,
        joined,
      )
