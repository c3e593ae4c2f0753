-- ===== src/Server/People.antt =====
-- What the server knows of its clients: who is registered, and under which nickname.
pub mod Moves
use ft_irc.Commands.Session.{is_valid_nickname, has_at}
use ft_irc.Heap.Live.{of_live-on_client}
use ft_irc.Links.Private.{on_client-dead}
use ft_irc.Reply.{to_lower}
use ft_irc.Heap.{client, channel, on_client, Heap}
use ft_irc.Client.{Client, new_client}
use ft_irc.Channel.{is_member}
use ft_irc.Heap.Quiet.{IsLiveClient, client-on_client, channel-on_client}
use ft_irc.Base.{
  ℕ, ◌==◌, ==_iff, if_both, is_empty, Text, ◌≡◌, Bool, true, false, arith, Bool-cases, Option-cases,
  refl, sym, inl, inr, [], ◌∷◌, ◌||◌, find,
}

-- A registered client has given the password, a nickname and a user name.
abbrev pub Credentials : Client → Type 0
Credentials c =
    c.is_registered ≡ true
    → (c.is_password_verified ≡ true)
      × (is_empty c.nickname ≡ false)
      × (is_empty c.username ≡ false)

-- A nickname that is given has the format of one, and a user name has no at sign.
abbrev pub WellNamed : Client → Type 0
WellNamed c =
    ((is_empty c.nickname || is_valid_nickname c.nickname) ≡ true) × (has_at c.username ≡ false)

pub WellNamed-new_client : (fd now : ℕ) → WellNamed (new_client fd now)
unfolding new_client find
WellNamed-new_client fd now = (refl, refl)

-- No two connections have the same nickname, whatever its case, once they have one; and who is in
-- a channel is registered.
pub record People (h : Heap) : Type 0 where
  pub credentials : (p : ℕ) → Credentials (client h p)
  pub well_named : (p : ℕ) → WellNamed (client h p)
  pub nicknames :
      (p q : ℕ)
      → IsLiveClient h p
      → IsLiveClient h q
      → is_empty (client h p).nickname ≡ false
      → to_lower (client h p).nickname ≡ to_lower (client h q).nickname
      → p ≡ q
  pub members_registered :
      (x p : ℕ) → is_member (channel h x) p ≡ true → (client h p).is_registered ≡ true

-- The fields that `People` rests on.
pub record Persona : Type 0 where
  pub nickname : Text
  pub username : Text
  pub is_registered : Bool
  pub is_password_verified : Bool

abbrev pub persona : Client → Persona
persona c = record {
  nickname = c.nickname;
  username = c.username;
  is_registered = c.is_registered;
  is_password_verified = c.is_password_verified;
}

-- The same persons, of whom no one is gone, and no one in a channel who is not registered.
pub People-same :
    (h h' : Heap)
    → ((p : ℕ) → persona (client h' p) ≡ persona (client h p))
    → ((p : ℕ) → IsLiveClient h' p → IsLiveClient h p)
    → ((x p : ℕ) → is_member (channel h' x) p ≡ true → (client h p).is_registered ≡ true)
    → People h
    → People h'
People-same h h' same live members v = record {
  credentials = λ p r. ground (arith, same p, v.credentials p, r);
  well_named = λ p. ground (arith, same p, v.well_named p);
  nicknames = λ p q a b n e.
      v.nicknames p q (live p a) (live q b) (ground (arith, same p, n))
        (ground (arith, same p, same q, e));
  members_registered = λ x p m. ground (arith, same p, members x p m);
}

-- A change of one client: it keeps the credentials, it takes no registration back, and a new
-- nickname is no one else's.
pub record KeepsPerson (p : ℕ) (f : Client → Client) (h : Heap) : Type 0 where
  pub keeps_credentials : Credentials (client h p) → Credentials (f (client h p))
  pub keeps_names : WellNamed (client h p) → WellNamed (f (client h p))
  pub keeps_registered : (client h p).is_registered ≡ true → (f (client h p)).is_registered ≡ true
  pub own_nickname :
      (q : ℕ)
      → IsLiveClient h q
      → is_empty (f (client h p)).nickname ≡ false
      → to_lower (f (client h p)).nickname ≡ to_lower (client h q).nickname
      → p ≡ q

pub KeepsPerson-same :
    (p : ℕ) (f : Client → Client) (h : Heap)
    → ((c : Client) → persona (f c) ≡ persona c)
    → People h
    → IsLiveClient h p
    → KeepsPerson p f h
KeepsPerson-same p f h same v l = record {
  keeps_credentials = λ k r. ground (arith, same (client h p), k, r);
  keeps_names = λ w. ground (arith, same (client h p), w);
  keeps_registered = λ r. ground (arith, same (client h p), r);
  own_nickname = λ q b n e.
      v.nicknames p q l b (ground (arith, same (client h p), n))
        (ground (arith, same (client h p), e));
}

-- A change that leaves the nickname alone.
pub KeepsPerson-named :
    (p : ℕ) (f : Client → Client) (h : Heap)
    → (Credentials (client h p) → Credentials (f (client h p)))
    → ((client h p).is_registered ≡ true → (f (client h p)).is_registered ≡ true)
    → has_at (f (client h p)).username ≡ false
    → (f (client h p)).nickname ≡ (client h p).nickname
    → People h
    → IsLiveClient h p
    → KeepsPerson p f h
KeepsPerson-named p f h k r at same v l = record {
  keeps_credentials = k;
  keeps_names = λ w. (rw same w.0, at);
  keeps_registered = r;
  own_nickname = λ q b n e. v.nicknames p q l b (rw same at n) (rw same at e);
}

pub not_empty-to_lower :
    (s t : Text) → to_lower s ≡ to_lower t → is_empty s ≡ false → is_empty t ≡ false
unfolding to_lower
not_empty-to_lower [] t e n = absurd (cc)
not_empty-to_lower (c ∷ s) [] e n = absurd (cc)
not_empty-to_lower (c ∷ s) (d ∷ t) e n = refl

module _ (p : ℕ) (f : Client → Client) (h : Heap) (k : KeepsPerson p f h) (v : People h)
    (l : IsLiveClient h p) where
  nicknames-on_client :
      (q r : ℕ)
      → IsLiveClient h q
      → IsLiveClient h r
      → is_empty (client (on_client p f h) q).nickname ≡ false
      → to_lower (client (on_client p f h) q).nickname
        ≡ to_lower (client (on_client p f h) r).nickname
      → q ≡ r
  nicknames-on_client q r a b =
      rw (client-on_client p f h q l, client-on_client p f h r l)
        (λ n e. elim (Bool-cases (p == q)) [
          | inl pq ↦ elim (Bool-cases (p == r)) [
            | inl pr ↦ ground (arith, pq, pr)
            | inr pr ↦ ground (arith, pq, k.own_nickname r b (rw pq at n) (rw (pq, pr) at e))
          ]
          | inr pq ↦ elim (Bool-cases (p == r)) [
            | inl pr ↦
                let n' = rw pq at n in
                let e' = rw (pq, pr) at e in
                ground (arith, pr, k.own_nickname q a (not_empty-to_lower _ _ e' n') (sym e'))
            | inr pr ↦ v.nicknames q r a b (rw pq at n) (rw (pq, pr) at e)
          ]
        ])

  People-on_live : People (on_client p f h)
  People-on_live = record {
    credentials = λ q. rw (client-on_client p f h q l) (
        if_both Credentials (p == q) _ _ (λ e. k.keeps_credentials (v.credentials p))
          (λ e. v.credentials q));
    well_named = λ q. rw (client-on_client p f h q l) (
        if_both WellNamed (p == q) _ _ (λ e. k.keeps_names (v.well_named p)) (λ e. v.well_named q));
    nicknames = λ q r a b.
        nicknames-on_client q r (of_live-on_client p f h q a) (of_live-on_client p f h r b);
    members_registered = λ x q m. rw (client-on_client p f h q l) (
        ground (
          arith,
          ==_iff p q,
          k.keeps_registered,
          v.members_registered x q (rw (channel-on_client p f h x) at m),
        ));
  }

-- A deleted client is not changed.
pub People-on_client :
    (p : ℕ) (f : Client → Client) (h : Heap)
    → (IsLiveClient h p → KeepsPerson p f h)
    → People h
    → People (on_client p f h)
People-on_client p f h k v = elim (Option-cases (h.client_at p)) [
  | inl e ↦ rw (on_client-dead p f h e) v
  | inr l ↦ People-on_live p f h (k l) v l
]
