-- ===== src/Links/Objects.antt =====
-- The objects of a heap and what no move of a handler changes in them.
use ft_irc.Heap.{client, channel, on_client, on_channel, Heap}
use ft_irc.Client.{
  new_client, add_joined_channels, remove_joined_channels, add_invited_channel,
  remove_invited_channel, Client,
}
use ft_irc.Handlers.Member.{add_member, remove_member}
use ft_irc.Channel.{
  new_channel, is_member, remove_member_from_invited_users, remove_operator, Channel,
}
use ft_irc.Heap.Silent.{Silent}
use ft_irc.Heap.Quiet.{core, IsLiveClient, IsLiveChannel}
use ft_irc.Base.{
  ◌==◌, if◌then◌else◌, not, if_both, Text, ℕ, ◌≡◌, refl, sym, ap, ◌∙◌, Bool, Option, none, some, [],
  arith,
}
use ft_irc.Links.Enter.{let_in}
use ft_irc.Links.Invite.{note_invitation}
use ft_irc.Links.Moves.{Move, Moves, silent, change, leave, enter, invite, done, after}
use mathlib.Core.Option

-- The fields that no move touches: the descriptor and identity of each client, its registration,
-- and the name of each channel.
pub record Identity : Type 0 where
  pub fd : ℕ
  pub ip : Text
  pub nickname : Text
  pub username : Text
  pub is_registered : Bool
  pub is_password_verified : Bool
  pub read_buffer : Text

abbrev pub identity : Client → Identity
identity c = record {
  fd = c.fd;
  ip = c.ip;
  nickname = c.nickname;
  username = c.username;
  is_registered = c.is_registered;
  is_password_verified = c.is_password_verified;
  read_buffer = c.read_buffer;
}

abbrev room_name : Channel → Text
room_name c = c.name

pub record SameObjects (h h' : Heap) : Type 0 where
  pub clients : (p : ℕ) → Option.map identity (h'.client_at p) ≡ Option.map identity (h.client_at p)
  pub channels :
      (x : ℕ) → Option.map room_name (h'.channel_at x) ≡ Option.map room_name (h.channel_at x)

pub SameObjects-refl : (h : Heap) → SameObjects h h
SameObjects-refl h = record { clients = λ p. refl; channels = λ x. refl }

pub SameObjects-trans : {h k k' : Heap} → SameObjects h k → SameObjects k k' → SameObjects h k'
SameObjects-trans a b = record {
  clients = λ p. b.clients p ∙ a.clients p;
  channels = λ x. b.channels x ∙ a.channels x;
}

identity-core :
    (o : Option Client) → Option.map identity (Option.map core o) ≡ Option.map identity o
identity-core none = refl
identity-core (some c) = refl

SameObjects-Silent : (h h' : Heap) → Silent h h' → SameObjects h h'
SameObjects-Silent h h' e = record {
  clients = λ p.
      sym (identity-core (h'.client_at p))
      ∙ ap (λ (k : Heap). Option.map identity (k.client_at p)) e
      ∙ identity-core (h.client_at p);
  channels = λ x. ap (λ (k : Heap). Option.map room_name (k.channel_at x)) e;
}

pub SameObjects-on_channel :
    (ch : ℕ) (f : Channel → Channel) (h : Heap)
    → IsLiveChannel h ch
    → (f (channel h ch)).name ≡ (channel h ch).name
    → SameObjects h (on_channel ch f h)
unfolding on_channel channel
SameObjects-on_channel ch f h (c, e) k = record {
  clients = λ p. refl;
  channels = λ x. ground arith;
}

pub SameObjects-on_client :
    (p : ℕ) (f : Client → Client) (h : Heap)
    → ((c : Client) → identity (f c) ≡ identity c)
    → SameObjects h (on_client p f h)
unfolding on_client
SameObjects-on_client p f h k = record { clients = λ q. at q (h.client_at q); channels = λ x. refl }
  where
    at :
        (q : ℕ) (o : Option Client)
        → Option.map identity (if p == q then Option.map f o else o) ≡ Option.map identity o
    at q none = ground arith
    at q (some c) = ground (arith, k c)

SameObjects-edit :
    (ch : ℕ) (f : Channel → Channel) (h : Heap)
    → ((c : Channel) → (f c).name ≡ c.name)
    → SameObjects h (on_channel ch f h)
unfolding on_channel
SameObjects-edit ch f h k = record { clients = λ p. refl; channels = λ x. at x (h.channel_at x) }
  where
    at :
        (x : ℕ) (o : Option Channel)
        → Option.map room_name (if ch == x then Option.map f o else o) ≡ Option.map room_name o
    at x none = ground arith
    at x (some c) = ground (arith, k c)

SameObjects-remove_member : (ch u : ℕ) (h : Heap) → SameObjects h (remove_member ch u h)
unfolding remove_member remove_operator remove_joined_channels
SameObjects-remove_member ch u h = SameObjects-trans (SameObjects-edit ch _ h (λ c. refl)) (
    SameObjects-trans (SameObjects-edit ch _ _ (λ c. refl))
      (SameObjects-on_client u _ _ (λ c. refl)))

SameObjects-add_member : (ch u : ℕ) (h : Heap) → SameObjects h (add_member ch u h)
unfolding add_member add_joined_channels
SameObjects-add_member ch u h =
    if_both (SameObjects h) (not (is_member (channel h ch) u)) _ _
      (λ n.
        SameObjects-trans (SameObjects-edit ch _ h (λ c. refl))
          (SameObjects-on_client u _ _ (λ c. refl)))
      (λ m. SameObjects-refl h)

SameObjects-let_in : (ch u : ℕ) (h : Heap) → SameObjects h (let_in ch u h)
unfolding remove_member_from_invited_users remove_invited_channel
SameObjects-let_in ch u h =
    SameObjects-trans (SameObjects-edit ch _ h (λ c. refl))
      (SameObjects-trans (SameObjects-on_client u _ _ (λ c. refl)) (SameObjects-add_member ch u _))

SameObjects-note_invitation : (ch u : ℕ) (h : Heap) → SameObjects h (note_invitation ch u h)
unfolding add_invited_channel
SameObjects-note_invitation ch u h =
    SameObjects-trans (SameObjects-edit ch _ h (λ c. refl))
      (SameObjects-on_client u _ _ (λ c. refl))

pub SameObjects-Move : {L : ℕ → Bool} {h h' : Heap} → Move L h h' → SameObjects h h'
SameObjects-Move {h = h} (silent h' e) = SameObjects-Silent h h' e
SameObjects-Move {h = h} (change ch f lc k) = SameObjects-on_channel ch f h lc k.same_name
SameObjects-Move {h = h} (leave ch u lc lu m a) = SameObjects-remove_member ch u h
SameObjects-Move {h = h} (enter ch u lc lu n r) = SameObjects-let_in ch u h
SameObjects-Move {h = h} (invite ch u lc lu m i) = SameObjects-note_invitation ch u h

pub SameObjects-Moves : {L : ℕ → Bool} {h h' : Heap} → Moves L h h' → SameObjects h h'
SameObjects-Moves {h = h} done = SameObjects-refl h
SameObjects-Moves (after a m) = SameObjects-trans (SameObjects-Moves a) (SameObjects-Move m)

some_of_same {ℓ κ} :
    {A : Type ℓ} {B : Type κ} (f : A → B) (o : Option A) {b : B}
    → Option.map f o ≡ some b
    → (a : A) × (o ≡ some a)
some_of_same f none e = absurd (cc)
some_of_same f (some a) e = (a, refl)

module _ (h h' : Heap) (s : SameObjects h h') where
  pub IsLiveClient-same : (p : ℕ) → IsLiveClient h p → IsLiveClient h' p
  IsLiveClient-same p (c, e) =
      some_of_same identity (h'.client_at p) (s.clients p ∙ ap (Option.map identity) e)

  pub IsLiveChannel-same : (x : ℕ) → IsLiveChannel h x → IsLiveChannel h' x
  IsLiveChannel-same x (c, e) =
      some_of_same room_name (h'.channel_at x) (s.channels x ∙ ap (Option.map room_name) e)

  pub of_IsLiveClient-same : (p : ℕ) → IsLiveClient h' p → IsLiveClient h p
  of_IsLiveClient-same p (c, e) =
      some_of_same identity (h.client_at p) (sym (s.clients p) ∙ ap (Option.map identity) e)

  pub of_IsLiveChannel-same : (x : ℕ) → IsLiveChannel h' x → IsLiveChannel h x
  of_IsLiveChannel-same x (c, e) =
      some_of_same room_name (h.channel_at x) (sym (s.channels x) ∙ ap (Option.map room_name) e)

  pub identity-same : (p : ℕ) → identity (client h' p) ≡ identity (client h p)
  unfolding client
  identity-same p = client_of (h'.client_at p) (h.client_at p) (s.clients p)
    where
      client_of :
          (o o' : Option Client)
          → Option.map identity o ≡ Option.map identity o'
          → identity (elim o [ none ↦ new_client 0 0 | some c ↦ c ])
            ≡ identity (elim o' [ none ↦ new_client 0 0 | some c ↦ c ])
      client_of none none e = refl
      client_of none (some c) e = absurd (cc)
      client_of (some c) none e = absurd (cc)
      client_of (some c) (some d) e = cc

  pub name-same : (x : ℕ) → (channel h' x).name ≡ (channel h x).name
  unfolding channel
  name-same x = name_of (h'.channel_at x) (h.channel_at x) (s.channels x)
    where
      name_of :
          (o o' : Option Channel)
          → Option.map room_name o ≡ Option.map room_name o'
          → (let c : Channel = elim o [ none ↦ new_channel [] | some c ↦ c ] in c.name)
            ≡ (let c : Channel = elim o' [ none ↦ new_channel [] | some c ↦ c ] in c.name)
      name_of none none e = refl
      name_of none (some c) e = absurd (cc)
      name_of (some c) none e = absurd (cc)
      name_of (some c) (some d) e = cc
