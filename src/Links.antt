-- ===== src/Links.antt =====
-- How clients and channels point at each other, on the heap of Heap.antt.
pub mod Leave
pub mod Enter
pub mod Settings
pub mod Invite
pub mod Moves
pub mod Objects
pub mod Private
pub mod Delete
pub mod Create
pub mod Handlers
pub mod Join
pub mod Flags
pub mod Modes
pub mod Withdraw
use ft_irc.Client.{Client}
use ft_irc.Base.{
  ap, ℕ, ◌≡◌, sym, ◌∙◌, true, false, some, arith, Text, contains, Distinct, if◌then◌else◌, is_empty,
  ◌<◌, refl, Bool, ◌||◌,
}
use ft_irc.Map.{UniqueKeys, lookup, text_key, nat_key}
use ft_irc.Channel.{Channel, is_member, is_operator, is_invited, new_channel, is_valid_key}
use ft_irc.Heap.{Heap, client, channel}
use ft_irc.Heap.Quiet.{quiet, client-quiet, IsLiveChannel}

-- One channel: operators are members, no one who is in is invited, and no list names a client
-- twice.
pub record IsRoom (c : Channel) : Type 0 where
  pub operators_in : (p : ℕ) → is_operator c p ≡ true → is_member c p ≡ true
  pub invited_out : (p : ℕ) → is_member c p ≡ true → is_invited c p ≡ false
  pub members_distinct : Distinct c.members
  pub operators_distinct : Distinct c.operators
  pub invited_distinct : Distinct c.invited_users

-- The key is empty or one that `isValidKey` accepts, and the limit is 0 or one that `parseLimit`
-- accepts.
abbrev pub IsSettled : Channel → Type 0
IsSettled c = ((is_empty c.key || is_valid_key c.key) ≡ true) × (c.user_limit < 1000000000)

pub IsSettled-if :
    (b : Bool) (c d : Channel) → IsSettled c → IsSettled d → IsSettled (if b then c else d)
IsSettled-if true c d sc sd = sc
IsSettled-if false c d sc sd = sd

pub IsSettled-new_channel : (name : Text) → IsSettled (new_channel name)
unfolding new_channel
IsSettled-new_channel name = (refl, omega arith)

-- All objects. A deleted object reads as a blank one, without members and without channels, so
-- that the equations say too that no pointer leads to a deleted object.
pub record Linked (h : Heap) : Type 0 where
  pub rooms : (ch : ℕ) → IsRoom (channel h ch)
  pub settled : (ch : ℕ) → IsSettled (channel h ch)
  pub member_joined :
      (ch p : ℕ)
      → is_member (channel h ch) p ≡ true
      → lookup (channel h ch).name (client h p).joined_channels ≡ some ch
  pub joined_member :
      (p : ℕ) (name : Text) (ch : ℕ)
      → lookup name (client h p).joined_channels ≡ some ch
      → (is_member (channel h ch) p ≡ true) × ((channel h ch).name ≡ name)
  pub invited_both :
      (ch p : ℕ) → is_invited (channel h ch) p ≡ contains (client h p).invited_channels ch
  pub keys : (p : ℕ) → UniqueKeys (client h p).joined_channels
  pub names :
      (ch ch' : ℕ)
      → IsLiveChannel h ch
      → IsLiveChannel h ch'
      → (channel h ch).name ≡ (channel h ch').name
      → ch ≡ ch'

-- Names stay told apart while no channel is added or renamed.
pub names-keep :
    (h h' : Heap)
    → ((x : ℕ) → IsLiveChannel h' x → IsLiveChannel h x)
    → ((x : ℕ) → (channel h' x).name ≡ (channel h x).name)
    → ((ch ch' : ℕ)
        → IsLiveChannel h ch
        → IsLiveChannel h ch'
        → (channel h ch).name ≡ (channel h ch').name
        → ch ≡ ch')
    → (ch ch' : ℕ) → IsLiveChannel h' ch
    → IsLiveChannel h' ch'
    → (channel h' ch).name ≡ (channel h' ch').name
    → ch ≡ ch'
names-keep h h' live same names ch ch' a b e =
    names ch ch' (live ch a) (live ch' b) (sym (same ch) ∙ e ∙ same ch')

pub Linked-of-quiet : {h : Heap} → Linked (quiet h) → Linked h
unfolding channel
Linked-of-quiet {h} l = record {
  rooms = l.rooms;
  settled = l.settled;
  member_joined = λ ch p m. ground (arith, client-quiet h p, l.member_joined ch p m);
  joined_member = λ p name ch e. l.joined_member p name ch (ground (arith, client-quiet h p));
  invited_both = λ ch p. ground (arith, client-quiet h p, l.invited_both ch p);
  keys = λ p. rw (ap (λ (c : Client). c.joined_channels) (client-quiet h p)) at (l.keys p);
  names = l.names;
}

pub Linked-quiet : {h : Heap} → Linked h → Linked (quiet h)
unfolding channel
Linked-quiet {h} l = record {
  rooms = l.rooms;
  settled = l.settled;
  member_joined = λ ch p m. ground (arith, client-quiet h p, l.member_joined ch p m);
  joined_member = λ p name ch e. l.joined_member p name ch (ground (arith, client-quiet h p));
  invited_both = λ ch p. ground (arith, client-quiet h p, l.invited_both ch p);
  keys = λ p. rw (ap (λ (c : Client). c.joined_channels) (client-quiet h p)) (l.keys p);
  names = l.names;
}
