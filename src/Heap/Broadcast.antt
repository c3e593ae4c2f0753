-- ===== src/Heap/Broadcast.antt =====
-- Who is sent what by broadcastQuit and broadcastNickChange of Client.cpp.
use ft_irc.Heap.{
  client, channel, send_to_one, notify_members, Heap, notify_channels, broadcast_quit,
  broadcast_nick_change,
}
use ft_irc.Map.{values}
use ft_irc.Client.{wire, Client}
use ft_irc.Channel.{is_member}
use ft_irc.Heap.Silent.{IsLiveClient-silent, Silent, channel-silent, client-silent}
use ft_irc.Heap.Delivery.{sent_to, sent-one}
use ft_irc.Heap.Quiet.{quiet-send_to_one, IsLiveClient, quiet-notify_members}
use ft_irc.Base.{
  if◌then◌else◌, not, ==_iff, contains, push_back, contains-push_back, Text, ℕ, ◌≡◌, refl, Bool,
  true, false, ◌&&◌, ◌||◌, List, [], ◌∷◌, ◌++◌, arith, ◌==◌, ap,
}

-- Whether a client is in one of the channels.
unfoldable pub is_in_some : Heap → List ℕ → ℕ → Bool
is_in_some h [] p = false
is_in_some h (ch ∷ chs) p = is_member (channel h ch) p || is_in_some h chs p

-- Whether a client is in one of the channels that another has joined.
abbrev pub shares_channel : Heap → ℕ → ℕ → Bool
shares_channel h u p = is_in_some h (values (client h u).joined_channels) p

notified-notify_members :
    (notice : Text) (ms notified : List ℕ) (h : Heap) (p : ℕ)
    → contains (notify_members notice ms notified h).0 p ≡ contains notified p || contains ms p
unfolding notify_members contains
notified-notify_members notice [] notified h p = ground arith
notified-notify_members notice (m ∷ ms) notified h p = ground (
  arith,
  notified-notify_members notice ms (if contains notified m then notified else push_back notified m)
      (if contains notified m then h else send_to_one m notice h) p,
  contains-push_back notified m p,
  ==_iff m p,
)

live-notified :
    (b : Bool) (m : ℕ) (notice : Text) (h : Heap) (p : ℕ)
    → IsLiveClient h p
    → IsLiveClient (if b then h else send_to_one m notice h) p
live-notified true m notice h p l = l
live-notified false m notice h p l = IsLiveClient-silent h _ (quiet-send_to_one m notice h) p l

sent-notify_members :
    (notice : Text) (ms notified : List ℕ) (h : Heap) (p : ℕ)
    → IsLiveClient h p
    → sent_to (notify_members notice ms notified h).1 p ≡ (
        if contains ms p && not (contains notified p)
        then sent_to h p ++ wire notice
        else sent_to h p)
unfolding notify_members contains
sent-notify_members notice [] notified h p l = refl
sent-notify_members notice (m ∷ ms) notified h p l = ground (
  arith,
  sent-notify_members notice ms (if contains notified m then notified else push_back notified m)
      (if contains notified m then h else send_to_one m notice h) p
      (live-notified (contains notified m) m notice h p l),
  sent-one m notice h p l,
  contains-push_back notified m p,
  ==_iff m p,
)

pub is_in_some-same :
    (h h' : Heap)
    → ((x : ℕ) → channel h' x ≡ channel h x)
    → (chs : List ℕ) (p : ℕ) → is_in_some h' chs p ≡ is_in_some h chs p
unfolding is_in_some
is_in_some-same h h' e [] p = refl
is_in_some-same h h' e (ch ∷ chs) p = rw (e ch, is_in_some-same h h' e chs p) refl

is_in_some-Silent :
    (h h' : Heap) → Silent h h' → (chs : List ℕ) (p : ℕ) → is_in_some h' chs p ≡ is_in_some h chs p
is_in_some-Silent h h' e = is_in_some-same h h' (channel-silent h h' e)

sent-notify_channels :
    (notice : Text) (chs notified : List ℕ) (h : Heap) (p : ℕ)
    → IsLiveClient h p
    → sent_to (notify_channels notice chs notified h) p ≡ (
        if is_in_some h chs p && not (contains notified p)
        then sent_to h p ++ wire notice
        else sent_to h p)
unfolding notify_channels is_in_some
sent-notify_channels notice [] notified h p l = refl
sent-notify_channels notice (ch ∷ chs) notified h p l =
    let r : List ℕ × Heap = notify_members notice (channel h ch).members notified h in
    let q : Silent h r.1 = quiet-notify_members notice (channel h ch).members notified h in
    ground (
      arith,
      sent-notify_channels notice chs r.0 r.1 p (IsLiveClient-silent h r.1 q p l),
      is_in_some-Silent h r.1 q chs p,
      sent-notify_members notice (channel h ch).members notified h p l,
      notified-notify_members notice (channel h ch).members notified h p,
    )

pub broadcast_quit-delivery :
    (this : ℕ) (notice : Text) (h : Heap) (p : ℕ)
    → IsLiveClient h p
    → sent_to (broadcast_quit this notice h) p ≡ (
        if shares_channel h this p && not (this == p)
        then sent_to h p ++ wire notice
        else sent_to h p)
unfolding broadcast_quit contains
broadcast_quit-delivery this notice h p l =
    ground (
      arith,
      sent-notify_channels notice (values (client h this).joined_channels) (this ∷ []) h p l,
    )

pub broadcast_nick_change-delivery :
    (this : ℕ) (notice : Text) (h : Heap) (p : ℕ)
    → IsLiveClient h p
    → sent_to (broadcast_nick_change this notice h) p
      ≡ (if this == p || shares_channel h this p then sent_to h p ++ wire notice else sent_to h p)
unfolding broadcast_nick_change contains
broadcast_nick_change-delivery this notice h p l =
    let h' : Heap = send_to_one this notice h in
    let q : Silent h h' = quiet-send_to_one this notice h in
    let same : (client h' this).joined_channels ≡ (client h this).joined_channels =
      ap (λ (c : Client). c.joined_channels) (client-silent h h' q this) in
    ground (
      arith,
      same,
      sent-notify_channels notice (values (client h' this).joined_channels) (this ∷ []) h' p
          (IsLiveClient-silent h h' q p l),
      is_in_some-Silent h h' q (values (client h this).joined_channels) p,
      sent-one this notice h p l,
    )
