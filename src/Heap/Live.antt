-- ===== src/Heap/Live.antt =====
-- Which objects there are, after a change.
use mathlib.Core.Option
use ft_irc.Map.{lookup, text_key}
use ft_irc.Base.{
  Text, true, contains, Option-cases, inl, inr, ℕ, ◌≡◌, refl, Option, none, some, arith, ◌==◌,
  if◌then◌else◌,
}
use ft_irc.Client.{Client, new_client}
use ft_irc.Channel.{Channel, new_channel, is_member}
use ft_irc.Heap.{Heap, client, channel, on_client, on_channel}
use ft_irc.Heap.Quiet.{IsLiveClient, IsLiveChannel}

pub some_of_map {ℓ} :
    {A : Type ℓ} (f : A → A) (o : Option A) {b : A}
    → Option.map f o ≡ some b
    → (a : A) × (o ≡ some a)
some_of_map f none e = absurd (cc)
some_of_map f (some a) e = (a, refl)

module _ (p : ℕ) (f : Client → Client) (h : Heap) (q : ℕ) where
  pub live-on_client : IsLiveClient h q → IsLiveClient (on_client p f h) q
  unfolding on_client
  live-on_client (c, e) = (if p == q then f c else c, ground arith)

  pub of_live-on_client : IsLiveClient (on_client p f h) q → IsLiveClient h q
  unfolding on_client
  of_live-on_client (c, e) = ground (arith, some_of_map f (h.client_at q) {b = c})

  pub live-on_client_channel : IsLiveChannel h q → IsLiveChannel (on_client p f h) q
  unfolding on_client
  live-on_client_channel l = l

  pub of_live-on_client_channel : IsLiveChannel (on_client p f h) q → IsLiveChannel h q
  unfolding on_client
  of_live-on_client_channel l = l

module _ (p : ℕ) (f : Channel → Channel) (h : Heap) (q : ℕ) where
  pub live-on_channel : IsLiveChannel h q → IsLiveChannel (on_channel p f h) q
  unfolding on_channel
  live-on_channel (c, e) = (if p == q then f c else c, ground arith)

  pub of_live-on_channel : IsLiveChannel (on_channel p f h) q → IsLiveChannel h q
  unfolding on_channel
  of_live-on_channel (c, e) = ground (arith, some_of_map f (h.channel_at q) {b = c})

  pub live-on_channel_client : IsLiveClient h q → IsLiveClient (on_channel p f h) q
  unfolding on_channel
  live-on_channel_client l = l

  pub of_live-on_channel_client : IsLiveClient (on_channel p f h) q → IsLiveClient h q
  unfolding on_channel
  of_live-on_channel_client l = l

-- Who has members is there, and so is who is in a channel.
pub live_of_member : (h : Heap) (x p : ℕ) → is_member (channel h x) p ≡ true → IsLiveChannel h x
unfolding channel new_channel contains
live_of_member h x p m = elim (Option-cases (h.channel_at x)) [
  | inl e ↦ absurd (ground arith)
  | inr s ↦ s
]

pub live_of_joined :
    (h : Heap) (p : ℕ) (name : Text) {ch : ℕ}
    → lookup name (client h p).joined_channels ≡ some ch
    → IsLiveClient h p
unfolding client new_client lookup
live_of_joined h p name m = elim (Option-cases (h.client_at p)) [
  | inl e ↦ absurd (ground arith)
  | inr s ↦ s
]

pub live_of_invited :
    (h : Heap) (p ch : ℕ) → contains (client h p).invited_channels ch ≡ true → IsLiveClient h p
unfolding client new_client contains
live_of_invited h p ch m = elim (Option-cases (h.client_at p)) [
  | inl e ↦ absurd (ground arith)
  | inr s ↦ s
]
