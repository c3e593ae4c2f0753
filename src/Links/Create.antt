-- ===== src/Links/Create.antt =====
-- A channel is made by `findOrCreateChannel`, and a client is deleted once nothing points at it.
use ft_irc.Server.{alloc_channel}
use ft_irc.Heap.{client, channel, Heap}
use ft_irc.Map.{lookup, text_key, nat_key}
use ft_irc.Links.{Linked, IsSettled-if, IsSettled-new_channel}
use ft_irc.Client.{new_client}
use ft_irc.Channel.{new_channel, is_invited, is_member}
use ft_irc.Heap.Quiet.{IsLiveChannel}
use ft_irc.Server.Disconnect.{free_client}
use ft_irc.Base.{
  ◌==◌, if◌then◌else◌, ==_iff, Bool-cases, contains, Text, ℕ, ◌≡◌, refl, ◌≢◌, ◌⊎◌, inl, inr, false,
  none, [], arith,
}
use ft_irc.Links.Delete.{IsRoom-new_channel}
use ft_irc.Links.Leave.{IsRoom-if}

module _ (ch : ℕ) (name : Text) (h : Heap) (free : h.channel_at ch ≡ none)
    (fresh : (x : ℕ) → IsLiveChannel h x → (channel h x).name ≢ name) where
  abbrev pub made : Heap
  made = alloc_channel ch (new_channel name) h

  pub channel-made : (x : ℕ) → channel made x ≡ (if ch == x then new_channel name else channel h x)
  unfolding alloc_channel channel
  channel-made x = ground arith

  pub client-made : (p : ℕ) → client made p ≡ client h p
  unfolding alloc_channel client
  client-made p = refl

  blank_before : channel h ch ≡ new_channel []
  unfolding channel
  blank_before = ground arith

  pub live-made : (x : ℕ) → IsLiveChannel made x → ((ch ≡ x) ⊎ IsLiveChannel h x)
  unfolding alloc_channel
  live-made x (c, e) = elim (Bool-cases (ch == x)) [
    | inl s ↦ inl ((==_iff ch x).0 s)
    | inr n ↦ inr (c, ground arith)
  ]

  names-made :
      Linked h
      → (x y : ℕ) → IsLiveChannel made x
      → IsLiveChannel made y
      → (channel made x).name ≡ (channel made y).name
      → x ≡ y
  unfolding new_channel
  names-made l x y a b =
      rw (channel-made x, channel-made y)
        (λ e. ground (arith, live-made x a, live-made y b, l.names x y, fresh x, fresh y))

  pub Linked-made : Linked h → Linked made
  Linked-made l = record {
    rooms =
        λ x. rw (channel-made x) (IsRoom-if (ch == x) _ _ (IsRoom-new_channel name) (l.rooms x));
    settled = λ x.
        rw (channel-made x) (IsSettled-if (ch == x) _ _ (IsSettled-new_channel name) (l.settled x));
    member_joined = λ x p.
        rw (channel-made x, client-made p)
          (unfold new_channel contains in λ e. ground (arith, l.member_joined x p));
    joined_member = λ p n x.
        rw (channel-made x, client-made p)
          (λ e.
            unfold new_channel contains in ground (arith, l.joined_member p n x e, blank_before));
    invited_both = λ x p.
        rw (channel-made x, client-made p)
          (unfold new_channel contains in ground (arith, l.invited_both x p, blank_before));
    keys = λ p. rw (client-made p) (l.keys p);
    names = names-made l;
  }

-- The object of a client that is in no channel and invited to none.
module _ (u : ℕ) (h : Heap) (out : (x : ℕ) → is_member (channel h x) u ≡ false)
    (uninvited : (x : ℕ) → is_invited (channel h x) u ≡ false) (l : Linked h) where
  client-freed :
      (p : ℕ) → client (free_client u h) p ≡ (if u == p then new_client 0 0 else client h p)
  unfolding free_client client
  client-freed p = ground arith

  channel-freed : (x : ℕ) → channel (free_client u h) x ≡ channel h x
  unfolding free_client channel
  channel-freed x = refl

  pub Linked-freed : Linked (free_client u h)
  unfolding new_client contains lookup
  Linked-freed = record {
    rooms = λ x. rw (channel-freed x) (l.rooms x);
    settled = λ x. rw (channel-freed x) (l.settled x);
    member_joined = λ x p.
        rw (channel-freed x, client-freed p) (λ e. ground (arith, l.member_joined x p, out x));
    joined_member =
        λ p n x. rw (channel-freed x, client-freed p) (λ e. ground (arith, l.joined_member p n x));
    invited_both = λ x p.
        rw (channel-freed x, client-freed p) (ground (arith, l.invited_both x p, uninvited x));
    keys = λ p. rw (client-freed p) (ground (arith, l.keys p));
    names = unfold free_client channel in l.names;
  }
