-- ===== src/Links/Private.antt =====
-- A change of a client's own data.
use ft_irc.Heap.{client, channel, on_client, Heap}
use ft_irc.Links.{Linked}
use ft_irc.Client.{Client}
use ft_irc.Channel.{Channel}
use ft_irc.Heap.Live.{
  live-on_client, of_live-on_client, live-on_client_channel, of_live-on_client_channel,
}
use ft_irc.Heap.Quiet.{IsLiveClient, IsLiveChannel, client-on_client, channel-on_client}
use ft_irc.Base.{Option-cases, ℕ, ◌≡◌, ap, ◌∙◌, fun_ext, inl, inr, Option, none, arith}
use ft_irc.Links.Objects.{
  IsLiveClient-same, IsLiveChannel-same, of_IsLiveClient-same, of_IsLiveChannel-same, identity-same,
  name-same, Identity, SameObjects,
}

pub record KeepsLinks (f : Client → Client) : Type 0 where
  pub same_joined : (c : Client) → (f c).joined_channels ≡ c.joined_channels
  pub same_invited : (c : Client) → (f c).invited_channels ≡ c.invited_channels
  pub same_fd : (c : Client) → (f c).fd ≡ c.fd

-- What a list of objects by descriptor and by name depends on.
pub record SameHandles (h h' : Heap) : Type 0 where
  pub live_client : (p : ℕ) → IsLiveClient h p → IsLiveClient h' p
  pub of_live_client : (p : ℕ) → IsLiveClient h' p → IsLiveClient h p
  pub live_channel : (x : ℕ) → IsLiveChannel h x → IsLiveChannel h' x
  pub of_live_channel : (x : ℕ) → IsLiveChannel h' x → IsLiveChannel h x
  pub same_fd : (p : ℕ) → IsLiveClient h p → (client h' p).fd ≡ (client h p).fd
  pub same_name : (x : ℕ) → (channel h' x).name ≡ (channel h x).name

pub SameHandles-of-objects : {h h' : Heap} → SameObjects h h' → SameHandles h h'
SameHandles-of-objects {h} {h'} s = record {
  live_client = IsLiveClient-same h h' s;
  of_live_client = of_IsLiveClient-same h h' s;
  live_channel = IsLiveChannel-same h h' s;
  of_live_channel = of_IsLiveChannel-same h h' s;
  same_fd = λ p l. ap (λ (i : Identity). i.fd) (identity-same h h' s p);
  same_name = name-same h h' s;
}

pub SameHandles-trans : {h k k' : Heap} → SameHandles h k → SameHandles k k' → SameHandles h k'
SameHandles-trans a b = record {
  live_client = λ p l. b.live_client p (a.live_client p l);
  of_live_client = λ p l. a.of_live_client p (b.of_live_client p l);
  live_channel = λ x l. b.live_channel x (a.live_channel x l);
  of_live_channel = λ x l. a.of_live_channel x (b.of_live_channel x l);
  same_fd = λ p l. b.same_fd p (a.live_client p l) ∙ a.same_fd p l;
  same_name = λ x. b.same_name x ∙ a.same_name x;
}

pub on_client-dead :
    (p : ℕ) (f : Client → Client) (h : Heap) → h.client_at p ≡ none → on_client p f h ≡ h
unfolding on_client
on_client-dead p f h e =
    ap (λ (m : ℕ → Option Client). record h { client_at = m }) (fun_ext λ q. ground arith)

module _ (p : ℕ) (f : Client → Client) (h : Heap) (k : KeepsLinks f) where
  pub SameHandles-on_client : SameHandles h (on_client p f h)
  SameHandles-on_client = record {
    live_client = live-on_client p f h;
    of_live_client = of_live-on_client p f h;
    live_channel = live-on_client_channel p f h;
    of_live_channel = of_live-on_client_channel p f h;
    same_fd = λ q (c, e). unfold client on_client in ground (arith, k.same_fd c);
    same_name = λ x. channel_name x;
  }
    where
      channel_name : (x : ℕ) → (channel (on_client p f h) x).name ≡ (channel h x).name
      channel_name x = ap (λ (c : Channel). c.name) (channel-on_client p f h x)

  pub Linked-on_client : Linked h → Linked (on_client p f h)
  Linked-on_client l = elim (Option-cases (h.client_at p)) [
    | inl e ↦ rw (on_client-dead p f h e) l
    | inr live ↦ record {
      rooms = λ x. rw (channel-on_client p f h x) (l.rooms x);
      settled = λ x. rw (channel-on_client p f h x) (l.settled x);
      member_joined = λ x q.
          rw (channel-on_client p f h x, client-on_client p f h q live)
            (λ e. ground (arith, k.same_joined (client h p), l.member_joined x q));
      joined_member = λ q n x.
          rw (channel-on_client p f h x, client-on_client p f h q live)
            (λ e. ground (arith, k.same_joined (client h p), l.joined_member q n x));
      invited_both = λ x q.
          rw (channel-on_client p f h x, client-on_client p f h q live)
            (ground (arith, k.same_invited (client h p), l.invited_both x q));
      keys = λ q.
          rw (client-on_client p f h q live)
            (ground (arith, k.same_joined (client h p), l.keys p, l.keys q));
      names = unfold on_client channel in l.names;
    }
  ]
