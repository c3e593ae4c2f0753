-- ===== src/Links/Delete.antt =====
-- A channel without members is deleted, and one is made.
use ft_irc.Links.{IsRoom, Linked, IsSettled-if, IsSettled-new_channel}
use ft_irc.Channel.{new_channel, is_invited, is_member, is_channel_empty, Channel}
use ft_irc.Heap.Live.{live_of_invited}
use ft_irc.Heap.Quiet.{IsLiveClient, IsLiveChannel}
use ft_irc.Links.Leave.{IsRoom-if}
use ft_irc.Server.{clear_invited, free_channel}
use ft_irc.Heap.{client, on_client, Heap, channel}
use ft_irc.Client.{new_client, remove_invited_channel}
use ft_irc.Base.{
  ◌==◌, if◌then◌else◌, contains, remove, contains-remove, remove_absent, ℕ, ◌≡◌, refl, ◌∙◌, ◌||◌,
  List, [], ◌∷◌, arith, is_empty, Text, ap, ◌≢◌, true, false, Option,
}

pub remove_twice : (p : ℕ) (xs : List ℕ) → remove p (remove p xs) ≡ remove p xs
remove_twice p xs = remove_absent p (remove p xs) (ground (arith, contains-remove p xs p))

-- `clearInvitedUsers` takes the invitation from every client that it comes to.
pub client-clear_invited :
    (ch : ℕ) (ps : List ℕ) (h : Heap) (p : ℕ)
    → client (clear_invited ch ps h) p
      ≡ (if contains ps p then remove_invited_channel ch (client h p) else client h p)
unfolding clear_invited contains
client-clear_invited ch [] h p = refl
client-clear_invited ch (q ∷ ps) h p =
    client-clear_invited ch ps (on_client q (remove_invited_channel ch) h) p ∙ step
  where
    one_client :
        client (on_client q (remove_invited_channel ch) h) p
        ≡ (if q == p then remove_invited_channel ch (client h p) else client h p)
    one_client = unfold client on_client remove_invited_channel new_client remove in ground arith

    step :
        (if contains ps p
          then remove_invited_channel ch (client (on_client q (remove_invited_channel ch) h) p)
          else client (on_client q (remove_invited_channel ch) h) p)
        ≡ (if q == p || contains ps p then remove_invited_channel ch (client h p) else client h p)
    step = rw one_client (
        unfold remove_invited_channel in
        ground (arith, remove_twice ch (client h p).invited_channels))

pub channels-clear_invited :
    (ch : ℕ) (ps : List ℕ) (h : Heap) → (clear_invited ch ps h).channel_at ≡ h.channel_at
unfolding clear_invited on_client
channels-clear_invited ch [] h = refl
channels-clear_invited ch (q ∷ ps) h =
    channels-clear_invited ch ps (on_client q (remove_invited_channel ch) h)

pub no_member-new_channel : (name : Text) (p : ℕ) → is_member (new_channel name) p ≡ false
unfolding new_channel contains
no_member-new_channel name p = refl

pub IsRoom-new_channel : (name : Text) → IsRoom (new_channel name)
unfolding new_channel contains
IsRoom-new_channel name = record {
  operators_in = λ p e. cc;
  invited_out = λ p e. refl;
  members_distinct = tt;
  operators_distinct = tt;
  invited_distinct = tt;
}

module _ (ch : ℕ) (ps : List ℕ) (h : Heap)
    (listed : (p : ℕ) → IsLiveClient h p → contains ps p ≡ true)
    (empty : is_channel_empty (channel h ch) ≡ true) where
  abbrev pub gone : Heap
  gone = free_channel ch (clear_invited ch ps h)

  pub channel-gone : (x : ℕ) → channel gone x ≡ (if ch == x then new_channel [] else channel h x)
  unfolding free_channel channel
  channel-gone x =
      ground (arith, ap (λ (k : ℕ → Option Channel). k x) (channels-clear_invited ch ps h))

  pub client-gone :
      (p : ℕ)
      → client gone p
        ≡ (if contains ps p then remove_invited_channel ch (client h p) else client h p)
  client-gone p = unfold free_channel client in client-clear_invited ch ps h p

  pub live-gone : (x : ℕ) → IsLiveChannel gone x → IsLiveChannel h x × (ch ≢ x)
  unfolding free_channel
  live-gone x (c, e) = (
    (c, ground (arith, ap (λ (k : ℕ → Option Channel). k x) (channels-clear_invited ch ps h))),
    ground arith,
  )

  no_member : (p : ℕ) → is_member (channel h ch) p ≡ false
  unfolding is_channel_empty contains
  no_member p = none_in (channel h ch).members empty
    where
      none_in : (ms : List ℕ) → is_empty ms ≡ true → contains ms p ≡ false
      none_in [] e = refl
      none_in (m ∷ ms) e = absurd (cc)

  module _ (l : Linked h) where
    invited_both-gone :
        (x p : ℕ) → is_invited (channel gone x) p ≡ contains (client gone p).invited_channels x
    unfolding remove_invited_channel new_channel contains
    invited_both-gone x p =
        rw (channel-gone x, client-gone p)
          (ground (
            arith,
            l.invited_both x p,
            contains-remove ch (client h p).invited_channels x,
            λ (i : contains (client h p).invited_channels ch ≡ true).
                listed p (live_of_invited h p ch i),
          ))

    pub Linked-gone : Linked gone
    unfolding remove_invited_channel
    Linked-gone = record {
      rooms =
          λ x. rw (channel-gone x) (IsRoom-if (ch == x) _ _ (IsRoom-new_channel []) (l.rooms x));
      settled = λ x.
          rw (channel-gone x) (IsSettled-if (ch == x) _ _ (IsSettled-new_channel []) (l.settled x));
      member_joined = λ x p.
          rw (channel-gone x, client-gone p)
            (unfold new_channel contains in λ e. ground (arith, l.member_joined x p));
      joined_member = λ p name x.
          rw (channel-gone x, client-gone p)
            (λ e. ground (arith, l.joined_member p name x, no_member p));
      invited_both = invited_both-gone;
      keys = λ p. rw (client-gone p) (ground (arith, l.keys p));
      names = λ x y a b.
          rw (channel-gone x, channel-gone y)
            (λ e. ground (
              arith,
              live-gone x a,
              live-gone y b,
              l.names x y (live-gone x a).0 (live-gone y b).0,
            ));
    }
