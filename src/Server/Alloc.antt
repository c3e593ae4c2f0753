-- ===== src/Server/Alloc.antt =====
-- A heap with one client more.
use ft_irc.Heap.{client, channel, Heap}
use ft_irc.Links.{Linked}
use ft_irc.Client.{new_client, Client}
use ft_irc.Heap.Quiet.{IsLiveClient}
use ft_irc.Loop.{alloc_client}
use ft_irc.Base.{◌==◌, if◌then◌else◌, Bool-cases, ℕ, ◌≡◌, refl, ◌⊎◌, inl, inr, none, [], arith}

-- A new object, and the old ones.
module _ (p : ℕ) (c : Client) (h : Heap) (free : h.client_at p ≡ none) where
  pub client-alloc : (q : ℕ) → client (alloc_client p c h) q ≡ (if p == q then c else client h q)
  unfolding client
  client-alloc q = ground arith

  pub live-alloc : (q : ℕ) → IsLiveClient h q → IsLiveClient (alloc_client p c h) q
  live-alloc q (d, e) = elim (Bool-cases (p == q)) [
    | inl same ↦ (c, ground (arith, same))
    | inr other ↦ (d, ground (arith, other, e))
  ]

  pub of_live-alloc : (q : ℕ) → IsLiveClient (alloc_client p c h) q → (p ≡ q) ⊎ IsLiveClient h q
  of_live-alloc q (d, e) = elim (Bool-cases (p == q)) [
    | inl same ↦ inl (ground (arith, same))
    | inr other ↦ inr (d, ground (arith, other, e))
  ]

  module _ (joined : c.joined_channels ≡ []) (invited : c.invited_channels ≡ []) where
    joined-alloc :
        (q : ℕ) → (client (alloc_client p c h) q).joined_channels ≡ (client h q).joined_channels
    unfolding client new_client
    joined-alloc q = elim (Bool-cases (p == q)) [
      | inl same ↦ ground (arith, same, joined)
      | inr other ↦ rw (other, client) refl
    ]

    invited-alloc :
        (q : ℕ) → (client (alloc_client p c h) q).invited_channels ≡ (client h q).invited_channels
    unfolding client new_client
    invited-alloc q = elim (Bool-cases (p == q)) [
      | inl same ↦ ground (arith, same, invited)
      | inr other ↦ rw (other, client) refl
    ]

    pub Linked-alloc : Linked h → Linked (alloc_client p c h)
    unfolding channel
    Linked-alloc l = record {
      rooms = l.rooms;
      settled = l.settled;
      member_joined = λ ch q m. rw (joined-alloc q) (l.member_joined ch q m);
      joined_member = λ q name ch e. l.joined_member q name ch (rw (joined-alloc q) at e);
      invited_both = λ ch q. rw (invited-alloc q) (l.invited_both ch q);
      keys = λ q. rw (joined-alloc q) (l.keys q);
      names = l.names;
    }
