-- ===== src/Heap/Silent.antt =====
-- What two heaps share that differ in write buffers only.
use ft_irc.Heap.{client, channel, Heap}
use ft_irc.Base.{ℕ, ◌≡◌, ◌∙◌, arith, ap}
use ft_irc.Heap.Live.{some_of_map}
use ft_irc.Heap.Quiet.{core, quiet, client-quiet, IsLiveClient, IsLiveChannel}
use mathlib.Core.Option

abbrev pub Silent : Heap → Heap → Type 0
Silent h h' = quiet h' ≡ quiet h

module _ (h h' : Heap) (e : Silent h h') where
  pub channel-silent : (x : ℕ) → channel h' x ≡ channel h x
  unfolding channel
  channel-silent x = ap (λ (k : Heap). channel k x) e

  pub client-silent : (p : ℕ) → core (client h' p) ≡ core (client h p)
  client-silent p =
      ground (arith, client-quiet h' p, client-quiet h p, ap (λ (k : Heap). client k p) e)

  pub IsLiveChannel-silent : (x : ℕ) → IsLiveChannel h x → IsLiveChannel h' x
  IsLiveChannel-silent x (c, q) = (c, ap (λ (k : Heap). k.channel_at x) e ∙ q)

  pub IsLiveClient-silent : (p : ℕ) → IsLiveClient h p → IsLiveClient h' p
  IsLiveClient-silent p (c, q) =
      let (d, r) =
        some_of_map core (h'.client_at p) {b = core c}
          (ap (λ (k : Heap). k.client_at p) e ∙ ap (Option.map core) q) in
      (d, r)
