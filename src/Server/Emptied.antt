-- ===== src/Server/Emptied.antt =====
-- The channels that a client who quits leaves without members are the ones that are deleted.
-- One of the keys leads to the channel.
use ft_irc.Server.Found.{Keeps-delete_channel}
use ft_irc.Server.Sweep.{gone}
use ft_irc.Server.{on_heap, find_channel, clear_invited_users, delete_channel, Server}
use ft_irc.Server.Vacant.{IsVacant}
use ft_irc.Server.Inv.{Inv}
use ft_irc.Reply.{to_lower}
use ft_irc.Heap.{channel, Heap}
use ft_irc.Map.{Map, lookup, text_key, nat_key, values, lookup-erase}
use ft_irc.Map.Each.{Each, Each-map}
use ft_irc.Handlers.Member.{remove_quit_user}
use ft_irc.Channel.{is_member, is_channel_empty}
use ft_irc.Heap.Quiet.{IsLiveClient, IsLiveChannel}
use ft_irc.Server.Quit.{quit-members, AllEmptied, AllEmptied-delete_channel, Keeps-delete_channels}
use ft_irc.Server.Disconnect.{quit_channels, delete_channels}
use ft_irc.Base.{
  ==_iff, if_both, push_back, Text, ℕ, ◌≡◌, refl, ◌∙◌, ◌⊎◌, inl, inr, false, some, List, [], ◌∷◌,
  arith, ◌==◌, if◌then◌else◌, Bool-cases, contains, ap, true, sym, subst, Option-cases, text_eq,
  text_eq_iff,
}
use ft_irc.Links.Leave.{channel-remove_member}
use ft_irc.Links.Objects.{SameObjects-Moves, IsLiveClient-same, IsLiveChannel-same}
use ft_irc.Links.Handlers.{Moves-remove_quit_user}
use ft_irc.Links.Moves.{anywhere, Moves}

abbrev pub LeadsTo : List Text → Map Text ℕ → ℕ → Type 0
LeadsTo [] m x = ⊥
LeadsTo (k ∷ ks) m x = (lookup (to_lower k) m ≡ some x) ⊎ LeadsTo ks m x

LeadsTo-push_back :
    (ks : List Text) (k : Text) (m : Map Text ℕ) (x : ℕ)
    → LeadsTo ks m x ⊎ (lookup (to_lower k) m ≡ some x)
    → LeadsTo (push_back ks k) m x
LeadsTo-push_back [] k m x (inl e) = absurd e
LeadsTo-push_back [] k m x (inr e) = inl e
LeadsTo-push_back (j ∷ ks) k m x (inl (inl e)) = inl e
LeadsTo-push_back (j ∷ ks) k m x (inl (inr e)) = inr (LeadsTo-push_back ks k m x (inl e))
LeadsTo-push_back (j ∷ ks) k m x (inr e) = inr (LeadsTo-push_back ks k m x (inr e))

module _ (u : ℕ) where
  -- What the client is not in stays.
  channel-quit_user :
      (ch : ℕ) (h : Heap) (x : ℕ)
      → IsLiveChannel h ch
      → IsLiveClient h u
      → is_member (channel h x) u ≡ false
      → channel (remove_quit_user ch u h) x ≡ channel h x
  unfolding remove_quit_user
  channel-quit_user ch h x lc lu n =
      if_both (λ (k : Heap). channel k x ≡ channel h x) (is_member (channel h ch) u) _ _
        (λ m. rw (channel-remove_member ch u h lc lu x) (ground (arith, m, n, ==_iff ch x)))
        (λ m. refl)

  pub channel-quit_channels :
      (m : Map Text ℕ) (keys : List Text) (h : Heap) (x : ℕ)
      → IsLiveClient h u
      → Each (λ key ch. IsLiveChannel h ch) m
      → is_member (channel h x) u ≡ false
      → channel (quit_channels u m keys h).1 x ≡ channel h x
  unfolding quit_channels
  channel-quit_channels [] keys h x lu e n = refl
  channel-quit_channels ((key, ch) ∷ rest) keys h x lu e n =
      let h' = remove_quit_user ch u h in
      let left : Moves anywhere h h' = Moves-remove_quit_user ch u h e.0 lu refl in
      let same = SameObjects-Moves left in
      let lu' = IsLiveClient-same h h' same u lu in
      let e' = Each-map _ _ (λ k c l. IsLiveChannel-same h h' same c l) rest e.1 in
      let n' : is_member (channel h' x) u ≡ false =
        ground (arith, n, quit-members u ch h x u e.0 lu) in
      if_both (λ (r : List Text × Heap). channel r.1 x ≡ channel h x) (is_member (channel h ch) u) _
        _ (λ m. channel-quit_channels rest _ h' x lu' e' n' ∙ channel-quit_user ch h x e.0 lu n)
        (λ m. channel-quit_channels rest keys h x lu e.1 n)

  -- Where the channel stands: a key is collected, or the channel is still to come.
  abbrev Awaited : List Text → Map Text ℕ → Heap → Map Text ℕ → ℕ → Type 0
  Awaited keys m h chs x =
      LeadsTo keys chs x ⊎ ((contains (values m) x ≡ true) × (is_member (channel h x) u ≡ true))

  -- Past a channel that the client was in.
  Awaited-next :
      (key : Text) (ch : ℕ) (rest : Map Text ℕ) (keys : List Text) (h : Heap) (chs : Map Text ℕ)
      (x : ℕ)
      → IsLiveChannel h ch
      → IsLiveClient h u
      → lookup (to_lower key) chs ≡ some ch
      → (ch == x ≡ true → is_channel_empty (channel (remove_quit_user ch u h) ch) ≡ true)
      → Awaited keys ((key, ch) ∷ rest) h chs x
      → Awaited
          (if is_channel_empty (channel (remove_quit_user ch u h) ch)
            then push_back keys key
            else keys)
          rest
          (remove_quit_user ch u h)
          chs
          x
  unfolding contains
  Awaited-next key ch rest keys h chs x lc lu found empty (inl a) = inl (
      if_both (λ ks. LeadsTo ks chs x) (is_channel_empty (channel (remove_quit_user ch u h) ch)) _ _
        (λ q. LeadsTo-push_back keys key chs x (inl a)) (λ q. a))
  Awaited-next key ch rest keys h chs x lc lu found empty (inr (c, m)) =
      elim (Bool-cases (ch == x)) [
        | inl same ↦ inl (
            rw (empty same)
              (LeadsTo-push_back keys key chs x (inr (found ∙ ap some (ground (arith, same))))))
        | inr other ↦
            inr (ground (arith, c, other), ground (arith, m, other, quit-members u ch h x u lc lu))
      ]

  pub LeadsTo-quit_channels :
      (m : Map Text ℕ) (keys : List Text) (h : Heap) (chs : Map Text ℕ) (x : ℕ)
      → IsLiveClient h u
      → Each (λ key ch. IsLiveChannel h ch × (lookup (to_lower key) chs ≡ some ch)) m
      → is_channel_empty (channel (quit_channels u m keys h).1 x) ≡ true
      → Awaited keys m h chs x
      → LeadsTo (quit_channels u m keys h).0 chs x
  unfolding quit_channels contains
  LeadsTo-quit_channels [] keys h chs x lu e =
      λ v a. elim a [ inl there ↦ there | inr (c, m) ↦ absurd (cc) ]
  LeadsTo-quit_channels ((key, ch) ∷ rest) keys h chs x lu e =
      let h' = remove_quit_user ch u h in
      let left : Moves anywhere h h' = Moves-remove_quit_user ch u h e.0.0 lu refl in
      let same = SameObjects-Moves left in
      let lu' = IsLiveClient-same h h' same u lu in
      let e' = Each-map _ _ (λ k c l. (IsLiveChannel-same h h' same c l.0, l.1)) rest e.1 in
      if_both
        (λ (r : List Text × Heap).
          is_channel_empty (channel r.1 x) ≡ true
          → Awaited keys ((key, ch) ∷ rest) h chs x
          → LeadsTo r.0 chs x)
        (is_member (channel h ch) u) _ _
        (λ m v a.
          LeadsTo-quit_channels rest _ h' chs x lu' e' v
            (Awaited-next key ch rest keys h chs x e.0.0 lu e.0.1 (emptied _ lu' e' v) a))
        (λ n v a. LeadsTo-quit_channels rest keys h chs x lu e.1 v (passed n a))
    where
      emptied :
          (keys' : List Text)
          → IsLiveClient (remove_quit_user ch u h) u
          → Each
              (λ k c.
                IsLiveChannel (remove_quit_user ch u h) c × (lookup (to_lower k) chs ≡ some c))
              rest
          → is_channel_empty (channel (quit_channels u rest keys' (remove_quit_user ch u h)).1 x)
            ≡ true
          → ch == x ≡ true
          → is_channel_empty (channel (remove_quit_user ch u h) ch) ≡ true
      emptied keys' l' e' v q =
          let same : ch ≡ x = ground (arith, q) in
          let out : is_member (channel (remove_quit_user ch u h) x) u ≡ false =
            ground (arith, quit-members u ch h x u e.0.0 lu, q) in
          let stays =
            channel-quit_channels rest keys' (remove_quit_user ch u h) x l'
              (Each-map _ _ (λ k c l. l.0) rest e') out in
          subst (λ y. is_channel_empty (channel (remove_quit_user ch u h) y) ≡ true) (sym same)
            (rw stays at v)

      passed :
          is_member (channel h ch) u ≡ false
          → Awaited keys ((key, ch) ∷ rest) h chs x
          → Awaited keys rest h chs x
      passed n (inl a) = inl a
      passed n (inr (c, m)) = elim (Bool-cases (ch == x)) [
        | inl same ↦ absurd (ground (arith, n, m, same))
        | inr other ↦ inr (ground (arith, c, other), m)
      ]

-- A key that leads elsewhere still leads there after a deletion.
lookup-delete_channel :
    (name key : Text) (s : Server) (x : ℕ)
    → lookup (to_lower key) s.channels ≡ some x
    → (lookup (to_lower name) s.channels ≡ some x)
      ⊎ (lookup (to_lower key) (delete_channel name s).channels ≡ some x)
unfolding delete_channel
lookup-delete_channel name key s x e = elim (Bool-cases (text_eq (to_lower name) (to_lower key))) [
  | inl same ↦ inl (
      ap (λ k. lookup k s.channels)
        (ground (arith, same, text_eq_iff (to_lower name) (to_lower key)))
      ∙ e)
  | inr other ↦ inr (elim (Option-cases (lookup (to_lower name) s.channels)) [
    | inl f ↦ rw (f, delete_channel) e
    | inr (ch, f) ↦
        rw (f, delete_channel)
          (unfold on_heap clear_invited_users in
            rw (lookup-erase (to_lower name) (to_lower key) s.channels, other) e)
  ])
]

LeadsTo-delete_channel :
    (name : Text) (keys : List Text) (s : Server) (x : ℕ)
    → LeadsTo keys s.channels x
    → (lookup (to_lower name) s.channels ≡ some x) ⊎ LeadsTo keys (delete_channel name s).channels x
LeadsTo-delete_channel name [] s x l = absurd l
LeadsTo-delete_channel name (k ∷ keys) s x (inl e) = elim (lookup-delete_channel name k s x e) [
  | inl here ↦ inl here
  | inr later ↦ inr (inl later)
]
LeadsTo-delete_channel name (k ∷ keys) s x (inr l) = elim (LeadsTo-delete_channel name keys s x l) [
  | inl here ↦ inl here
  | inr later ↦ inr (inr later)
]

pub delete_channels-LeadsTo :
    (keys : List Text) (s : Server) (x : ℕ)
    → Inv s
    → AllEmptied keys s
    → LeadsTo keys s.channels x
    → ¬ IsVacant (delete_channels keys s).heap x
unfolding delete_channels
delete_channels-LeadsTo [] s x v a l = λ w. l
delete_channels-LeadsTo (k ∷ keys) s x v a l =
    let first = Keeps-delete_channel k s v a.0 in
    let a' = AllEmptied-delete_channel k keys s a.1 in
    elim l [
      | inl here ↦ deleted here
      | inr later ↦ elim (LeadsTo-delete_channel k keys s x later) [
        | inl here ↦ deleted here
        | inr still ↦ delete_channels-LeadsTo keys _ x first.inv a' still
      ]
    ]
  where
    deleted :
        lookup (to_lower k) s.channels ≡ some x
        → ¬ IsVacant (delete_channels keys (delete_channel k s)).heap x
    deleted here w =
        let found : find_channel s k ≡ some x = unfold find_channel in here in
        let first = Keeps-delete_channel k s v a.0 in
        let rest =
          Keeps-delete_channels keys _ first.inv (AllEmptied-delete_channel k keys s a.1) in
        gone k x s v found (a.0 x found) (rest.no_vacancy x refl w)
