-- ===== src/Server/Quit.antt =====
-- `Server::removeClientFromAllChannels`: the loops over the channels and over the emptied ones.
use ft_irc.Server.Found.{Keeps-delete_channel}
use ft_irc.Server.Keeps.{Keeps-refl, Keeps-and, Keeps}
use ft_irc.Server.Inv.{Inv}
use ft_irc.Links.Delete.{channels-clear_invited}
use ft_irc.Reply.{to_lower}
use ft_irc.Map.{Map, lookup, text_key, nat_key, lookup-erase, values}
use ft_irc.Map.Each.{Each, Each-map}
use ft_irc.Server.Disconnect.{quit_channels, delete_channels}
use ft_irc.Links.Objects.{SameObjects-Moves, IsLiveClient-same, IsLiveChannel-same}
use ft_irc.Links.Handlers.{Moves-remove_quit_user}
use ft_irc.Links.Moves.{Moves-trans, Moves, done, anywhere}
use ft_irc.Server.{
  find_channel, Server, on_heap, free_channel, clear_invited, clear_invited_users, delete_channel,
}
use ft_irc.Heap.{channel, Heap}
use ft_irc.Handlers.Member.{remove_quit_user}
use ft_irc.Channel.{is_member, is_channel_empty, new_channel, Channel}
use ft_irc.Heap.Quiet.{IsLiveClient, IsLiveChannel}
use ft_irc.Links.Leave.{channel-remove_member}
use ft_irc.Base.{
  ℕ, ◌==◌, if◌then◌else◌, not, if_both, is_empty, push_back, contains-remove, Text, ◌≡◌, true, ◌&&◌,
  some, List, [], ◌∷◌, arith, remove, refl, subst, Option-cases, contains, ap, ◌∙◌, inl, inr, ◌||◌,
  Option,
}

-- `lookup` with `to_lower`, as `deleteChannel` looks a key up: what it finds has no members.
abbrev pub IsEmptied : Server → Text → Type 0
IsEmptied s key = (x : ℕ) → find_channel s key ≡ some x → is_channel_empty (channel s.heap x) ≡ true

abbrev pub AllEmptied : List Text → Server → Type 0
AllEmptied [] s = Unit
AllEmptied (key ∷ keys) s = IsEmptied s key × AllEmptied keys s

AllEmptied-push_back :
    (keys : List Text) (key : Text) (s : Server)
    → AllEmptied keys s
    → IsEmptied s key
    → AllEmptied (push_back keys key) s
AllEmptied-push_back [] key s a e = (e, tt)
AllEmptied-push_back (k ∷ keys) key s a e = (a.0, AllEmptied-push_back keys key s a.1 e)

empty-remove : (u : ℕ) (xs : List ℕ) → is_empty xs ≡ true → is_empty (remove u xs) ≡ true
unfolding remove
empty-remove u [] e = refl
empty-remove u (x ∷ xs) e = absurd (cc)

module _ (u : ℕ) where
  -- A channel loses no one but the client, and gains no one.
  pub quit-members :
      (ch : ℕ) (h : Heap) (x p : ℕ)
      → IsLiveChannel h ch
      → IsLiveClient h u
      → is_member (channel (remove_quit_user ch u h) x) p
        ≡ (is_member (channel h x) p && not (ch == x && u == p))
  unfolding remove_quit_user
  quit-members ch h x p lc lu =
      if_both
        (λ (k : Heap).
          is_member (channel k x) p ≡ (is_member (channel h x) p && not (ch == x && u == p)))
        (is_member (channel h ch) u) _ _
        (λ m.
          rw (channel-remove_member ch u h lc lu x)
            (ground (arith, contains-remove u (channel h ch).members p)))
        (λ n. ground (arith, n))

  quit-empty :
      (ch : ℕ) (h : Heap) (x : ℕ)
      → IsLiveChannel h ch
      → IsLiveClient h u
      → is_channel_empty (channel h x) ≡ true
      → is_channel_empty (channel (remove_quit_user ch u h) x) ≡ true
  unfolding remove_quit_user is_channel_empty
  quit-empty ch h x lc lu e =
      if_both (λ (k : Heap). is_empty (channel k x).members ≡ true) (is_member (channel h ch) u) _ _
        (λ m.
          rw (channel-remove_member ch u h lc lu x)
            (ground (arith, e, empty-remove u (channel h x).members)))
        (λ n. e)

  AllEmptied-quit :
      (ch : ℕ) (h : Heap) (keys : List Text) (s : Server)
      → IsLiveChannel h ch
      → IsLiveClient h u
      → AllEmptied keys (record s { heap = h })
      → AllEmptied keys (record s { heap = remove_quit_user ch u h })
  unfolding find_channel
  AllEmptied-quit ch h [] s lc lu a = tt
  AllEmptied-quit ch h (k ∷ keys) s lc lu a =
      (λ x f. quit-empty ch h x lc lu (a.0 x f), AllEmptied-quit ch h keys s lc lu a.1)

  -- The keys that are collected lead to channels without members.
  pub Moves-quit_channels :
      (m : Map Text ℕ) (keys : List Text) (h : Heap) (s : Server)
      → IsLiveClient h u
      → Each (λ key ch. IsLiveChannel h ch × (lookup (to_lower key) s.channels ≡ some ch)) m
      → AllEmptied keys (record s { heap = h })
      → let r : List Text × Heap = quit_channels u m keys h in
        Moves anywhere h r.1 × AllEmptied r.0 (record s { heap = r.1 })
  unfolding quit_channels
  Moves-quit_channels [] keys h s lu e a = (done, a)
  Moves-quit_channels ((key, ch) ∷ rest) keys h s lu e a =
      let lc = e.0.0 in
      let h' = remove_quit_user ch u h in
      let one_quit : Moves anywhere h h' = Moves-remove_quit_user ch u h lc lu refl in
      let same = SameObjects-Moves one_quit in
      let lu' = IsLiveClient-same h h' same u lu in
      let e' = Each-map _ _ (λ k c l. (IsLiveChannel-same h h' same c l.0, l.1)) rest e.1 in
      let a' = AllEmptied-quit ch h keys s lc lu a in
      if_both
        (λ (r : List Text × Heap). Moves anywhere h r.1 × AllEmptied r.0 (record s { heap = r.1 }))
        (is_member (channel h ch) u) _ _
        (λ m.
          let rest_of =
            Moves-quit_channels rest
              (if is_channel_empty (channel h' ch) then push_back keys key else keys) h' s lu' e'
              (if_both (λ ks. AllEmptied ks (record s { heap = h' }))
                (is_channel_empty (channel h' ch)) _ _
                (λ q. AllEmptied-push_back keys key _ a' (found key ch h' e.0.1 q)) (λ q. a')) in
          (Moves-trans one_quit rest_of.0, rest_of.1))
        (λ n. Moves-quit_channels rest keys h s lu e.1 a)
    where
      found :
          (key : Text) (ch : ℕ) (k : Heap)
          → lookup (to_lower key) s.channels ≡ some ch
          → is_channel_empty (channel k ch) ≡ true
          → IsEmptied (record s { heap = k }) key
      found key ch k f q x g =
          unfold find_channel in
          subst (λ y. is_channel_empty (channel k y) ≡ true) (ground (arith, f, g)) q

  -- The client is in none of the channels of the loop any more, and in no other than before.
  pub members-quit_channels :
      (m : Map Text ℕ) (keys : List Text) (h : Heap) (x : ℕ)
      → IsLiveClient h u
      → Each (λ key ch. IsLiveChannel h ch) m
      → is_member (channel (quit_channels u m keys h).1 x) u
        ≡ (is_member (channel h x) u && not (contains (values m) x))
  unfolding quit_channels contains
  members-quit_channels [] keys h x lu e = ground arith
  members-quit_channels ((key, ch) ∷ rest) keys h x lu e =
      let h' = remove_quit_user ch u h in
      let left : Moves anywhere h h' = Moves-remove_quit_user ch u h e.0 lu refl in
      let same = SameObjects-Moves left in
      let lu' = IsLiveClient-same h h' same u lu in
      let e' = Each-map _ _ (λ k c l. IsLiveChannel-same h h' same c l) rest e.1 in
      if_both
        (λ (r : List Text × Heap).
          is_member (channel r.1 x) u
          ≡ (is_member (channel h x) u && not (ch == x || contains (values rest) x)))
        (is_member (channel h ch) u) _ _
        (λ m.
          members-quit_channels rest _ h' x lu' e' ∙ ground (arith, quit-members ch h x u e.0 lu))
        (λ n. members-quit_channels rest keys h x lu e.1 ∙ ground (arith, n))

-- A deletion of channels.
channel-clear_invited :
    (ch : ℕ) (ps : List ℕ) (h : Heap) (x : ℕ) → channel (clear_invited ch ps h) x ≡ channel h x
unfolding channel
channel-clear_invited ch ps h x =
    ground (arith, ap (λ (f : ℕ → Option Channel). f x) (channels-clear_invited ch ps h))

channel-freed :
    (ch x : ℕ) (h : Heap)
    → channel (free_channel ch h) x ≡ (if ch == x then new_channel [] else channel h x)
unfolding free_channel channel
channel-freed ch x h = ground arith

module _ (P : Channel → Type 0) (blank : P (new_channel [])) where
  channel-delete_channel :
      (name : Text) (s : Server) (x : ℕ)
      → P (channel s.heap x)
      → P (channel (delete_channel name s).heap x)
  unfolding delete_channel
  channel-delete_channel name s x e = elim (Option-cases (lookup (to_lower name) s.channels)) [
    | inl f ↦ rw (f, delete_channel) e
    | inr (ch, f) ↦ rw (f, delete_channel) (unfold on_heap clear_invited_users in freed ch)
  ]
    where
      freed :
          (ch : ℕ) → P (channel (free_channel ch (clear_invited ch (values s.clients) s.heap)) x)
      freed ch =
          rw
            (
              channel-freed ch x (clear_invited ch (values s.clients) s.heap),
              channel-clear_invited ch (values s.clients) s.heap x,
            )
            (if_both P (ch == x) _ _ (λ q. blank) (λ q. e))

  pub channel-delete_channels :
      (keys : List Text) (s : Server) (x : ℕ)
      → P (channel s.heap x)
      → P (channel (delete_channels keys s).heap x)
  unfolding delete_channels
  channel-delete_channels [] s x e = e
  channel-delete_channels (k ∷ keys) s x e =
      channel-delete_channels keys _ x (channel-delete_channel k s x e)

pub find_channel-delete_channel :
    (name key : Text) (s : Server) (x : ℕ)
    → find_channel (delete_channel name s) key ≡ some x
    → find_channel s key ≡ some x
unfolding delete_channel find_channel
find_channel-delete_channel name key s x = elim (Option-cases (lookup (to_lower name) s.channels)) [
  | inl f ↦ rw (f, delete_channel) (λ e. e)
  | inr (ch, f) ↦
      rw (f, delete_channel)
        (unfold on_heap clear_invited_users in
          λ e. ground (arith, e, lookup-erase (to_lower name) (to_lower key) s.channels))
]

pub AllEmptied-delete_channel :
    (name : Text) (keys : List Text) (s : Server)
    → AllEmptied keys s
    → AllEmptied keys (delete_channel name s)
AllEmptied-delete_channel name [] s a = tt
AllEmptied-delete_channel name (k ∷ keys) s a = (
  λ x f.
      channel-delete_channel (λ c. is_channel_empty c ≡ true)
        (unfold is_channel_empty new_channel in refl) name s x
        (a.0 x (find_channel-delete_channel name k s x f)),
  AllEmptied-delete_channel name keys s a.1,
)

pub Keeps-delete_channels :
    (keys : List Text) (s : Server) → Inv s → AllEmptied keys s → Keeps s (delete_channels keys s)
unfolding delete_channels
Keeps-delete_channels [] s v a = Keeps-refl s v
Keeps-delete_channels (k ∷ keys) s v a =
    Keeps-and (Keeps-delete_channel k s v a.0)
      (λ b. Keeps-delete_channels keys _ b (AllEmptied-delete_channel k keys s a.1))
