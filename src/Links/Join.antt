-- ===== src/Links/Join.antt =====
-- What `handleJoin` does, as moves.
use ft_irc.Links.Moves.{one, say, Move, Moves, silent, change, done, after}
use ft_irc.Heap.{channel, send_to_one, Heap, client}
use ft_irc.Handlers.Member.{send_names, welcome, enter, handle_join}
use ft_irc.Channel.{check_key, is_full, is_invited, is_member, add_operator}
use ft_irc.Heap.Live.{live_of_member}
use ft_irc.Heap.Silent.{Silent}
use ft_irc.Heap.Quiet.{quiet-send_to_one, quiet-send_to_all, IsLiveClient, IsLiveChannel}
use ft_irc.Base.{
  if◌then◌else◌, not, if_both, is_empty, contains-push_back, Text, ℕ, ◌≡◌, refl, ◌∙◌, Bool, true,
  false, ◌&&◌, List, [], ◌∷◌, ◌++◌, arith,
}
use ft_irc.Links.Enter.{let_in, channel-let_in}
use ft_irc.Links.Settings.{add_operator-KeepsPeople}

Silent-if_send :
    (b : Bool) (u : ℕ) (message : Text) (h : Heap)
    → Silent h (if b then send_to_one u message h else h)
Silent-if_send true u message h = quiet-send_to_one u message h
Silent-if_send false u message h = refl

quiet-send_names :
    (ch u : ℕ) (prefix : Text) (limit : ℕ) (ms : List ℕ) (users : Text) (h : Heap)
    → Silent h (send_names ch u prefix limit ms users h)
unfolding send_names
quiet-send_names ch u prefix limit [] users h = Silent-if_send (not (is_empty users)) u _ h
quiet-send_names ch u prefix limit (m ∷ ms) users h =
    quiet-send_names ch u prefix limit ms _ _ ∙ Silent-if_send _ u (prefix ++ users) h

pub quiet-welcome : (ch u : ℕ) (h : Heap) → Silent h (welcome ch u h)
unfolding welcome
quiet-welcome ch u h =
    quiet-send_to_one u _ _
    ∙ quiet-send_names ch u _ _ (channel h ch).members [] _
    ∙ quiet-send_to_one u _ _
    ∙ quiet-send_to_all ch _ h

module _ (ch u : ℕ) (h : Heap) (lc : IsLiveChannel h ch) (lu : IsLiveClient h u)
    (n : is_member (channel h ch) u ≡ false) where
  pub member-let_in : is_member (channel (let_in ch u h) ch) u ≡ true
  member-let_in =
      rw (channel-let_in ch u h lc lu n ch)
        (ground (arith, contains-push_back (channel h ch).members u u))

  pub Moves-enter : {L : ℕ → Bool} → (client h u).is_registered ≡ true → Moves L h (enter ch u h)
  unfolding enter
  Moves-enter r =
      after
        (if_both (Moves _ h) (is_empty (channel h ch).members) _ _
          (λ e. after (one (Move.enter ch u lc lu n r)) (
            change ch (add_operator u) (live_of_member _ ch u member-let_in)
              (add_operator-KeepsPeople u _ member-let_in)))
          (λ e. one (Move.enter ch u lc lu n r)))
        (silent _ (quiet-welcome ch u _))

pub Moves-handle_join :
    {L : ℕ → Bool} (ch u : ℕ) (key : Text) (h : Heap)
    → IsLiveChannel h ch
    → IsLiveClient h u
    → (client h u).is_registered ≡ true
    → Moves L h (handle_join ch u key h)
unfolding handle_join
Moves-handle_join ch u key h lc lu r =
    if_both (Moves _ h) (is_member (channel h ch) u) _ _ (λ m. done)
      (λ m.
        if_both (Moves _ h)
          (not (is_empty (channel h ch).key) && not (check_key (channel h ch) key)) _ _
          (λ n. say u _ h)
          (λ k.
            if_both (Moves _ h) ((channel h ch).invite_only && not (is_invited (channel h ch) u)) _
              _ (λ n. say u _ h)
              (λ i.
                if_both (Moves _ h) (is_full (channel h ch)) _ _ (λ n. say u _ h)
                  (λ f. Moves-enter ch u h lc lu m r))))
