-- ===== src/Safe/ModeCommand.antt =====
-- The invariant through common/commandlist/Mode.cpp.
use ft_irc.Server.Changes.{Keeps-Moves, Keeps-say}
use ft_irc.Server.{on_heap, find_channel, find_client_by_nickname, Server}
use ft_irc.Heap.{channel, Heap}
use ft_irc.Commands.ModeCommand.{
  mode, start_filter, on_server, filter_operator, keep_letter, filter_limited, filter_known,
  is_known_mode, filter_letter, filter_letters, hand_over, starts_with_sign, change_modes, mode_on,
  is_channel_prefix, mode_params_of, Filter,
}
use ft_irc.Commands.Rooms.{complain}
use ft_irc.Parse.Message.{Message}
use ft_irc.Channel.{is_operator}
use ft_irc.Heap.Quiet.{IsLiveChannel}
use ft_irc.Server.Keeps.{Keeps-refl, Keeps-and, Keeps}
use ft_irc.Server.Inv.{live_of_find_channel, Inv}
use ft_irc.Base.{
  leb, ◌==◌, if◌then◌else◌, not, Option-cases, if_both, is_empty, get_elem?, Text, ℕ, suc, ◌≡◌,
  refl, sym, subst, inl, inr, Bool, true, false, ◌&&◌, ◌||◌, Option, none, some, List, [], ◌∷◌,
}
use ft_irc.Links.Modes.{Moves-handle_mode, Moves-handle_mode_operator}
use ft_irc.Links.Objects.{SameObjects-Moves, IsLiveChannel-same}
use ft_irc.Links.Moves.{say, Moves, nowhere}

module _ (ch c : ℕ) (s : Server) where
  -- The loop so far, over a channel that is there.
  record Running (l : Filter) : Type 0 where
    keeps : Keeps s l.server
    still_there : IsLiveChannel l.server.heap ch

  Running-Moves :
      (l : Filter) (f : Heap → Heap)
      → Running l
      → Moves nowhere l.server.heap (f l.server.heap)
      → Running (on_server (on_heap f) l)
  Running-Moves l f r m = record {
    keeps = Keeps-and r.keeps (λ v. Keeps-Moves l.server f v m);
    still_there = unfold on_heap in IsLiveChannel-same _ _ (SameObjects-Moves m) ch r.still_there;
  }

  Running-complain :
      (code : ℕ) (text : Text) (l : Filter)
      → Running l
      → Running (on_server (complain c code text) l)
  Running-complain code text l r = Running-Moves l _ r (say c _ l.server.heap)

  -- A step that leaves the server alone.
  Running-same : (l l' : Filter) → l'.server ≡ l.server → Running l → Running l'
  Running-same l l' e r = record {
    keeps = subst (Keeps s) (sym e) r.keeps;
    still_there = subst (λ (t : Server). IsLiveChannel t.heap ch) (sym e) r.still_there;
  }

  Running-filter_operator :
      (param : Text) (l : Filter) → Running l → Running (filter_operator ch c param l)
  unfolding filter_operator
  Running-filter_operator param l r = elim (Option-cases (find_client_by_nickname l.server param)) [
    | inl e ↦ rw (e, filter_operator) (Running-complain _ _ l r)
    | inr (target, e) ↦
        rw (e, filter_operator)
          (Running-Moves l _ r
            (Moves-handle_mode_operator _ ch c l.server.heap l.enable target r.still_there))
  ]

  Running-keep_letter :
      (mode : ℕ) (param : Option Text) (l : Filter) → Running l → Running (keep_letter mode param l)
  unfolding keep_letter
  Running-keep_letter mode param l r = Running-same l _ refl r

  count_mode : Bool → Filter → Filter
  count_mode counts l = if counts then record l { param_mode_count = suc l.param_mode_count } else l

  Running-count : (counts : Bool) (l : Filter) → Running l → Running (count_mode counts l)
  unfolding count_mode
  Running-count true l r = Running-same l _ refl r
  Running-count false l r = r

  Running-filter_limited :
      (mode : ℕ) (param : Option Text) (l : Filter)
      → Running l
      → Running (filter_limited ch c mode param l)
  unfolding filter_limited
  Running-filter_limited mode param l r =
      if_both Running ((mode == b'o' || mode == b'k' || mode == b'l') && leb 3 l.param_mode_count) _
        _ (λ e. r)
        (λ e.
          unfold count_mode in
          let r' = Running-count (mode == b'o' || mode == b'k' || mode == b'l') l r in
          if_both Running (mode == b'o') _ _ (λ e. Running-filter_operator _ _ r')
            (λ e. Running-keep_letter mode param _ r'))

  Running-filter_known :
      (params : List Text) (mode : ℕ) (l : Filter)
      → Running l
      → Running (filter_known ch c params mode l)
  unfolding filter_known
  Running-filter_known params mode l r =
      if_both Running (mode == b'o' || mode == b'k' || (mode == b'l' && l.enable)) _ _
        (λ e. elim (Option-cases (get_elem? params l.param_index)) [
          | inl f ↦
              rw (f, filter_known)
                (if_both Running (mode == b'o' || (l.enable && (mode == b'k' || mode == b'l'))) _ _
                  (λ e. Running-complain _ _ l r) (λ e. Running-filter_limited mode none l r))
          | inr (p, f) ↦
              rw (f, filter_known)
                (Running-filter_limited mode (some p) _ (Running-same l _ refl r))
        ])
        (λ e. Running-filter_limited mode none l r)

  Running-filter_letter :
      (params : List Text) (mode : ℕ) (l : Filter)
      → Running l
      → Running (filter_letter ch c params mode l)
  unfolding filter_letter
  Running-filter_letter params mode l r =
      if_both Running (mode == b'+') _ _ (λ e. Running-same l _ refl r)
        (λ e.
          if_both Running (mode == b'-') _ _ (λ e. Running-same l _ refl r)
            (λ e.
              if_both Running (not (is_known_mode mode)) _ _ (λ e. Running-complain _ _ l r)
                (λ e. Running-filter_known params mode l r)))

  Running-filter_letters :
      (params : List Text) (modes : Text) (l : Filter)
      → Running l
      → Running (filter_letters ch c params modes l)
  unfolding filter_letters
  Running-filter_letters params [] l r = r
  Running-filter_letters params (mode ∷ modes) l r =
      Running-filter_letters params modes _ (Running-filter_letter params mode l r)

  Keeps-hand_over : (l : Filter) → Running l → Keeps s (hand_over ch c l)
  unfolding hand_over
  Keeps-hand_over l r =
      if_both (Keeps s) (not (is_empty l.filtered_modes)) _ _
        (λ e. Keeps-and r.keeps λ v.
          Keeps-Moves l.server _ v (
            Moves-handle_mode _ ch c l.server.heap l.filtered_modes l.filtered_params
              r.still_there))
        (λ e. r.keeps)

  Keeps-change_modes :
      (modes : Text) (params : List Text)
      → IsLiveChannel s.heap ch
      → Inv s
      → Keeps s (change_modes ch c modes params s)
  unfolding change_modes
  Keeps-change_modes modes params there v =
      if_both (Keeps s) (not (is_operator (channel s.heap ch) c)) _ _ (λ e. Keeps-say s c _ v)
        (λ e.
          if_both (Keeps s) (not (starts_with_sign modes)) _ _ (λ e. Keeps-say s c _ v)
            (λ e. Keeps-hand_over _ (
              Running-filter_letters params modes (start_filter s)
                (record { keeps = Keeps-refl s v; still_there = there }))))

Keeps-mode_on :
    (c : ℕ) (name modes : Text) (params : List Text) (s : Server)
    → Inv s
    → Keeps s (mode_on c name modes params s)
unfolding mode_on
Keeps-mode_on c name modes params s v = elim (Option-cases (find_channel s name)) [
  | inl e ↦ rw (e, mode_on) (Keeps-say s c _ v)
  | inr (ch, e) ↦
      let there = (live_of_find_channel s name v e).0 in
      rw (e, mode_on)
        (if_both (Keeps s) (is_empty modes) _ _
          (λ e. Keeps-Moves s _ v (Moves-handle_mode _ ch c s.heap modes params there))
          (λ e. Keeps-change_modes ch c s modes params there v))
]

Keeps-mode_rest :
    (c : ℕ) (name : Text) (rest : List Text) (s : Server)
    → Inv s
    → Keeps s (elim rest [
      | [] ↦ mode_on c name [] [] s
      | modes ∷ mode_params ↦ mode_on c name modes mode_params s
    ])
Keeps-mode_rest c name [] s v = Keeps-mode_on c name [] [] s v
Keeps-mode_rest c name (modes ∷ params) s v = Keeps-mode_on c name modes params s v

Keeps-mode_params_of :
    (c : ℕ) (params : List Text) (s : Server) → Inv s → Keeps s (mode_params_of c params s)
unfolding mode_params_of
Keeps-mode_params_of c [] s v = Keeps-say s c _ v
Keeps-mode_params_of c (name ∷ rest) s v =
    if_both (Keeps s) (is_empty name) _ _ (λ e. Keeps-say s c _ v)
      (λ e.
        if_both (Keeps s) (not (is_channel_prefix name)) _ _ (λ e. Keeps-refl s v)
          (λ e. Keeps-mode_rest c name rest s v))

-- If the invariant holds, it holds after MODE from any client with any parameters; the table of
-- connections stays, and every client that is there stays, with its descriptor and read buffer;
-- who has given the server's password then had given it before; and a channel that is without
-- members then was so before.
pub Keeps-mode : (c : ℕ) (msg : Message) (s : Server) → Inv s → Keeps s (mode c msg s)
unfolding mode
Keeps-mode c msg s v = Keeps-mode_params_of c msg.parameter s v
