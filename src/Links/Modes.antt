-- ===== src/Links/Modes.antt =====
-- `handleMode` and `handleModeOperator`, as moves.
use ft_irc.Links.Flags.{
  set_mode_invite_only-KeepsLists, set_mode_topic_restriction-KeepsLists, set_mode_key-KeepsLists,
  set_mode_user_limit-KeepsLists,
}
use ft_irc.Channel.Limits.{parse_limit-bounds}
use ft_irc.Links.Moves.{one, say, Moves, silent, change, done, after}
use ft_irc.Heap.{channel, Heap}
use ft_irc.Handlers.Modes.{
  apply_flag, add_arg, next_param, tell, mode_i, mode_t, set_key, mode_k, set_limit, mode_l,
  mode_letter, mode_letters, start_modes, announce, handle_mode, handle_mode_operator, ModeLoop,
}
use ft_irc.Channel.{is_member, is_operator, parse_limit, is_valid_key, Channel}
use ft_irc.Heap.Live.{live-on_channel}
use ft_irc.Heap.Silent.{IsLiveChannel-silent}
use ft_irc.Heap.Quiet.{quiet-send_to_one, quiet-send_to_all, IsLiveChannel}
use ft_irc.Base.{
  ltb, ◌==◌, not, Option-cases, xor_bool, if_both, not-false, is_empty, get_elem?, Text, ℕ, inl,
  inr, Bool, true, false, Option, some, List, [], ◌∷◌, arith, none, refl,
}
use ft_irc.Links.Settings.{KeepsPeople-of-lists, set_mode_operator-KeepsPeople, KeepsLists}

module _ (L : ℕ → Bool) (ch u : ℕ) (h : Heap) where
  -- The loop has made moves, and goes on over a channel that is there.
  pub record Sound (l : ModeLoop) : Type 0 where
    pub moves : Moves L h l.heap
    pub live : IsLiveChannel l.heap ch

  Sound-tell : (message : Text) (l : ModeLoop) → Sound l → Sound (tell u message l)
  Sound-tell message l s = record {
    moves = after s.moves (silent _ (quiet-send_to_one u message l.heap));
    live = IsLiveChannel-silent l.heap _ (quiet-send_to_one u message l.heap) ch s.live;
  }

  Sound-apply_flag :
      (enable : Bool) (flag : ℕ) (f : Channel → Channel) (l : ModeLoop)
      → KeepsLists f (channel l.heap ch)
      → Sound l
      → Sound (apply_flag ch enable flag f l)
  Sound-apply_flag enable flag f l k s = record {
    moves = after s.moves (change ch f s.live (KeepsPeople-of-lists k));
    live = live-on_channel ch f l.heap ch s.live;
  }

  Sound-mode_i : (l : ModeLoop) → Sound l → Sound (mode_i ch l)
  unfolding mode_i
  Sound-mode_i l s =
      if_both Sound (xor_bool (channel l.heap ch).invite_only l.enable) _ _
        (λ e. Sound-apply_flag _ _ _ l (set_mode_invite_only-KeepsLists l.enable _) s) (λ e. s)

  Sound-mode_t : (l : ModeLoop) → Sound l → Sound (mode_t ch l)
  unfolding mode_t
  Sound-mode_t l s =
      if_both Sound (xor_bool (channel l.heap ch).topic_by_op_only l.enable) _ _
        (λ e. Sound-apply_flag _ _ _ l (set_mode_topic_restriction-KeepsLists l.enable _) s)
        (λ e. s)

  Sound-set_key : (key : Text) (l : ModeLoop) → Sound l → Sound (set_key ch u key l)
  unfolding set_key
  Sound-set_key key l s =
      if_both Sound (not (is_valid_key key)) _ _ (λ n. Sound-tell _ l s)
        (λ v.
          if_both Sound (not (is_empty (channel l.heap ch).key)) _ _ (λ n. Sound-tell _ l s)
            (λ e. Sound-args (
              Sound-apply_flag _ _ _ l (set_mode_key-KeepsLists true key _ (ground (arith, v))) s)))
    where
      Sound-args : {k : ModeLoop} → Sound k → Sound (add_arg key k)
      Sound-args r = record { moves = r.moves; live = r.live }

  Sound-next_param : (l : ModeLoop) → Sound l → Sound (next_param l)
  Sound-next_param l s = record { moves = s.moves; live = s.live }

  Sound-mode_k : (params : List Text) (l : ModeLoop) → Sound l → Sound (mode_k ch u params l)
  unfolding mode_k
  Sound-mode_k params l s =
      if_both Sound l.enable _ _ (λ e. with_param (get_elem? params l.param_index))
        (λ e.
          if_both Sound (not (is_empty (channel l.heap ch).key)) _ _
            (λ k. Sound-apply_flag _ _ _ l (set_mode_key-KeepsLists false [] _ refl) s) (λ k. s))
    where
      with_param :
          (o : Option Text)
          → Sound (elim o [ none ↦ l | some key ↦ set_key ch u key (next_param l) ])
      with_param none = s
      with_param (some key) = Sound-set_key key _ (Sound-next_param l s)

  Sound-set_limit : (raw : Text) (l : ModeLoop) → Sound l → Sound (set_limit ch u raw l)
  unfolding set_limit
  Sound-set_limit raw l s = elim (Option-cases (parse_limit raw)) [
    | inl e ↦ rw (e, set_limit) (Sound-tell _ l s)
    | inr (n, e) ↦
        rw (e, set_limit)
          (Sound-args (
            Sound-apply_flag _ _ _ l
              (set_mode_user_limit-KeepsLists true n _ (parse_limit-bounds raw n e).1) s))
  ]
    where
      Sound-args : {k : ModeLoop} → Sound k → Sound (add_arg raw k)
      Sound-args r = record { moves = r.moves; live = r.live }

  Sound-mode_l : (params : List Text) (l : ModeLoop) → Sound l → Sound (mode_l ch u params l)
  unfolding mode_l
  Sound-mode_l params l s =
      if_both Sound l.enable _ _ (λ e. with_param (get_elem? params l.param_index))
        (λ e.
          if_both Sound (ltb 0 (channel l.heap ch).user_limit) _ _
            (λ k.
              Sound-apply_flag _ _ _ l (set_mode_user_limit-KeepsLists false 0 _ (omega arith)) s)
            (λ k. s))
    where
      with_param :
          (o : Option Text)
          → Sound (elim o [ none ↦ l | some raw ↦ set_limit ch u raw (next_param l) ])
      with_param none = s
      with_param (some raw) = Sound-set_limit raw _ (Sound-next_param l s)

  Sound-enable : (enable : Bool) (l : ModeLoop) → Sound l → Sound (record l { enable = enable })
  Sound-enable enable l s = record { moves = s.moves; live = s.live }

  Sound-mode_letter :
      (params : List Text) (mode : ℕ) (l : ModeLoop)
      → Sound l
      → Sound (mode_letter ch u params mode l)
  unfolding mode_letter
  Sound-mode_letter params mode l s =
      if_both Sound (mode == b'+') _ _ (λ e. Sound-enable true l s)
        (λ e.
          if_both Sound (mode == b'-') _ _ (λ e. Sound-enable false l s)
            (λ e.
              if_both Sound (mode == b'i') _ _ (λ e. Sound-mode_i l s)
                (λ e.
                  if_both Sound (mode == b't') _ _ (λ e. Sound-mode_t l s)
                    (λ e.
                      if_both Sound (mode == b'k') _ _ (λ e. Sound-mode_k params l s)
                        (λ e.
                          if_both Sound (mode == b'l') _ _ (λ e. Sound-mode_l params l s)
                            (λ e. Sound-tell _ l s))))))

  pub Sound-mode_letters :
      (params : List Text) (modes : Text) (l : ModeLoop)
      → Sound l
      → Sound (mode_letters ch u params modes l)
  unfolding mode_letters
  Sound-mode_letters params [] l s = s
  Sound-mode_letters params (mode ∷ modes) l s =
      Sound-mode_letters params modes _ (Sound-mode_letter params mode l s)

  Moves-announce : (l : ModeLoop) → Moves L h l.heap → Moves L h (announce ch u l)
  unfolding announce
  Moves-announce l k =
      if_both (Moves _ h) (not (is_empty l.applied)) _ _
        (λ e. after k (silent _ (quiet-send_to_all ch _ l.heap))) (λ e. k)

  pub Moves-handle_mode :
      (modes : Text) (params : List Text)
      → IsLiveChannel h ch
      → Moves L h (handle_mode ch u modes params h)
  unfolding handle_mode
  Moves-handle_mode modes params lc =
      if_both (Moves _ h) (is_empty modes) _ _
        (λ e.
          if_both (Moves _ h) (not (is_member (channel h ch) u)) _ _ (λ n. say u _ h)
            (λ n. say u _ h))
        (λ e.
          if_both (Moves _ h) (not (is_operator (channel h ch) u)) _ _ (λ n. say u _ h)
            (λ o.
              Moves-announce _
                (Sound-mode_letters params modes (start_modes h)
                  (record { moves = done; live = lc })).moves))

  pub Moves-handle_mode_operator :
      (enable : Bool) (target : ℕ)
      → IsLiveChannel h ch
      → Moves L h (handle_mode_operator ch enable target u h)
  unfolding handle_mode_operator
  Moves-handle_mode_operator enable target lc =
      if_both (Moves _ h) (not (is_member (channel h ch) target)) _ _ (λ n. say u _ h)
        (λ m.
          if_both (Moves _ h) (not (is_operator (channel h ch) u)) _ _ (λ n. say u _ h)
            (λ o.
              if_both (Moves _ h) (not (xor_bool (is_operator (channel h ch) target) enable)) _ _
                (λ s. done)
                (λ s.
                  after
                    (one (
                      change ch _ lc
                        (set_mode_operator-KeepsPeople enable target _ (not-false _ m))))
                    (silent _ (quiet-send_to_all ch _ _)))))
