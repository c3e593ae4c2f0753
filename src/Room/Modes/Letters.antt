-- ===== src/Room/Modes/Letters.antt =====
-- The letters that `handleMode` of channel/Channel.cpp goes through: what is announced reads as what
-- is set.
use ft_irc.Links.Flags.{
  set_mode_invite_only-KeepsLists, set_mode_topic_restriction-KeepsLists, set_mode_key-KeepsLists,
  set_mode_user_limit-KeepsLists,
}
use ft_irc.Heap.{channel, Heap}
use ft_irc.Handlers.Modes.{
  next_param, mode_i, mode_t, set_key, mode_k, set_limit, mode_l, mode_letter, mode_letters,
  ModeLoop,
}
use ft_irc.Channel.{
  set_mode_invite_only, set_mode_topic_restriction, set_mode_key, set_mode_user_limit, parse_limit,
  is_valid_key,
}
use ft_irc.Room.Modes.Reader.{
  IsFaithful, IsFaithful-apply_flag, IsFaithful-add_arg, IsFaithful-tell, IsFaithful-next_param,
  IsFaithful-enable,
}
use ft_irc.Channel.Limits.{atoi_from-parse_limit, parse_limit-bounds}
use ft_irc.Base.{
  ltb, ◌==◌, not, Option-cases, xor_bool, if_both, is_empty, get_elem?, Text, ℕ, refl, inl, inr,
  true, false, Option, none, some, List, [], ◌∷◌, arith,
}

module _ (ch u : ℕ) (h : Heap) where
  abbrev Good : ModeLoop → Type 0
  Good = IsFaithful ch u h

  Good-mode_i : (l : ModeLoop) → Good l → Good (mode_i ch l)
  unfolding mode_i set_mode_invite_only
  Good-mode_i l s =
      if_both Good (xor_bool (channel l.heap ch).invite_only l.enable) _ _
        (λ e.
          IsFaithful-apply_flag ch u h l.enable b'i' (set_mode_invite_only l.enable) l
            (set_mode_invite_only-KeepsLists l.enable _) (λ rest. refl) s)
        (λ e. s)

  Good-mode_t : (l : ModeLoop) → Good l → Good (mode_t ch l)
  unfolding mode_t set_mode_topic_restriction
  Good-mode_t l s =
      if_both Good (xor_bool (channel l.heap ch).topic_by_op_only l.enable) _ _
        (λ e.
          IsFaithful-apply_flag ch u h l.enable b't' (set_mode_topic_restriction l.enable) l
            (set_mode_topic_restriction-KeepsLists l.enable _) (λ rest. refl) s)
        (λ e. s)

  Good-set_key : (key : Text) (l : ModeLoop) → Good l → Good (set_key ch u key l)
  unfolding set_key set_mode_key
  Good-set_key key l s =
      if_both Good (not (is_valid_key key)) _ _ (λ n. IsFaithful-tell ch u h _ l s)
        (λ v.
          if_both Good (not (is_empty (channel l.heap ch).key)) _ _
            (λ n. IsFaithful-tell ch u h _ l s)
            (λ e.
              IsFaithful-add_arg ch u h b'k' (set_mode_key true key) key l
                (set_mode_key-KeepsLists true key _ (ground (arith, v))) (λ rest. refl) s))

  Good-mode_k : (params : List Text) (l : ModeLoop) → Good l → Good (mode_k ch u params l)
  unfolding mode_k set_mode_key
  Good-mode_k params l s =
      if_both Good l.enable _ _ (λ e. with_param (get_elem? params l.param_index))
        (λ e.
          if_both Good (not (is_empty (channel l.heap ch).key)) _ _
            (λ k.
              IsFaithful-apply_flag ch u h false b'k' (set_mode_key false []) l
                (set_mode_key-KeepsLists false [] _ refl) (λ rest. refl) s)
            (λ k. s))
    where
      with_param :
          (o : Option Text)
          → Good (elim o [ none ↦ l | some key ↦ set_key ch u key (next_param l) ])
      with_param none = s
      with_param (some key) = Good-set_key key _ (IsFaithful-next_param ch u h l s)

  Good-set_limit : (raw : Text) (l : ModeLoop) → Good l → Good (set_limit ch u raw l)
  unfolding set_limit set_mode_user_limit
  Good-set_limit raw l s = elim (Option-cases (parse_limit raw)) [
    | inl e ↦ rw (e, set_limit) (IsFaithful-tell ch u h _ l s)
    | inr (n, e) ↦
        rw (e, set_limit)
          (IsFaithful-add_arg ch u h b'l' (set_mode_user_limit true n) raw l
            (set_mode_user_limit-KeepsLists true n _ (parse_limit-bounds raw n e).1)
            (λ rest. rw (atoi_from-parse_limit raw n e) refl) s)
  ]

  Good-mode_l : (params : List Text) (l : ModeLoop) → Good l → Good (mode_l ch u params l)
  unfolding mode_l set_mode_user_limit
  Good-mode_l params l s =
      if_both Good l.enable _ _ (λ e. with_param (get_elem? params l.param_index))
        (λ e.
          if_both Good (ltb 0 (channel l.heap ch).user_limit) _ _
            (λ k.
              IsFaithful-apply_flag ch u h false b'l' (set_mode_user_limit false 0) l
                (set_mode_user_limit-KeepsLists false 0 _ (omega arith)) (λ rest. refl) s)
            (λ k. s))
    where
      with_param :
          (o : Option Text)
          → Good (elim o [ none ↦ l | some raw ↦ set_limit ch u raw (next_param l) ])
      with_param none = s
      with_param (some raw) = Good-set_limit raw _ (IsFaithful-next_param ch u h l s)

  Good-mode_letter :
      (params : List Text) (mode : ℕ) (l : ModeLoop)
      → Good l
      → Good (mode_letter ch u params mode l)
  unfolding mode_letter
  Good-mode_letter params mode l s =
      if_both Good (mode == b'+') _ _ (λ e. IsFaithful-enable ch u h true l s)
        (λ e.
          if_both Good (mode == b'-') _ _ (λ e. IsFaithful-enable ch u h false l s)
            (λ e.
              if_both Good (mode == b'i') _ _ (λ e. Good-mode_i l s)
                (λ e.
                  if_both Good (mode == b't') _ _ (λ e. Good-mode_t l s)
                    (λ e.
                      if_both Good (mode == b'k') _ _ (λ e. Good-mode_k params l s)
                        (λ e.
                          if_both Good (mode == b'l') _ _ (λ e. Good-mode_l params l s)
                            (λ e. IsFaithful-tell ch u h _ l s))))))

  pub Good-mode_letters :
      (params : List Text) (modes : Text) (l : ModeLoop)
      → Good l
      → Good (mode_letters ch u params modes l)
  unfolding mode_letters
  Good-mode_letters params [] l s = s
  Good-mode_letters params (mode ∷ modes) l s =
      Good-mode_letters params modes _ (Good-mode_letter params mode l s)
