-- ===== src/Room/Modes/Filtered.antt =====
-- The letters and parameters that common/commandlist/Mode.cpp hands on to handleMode.
use ft_irc.Room.Modes.Kept.{IsFitting, IsFitting-plain, IsFitting-with_param}
use ft_irc.Server.{find_client_by_nickname, Server}
use ft_irc.Commands.ModeCommand.{
  keep_letter, Filter, is_known_mode, filter_operator, filter_limited, filter_known, filter_letter,
  filter_letters, start_filter,
}
use ft_irc.Room.{Settings}
use ft_irc.Room.Modes.{begin, read_modes}
use ft_irc.Room.Modes.Signs.{reading_of}
use ft_irc.Base.{
  ◌==◌, not, Text, ℕ, ◌≡◌, Option, List, ◌++◌, if◌then◌else◌, [], ◌∷◌, arith, refl, Bool, true,
  false, ◌&&◌, ◌||◌, none, some, leb, Option-cases, if_both, suc, inl, inr, Bool-cases, get_elem?,
}

module _ (ch c : ℕ) where
  abbrev counted : Bool → Filter → Filter
  counted counts l = if counts then record l { param_mode_count = suc l.param_mode_count } else l

  enable-counted : (counts : Bool) (l : Filter) → (counted counts l).enable ≡ l.enable
  enable-counted true l = refl
  enable-counted false l = refl

  IsFitting-counted : (counts : Bool) (l : Filter) → IsFitting l → IsFitting (counted counts l)
  IsFitting-counted true l f = f
  IsFitting-counted false l f = f

  IsFitting-filter_operator :
      (param : Text) (l : Filter) → IsFitting l → IsFitting (filter_operator ch c param l)
  unfolding filter_operator
  IsFitting-filter_operator param l f =
      elim (Option-cases (find_client_by_nickname l.server param)) [
        | inl e ↦ rw (e, filter_operator) f
        | inr (target, e) ↦ rw (e, filter_operator) f
      ]

  -- What a letter hands on, from the limit of three parameters on.
  IsFitting-filter_limited :
      (mode : ℕ) (param : Option Text) (l : Filter)
      → ((l' : Filter)
          → l'.enable ≡ l.enable
          → mode == b'o' ≡ false
          → IsFitting l'
          → IsFitting (keep_letter mode param l'))
      → IsFitting l
      → IsFitting (filter_limited ch c mode param l)
  unfolding filter_limited
  IsFitting-filter_limited mode param l kept f =
      let counts : Bool = mode == b'o' || mode == b'k' || mode == b'l' in
      if_both IsFitting (counts && leb 3 l.param_mode_count) _ _ (λ e. f)
        (λ e.
          let f' = IsFitting-counted counts l f in
          if_both IsFitting (mode == b'o') _ _ (λ o. IsFitting-filter_operator _ _ f')
            (λ o. kept (counted counts l) (enable-counted counts l) o f'))

  -- A letter that asks for no parameter, and one that may have one.
  IsFitting-without :
      (mode : ℕ) (param : Option Text) (l : Filter)
      → is_known_mode mode ≡ true
      → l.enable && (mode == b'k' || mode == b'l') ≡ false
      → IsFitting l
      → IsFitting (filter_limited ch c mode param l)
  IsFitting-without mode param l known e =
      IsFitting-filter_limited mode param l
        (λ l' same o. IsFitting-plain mode param l' known o (rw same e))

  IsFitting-with :
      (mode : ℕ) (p : Text) (l : Filter)
      → is_known_mode mode ≡ true
      → IsFitting l
      → IsFitting (filter_limited ch c mode (some p) l)
  IsFitting-with mode p l known f = elim (Bool-cases (l.enable && (mode == b'k' || mode == b'l'))) [
    | inl e ↦
        IsFitting-filter_limited mode (some p) l
          (λ l' same o. IsFitting-with_param mode p l' (rw same e)) f
    | inr e ↦ IsFitting-without mode (some p) l known e f
  ]

  IsFitting-filter_known :
      (params : List Text) (mode : ℕ) (l : Filter)
      → is_known_mode mode ≡ true
      → IsFitting l
      → IsFitting (filter_known ch c params mode l)
  unfolding filter_known
  IsFitting-filter_known params mode l known f =
      if_both IsFitting (mode == b'o' || mode == b'k' || (mode == b'l' && l.enable)) _ _
        (λ e. elim (Option-cases (get_elem? params l.param_index)) [
          | inl g ↦
              rw (g, filter_known)
                (if_both IsFitting (mode == b'o' || (l.enable && (mode == b'k' || mode == b'l'))) _
                  _ (λ e. f) (λ e. IsFitting-without mode none l known (ground (arith, e)) f))
          | inr (p, g) ↦
              rw (g, filter_known)
                (IsFitting-with mode p (record l { param_index = suc l.param_index }) known f)
        ])
        (λ e. IsFitting-without mode none l known (ground (arith, e)) f)

  IsFitting-filter_letter :
      (params : List Text) (mode : ℕ) (l : Filter)
      → IsFitting l
      → IsFitting (filter_letter ch c params mode l)
  unfolding filter_letter
  IsFitting-filter_letter params mode l f =
      if_both IsFitting (mode == b'+') _ _ (λ e. f)
        (λ e.
          if_both IsFitting (mode == b'-') _ _ (λ e. f)
            (λ e.
              if_both IsFitting (not (is_known_mode mode)) _ _ (λ e. f)
                (λ e. IsFitting-filter_known params mode l (ground (arith, e)) f)))

  IsFitting-filter_letters :
      (params : List Text) (modes : Text) (l : Filter)
      → IsFitting l
      → IsFitting (filter_letters ch c params modes l)
  unfolding filter_letters
  IsFitting-filter_letters params [] l f = f
  IsFitting-filter_letters params (mode ∷ modes) l f =
      IsFitting-filter_letters params modes _ (IsFitting-filter_letter params mode l f)

  -- The letters and parameters that MODE hands on to the channel fit each other: a client that
  -- reads these letters, with these parameters and any others behind them, from any settings,
  -- takes exactly these parameters and leaves the others, and ends with the sign that was kept
  -- last.
  pub filter_letters-fits :
      (mode_params : List Text) (modes : Text) (s : Server) (more : List Text) (before : Settings)
      → let l : Filter = filter_letters ch c mode_params modes (start_filter s) in
        (after : Settings) × (read_modes l.filtered_modes (begin (l.filtered_params ++ more) before)
          ≡ reading_of (not (l.last_applied_sign == b'-')) more after)
  filter_letters-fits mode_params modes s more before =
      let (after, reads) =
        IsFitting-filter_letters mode_params modes (start_filter s)
          (λ s'. (s', λ more. unfold read_modes in refl)) before in
      (after, reads more)
