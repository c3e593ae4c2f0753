-- ===== src/Commands/Params.antt =====
-- How many parameters one MODE hands on: the limit in common/commandlist/Mode.cpp.
use ft_irc.Server.{find_client_by_nickname, Server}
use ft_irc.Base.{
  leb, ◌==◌, if◌then◌else◌, Option-cases, length, length-append, Text, ℕ, suc, ◌≤◌, ◌≡◌, refl, inl,
  inr, false, ◌||◌, Option, none, some, [], ◌∷◌, arith, not, if_both, get_elem?, ◌+◌, Bool, true,
  ◌&&◌, List,
}
use ft_irc.Commands.ModeCommand.{
  Filter, filter_operator, keep_letter, start_filter, filter_limited, filter_known, is_known_mode,
  filter_letter, filter_letters,
}

-- No more parameters are kept than are counted, and three are counted at most.
pub record IsLimited (l : Filter) : Type 0 where
  pub counted : length l.filtered_params ≤ l.param_mode_count
  pub limited : l.param_mode_count ≤ 3

module _ (ch c : ℕ) where
  IsLimited-same :
      (l l' : Filter)
      → l'.filtered_params ≡ l.filtered_params
      → l'.param_mode_count ≡ l.param_mode_count
      → IsLimited l
      → IsLimited l'
  IsLimited-same l l' params count v = record {
    counted = rw (params, count) v.counted;
    limited = rw count v.limited;
  }

  IsLimited-filter_operator :
      (param : Text) (l : Filter) → IsLimited l → IsLimited (filter_operator ch c param l)
  unfolding filter_operator
  IsLimited-filter_operator param l v =
      elim (Option-cases (find_client_by_nickname l.server param)) [
        | inl e ↦ rw (e, filter_operator) (IsLimited-same l _ refl refl v)
        | inr (target, e) ↦ rw (e, filter_operator) (IsLimited-same l _ refl refl v)
      ]

  -- A letter that is counted has room for its parameter, and another one hands on none.
  params-keep_letter :
      (mode : ℕ) (param : Option Text) (l : Filter)
      → length (keep_letter mode param l).filtered_params ≤ (
          if mode == b'k' || mode == b'l'
          then suc (length l.filtered_params)
          else length l.filtered_params)
  unfolding keep_letter
  params-keep_letter mode none l = ground arith
  params-keep_letter mode (some p) l = ground (arith, length-append l.filtered_params (p ∷ []))

  count-keep_letter :
      (mode : ℕ) (param : Option Text) (l : Filter)
      → (keep_letter mode param l).param_mode_count ≡ l.param_mode_count
  unfolding keep_letter
  count-keep_letter mode param l = refl

  -- Room for the parameter of a letter that is counted.
  counted_in : Bool → Filter → Filter
  counted_in counts l = if counts then record l { param_mode_count = suc l.param_mode_count } else l

  IsLimited-counted_in :
      (counts : Bool) (l : Filter)
      → IsLimited l
      → counts && leb 3 l.param_mode_count ≡ false
      → IsLimited (counted_in counts l)
        × (length (counted_in counts l).filtered_params + (if counts then 1 else 0)
            ≤ (counted_in counts l).param_mode_count)
  unfolding counted_in
  IsLimited-counted_in true l v e = (
    record { counted = ground (arith, v.counted); limited = ground (arith, e) },
    ground (arith, v.counted),
  )
  IsLimited-counted_in false l v e = (v, ground (arith, v.counted))

  IsLimited-filter_limited :
      (mode : ℕ) (param : Option Text) (l : Filter)
      → IsLimited l
      → IsLimited (filter_limited ch c mode param l)
  unfolding filter_limited
  IsLimited-filter_limited mode param l v =
      let counts : Bool = mode == b'o' || mode == b'k' || mode == b'l' in
      if_both IsLimited (counts && leb 3 l.param_mode_count) _ _ (λ e. v)
        (λ e.
          let (v', room) = IsLimited-counted_in counts l v e in
          unfold counted_in in
          if_both IsLimited (mode == b'o') _ _ (λ o. IsLimited-filter_operator _ _ v')
            (λ o. kept (counted_in counts l) v' room))
    where
      kept :
          (l' : Filter)
          → IsLimited l'
          → length l'.filtered_params
              + (if mode == b'o' || mode == b'k' || mode == b'l' then 1 else 0)
            ≤ l'.param_mode_count
          → IsLimited (keep_letter mode param l')
      kept l' v' room = record {
        counted =
            rw (count-keep_letter mode param l')
              (ground (arith, params-keep_letter mode param l', room));
        limited = rw (count-keep_letter mode param l') v'.limited;
      }

  IsLimited-filter_known :
      (params : List Text) (mode : ℕ) (l : Filter)
      → IsLimited l
      → IsLimited (filter_known ch c params mode l)
  unfolding filter_known
  IsLimited-filter_known params mode l v =
      if_both IsLimited (mode == b'o' || mode == b'k' || (mode == b'l' && l.enable)) _ _
        (λ e. elim (Option-cases (get_elem? params l.param_index)) [
          | inl g ↦
              rw (g, filter_known)
                (if_both IsLimited (mode == b'o' || (l.enable && (mode == b'k' || mode == b'l'))) _
                  _ (λ e. IsLimited-same l _ refl refl v)
                  (λ e. IsLimited-filter_limited mode none l v))
          | inr (p, g) ↦
              rw (g, filter_known)
                (IsLimited-filter_limited mode (some p) _ (IsLimited-same l _ refl refl v))
        ])
        (λ e. IsLimited-filter_limited mode none l v)

  IsLimited-filter_letter :
      (params : List Text) (mode : ℕ) (l : Filter)
      → IsLimited l
      → IsLimited (filter_letter ch c params mode l)
  unfolding filter_letter
  IsLimited-filter_letter params mode l v =
      if_both IsLimited (mode == b'+') _ _ (λ e. IsLimited-same l _ refl refl v)
        (λ e.
          if_both IsLimited (mode == b'-') _ _ (λ e. IsLimited-same l _ refl refl v)
            (λ e.
              if_both IsLimited (not (is_known_mode mode)) _ _ (λ e. IsLimited-same l _ refl refl v)
                (λ e. IsLimited-filter_known params mode l v)))

  IsLimited-filter_letters :
      (params : List Text) (modes : Text) (l : Filter)
      → IsLimited l
      → IsLimited (filter_letters ch c params modes l)
  unfolding filter_letters
  IsLimited-filter_letters params [] l v = v
  IsLimited-filter_letters params (mode ∷ modes) l v =
      IsLimited-filter_letters params modes _ (IsLimited-filter_letter params mode l v)

  -- Whatever the letters and parameters of a MODE command are, at most three parameters are
  -- handed on to the channel.
  pub length-filter_letters :
      (params : List Text) (modes : Text) (s : Server)
      → length (filter_letters ch c params modes (start_filter s)).filtered_params ≤ 3
  length-filter_letters params modes s =
      let v = IsLimited-filter_letters params modes (start_filter s) (omega arith) in
      omega (arith, v.counted, v.limited)
