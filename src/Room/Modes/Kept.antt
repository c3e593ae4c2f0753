-- ===== src/Room/Modes/Kept.antt =====
-- A letter that the loop of common/commandlist/Mode.cpp keeps, as a client reads it.
use ft_irc.Channel.{append_applied, atoi_from}
use ft_irc.Commands.ModeCommand.{keep_letter, Filter, is_known_mode}
use ft_irc.Room.{Settings}
use ft_irc.Room.Modes.{begin, read_letter, read_modes}
use ft_irc.Room.Modes.Signs.{reading_of, reads-append_applied}
use ft_irc.Base.{
  ◌==◌, not, Text, ℕ, ◌≡◌, Option, List, ◌++◌, if◌then◌else◌, ==_iff, [], ◌∷◌, append_assoc, arith,
  refl, sym, Bool, true, false, ◌&&◌, ◌||◌, none, some, append-nil,
}

-- A client that reads the letters takes just the parameters that are handed on with them.
abbrev pub IsFitting : Filter → Type 0
IsFitting l =
    (s : Settings)
    → (s' : Settings) × ((more : List Text)
        → read_modes l.filtered_modes (begin (l.filtered_params ++ more) s)
          ≡ reading_of (not (l.last_applied_sign == b'-')) more s')

modes-keep_letter :
    (mode : ℕ) (param : Option Text) (l : Filter)
    → let t : Text × ℕ = append_applied l.filtered_modes l.last_applied_sign l.enable mode in
      ((keep_letter mode param l).filtered_modes ≡ t.0)
      × ((keep_letter mode param l).last_applied_sign ≡ t.1)
unfolding keep_letter append_applied
modes-keep_letter mode param l =
    let sign : ℕ = if l.enable then b'+' else b'-' in
    (
      ground (arith, append_assoc l.filtered_modes (sign ∷ []) (mode ∷ [])),
      ground (arith, ==_iff sign l.last_applied_sign),
    )

reads-keep_letter :
    (mode : ℕ) (param : Option Text) (l : Filter) (taken more : List Text) (s s' s'' : Settings)
    → read_modes l.filtered_modes (begin (l.filtered_params ++ taken ++ more) s)
      ≡ reading_of (not (l.last_applied_sign == b'-')) (taken ++ more) s'
    → read_letter mode (reading_of l.enable (taken ++ more) s') ≡ reading_of l.enable more s''
    → (keep_letter mode param l).filtered_params ≡ l.filtered_params ++ taken
    → read_modes
        (keep_letter mode param l).filtered_modes
        (begin ((keep_letter mode param l).filtered_params ++ more) s)
      ≡ reading_of (not ((keep_letter mode param l).last_applied_sign == b'-')) more s''
reads-keep_letter mode param l taken more s s' s'' before one params =
    let (letters, sign) = modes-keep_letter mode param l in
    rw (letters, sign, params)
      (reads-append_applied l.filtered_modes l.last_applied_sign l.enable mode _ (taken ++ more)
        more s' s'' before one)

IsFitting-keep_letter :
    (mode : ℕ) (param : Option Text) (taken : List Text) (change : Settings → Settings) (l : Filter)
    → (keep_letter mode param l).filtered_params ≡ l.filtered_params ++ taken
    → ((more : List Text) (s : Settings)
        → read_letter mode (reading_of l.enable (taken ++ more) s)
          ≡ reading_of l.enable more (change s))
    → IsFitting l
    → IsFitting (keep_letter mode param l)
IsFitting-keep_letter mode param taken change l params one f s =
    let (s', reads) = f s in
    (
      change s',
      λ more.
          reads-keep_letter mode param l taken more s s' (change s')
            (rw (append_assoc l.filtered_params taken more) (reads (taken ++ more))) (one more s')
            params,
    )

-- A letter that hands on no parameter, and one that hands on its own.
params_none :
    (mode : ℕ) (param : Option Text) (l : Filter)
    → l.enable && (mode == b'k' || mode == b'l') ≡ false
    → (keep_letter mode param l).filtered_params ≡ l.filtered_params ++ []
unfolding keep_letter
params_none mode none l e = sym (append-nil l.filtered_params)
params_none mode (some p) l e = rw e (sym (append-nil l.filtered_params))

params_some :
    (mode : ℕ) (p : Text) (l : Filter)
    → l.enable && (mode == b'k' || mode == b'l') ≡ true
    → (keep_letter mode (some p) l).filtered_params ≡ l.filtered_params ++ p ∷ []
unfolding keep_letter
params_some mode p l e = rw e refl

-- The settings that a letter without a parameter makes.
abbrev settled : ℕ → Bool → Settings → Settings
settled mode enable s =
    if mode == b'i'
    then record s { invite_only = enable }
    else if mode == b't'
    then record s { topic_by_op_only = enable }
    else if mode == b'k'
    then record s { key = [] }
    else record s { user_limit = 0 }

pub IsFitting-plain :
    (mode : ℕ) (param : Option Text) (l : Filter)
    → is_known_mode mode ≡ true
    → mode == b'o' ≡ false
    → l.enable && (mode == b'k' || mode == b'l') ≡ false
    → IsFitting l
    → IsFitting (keep_letter mode param l)
unfolding is_known_mode
IsFitting-plain mode param l known n e =
    IsFitting-keep_letter mode param [] (settled mode l.enable) l (params_none mode param l e)
      (λ more s. ground (arith, known, n, e))

abbrev given : ℕ → Text → Settings → Settings
given mode p s =
    if mode == b'k' then record s { key = p } else record s { user_limit = atoi_from 0 p }

pub IsFitting-with_param :
    (mode : ℕ) (p : Text) (l : Filter)
    → l.enable && (mode == b'k' || mode == b'l') ≡ true
    → IsFitting l
    → IsFitting (keep_letter mode (some p) l)
IsFitting-with_param mode p l e =
    IsFitting-keep_letter mode (some p) (p ∷ []) (given mode p) l (params_some mode p l e)
      (λ more s. ground (arith, e))
