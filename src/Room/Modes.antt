-- ===== src/Room/Modes.antt =====
-- The modes of a channel as a client reads them off a MODE line: letters behind signs, and a
-- parameter for each `+k` and `+l`.
pub mod Signs
pub mod Reader
pub mod Letters
pub mod Announced
pub mod Shown
pub mod Kept
pub mod Filtered
use ft_irc.Base.{ℕ, Bool, true, false, List, [], ◌∷◌, ◌++◌, Text, codes, ◌==◌, if◌then◌else◌}
use ft_irc.Channel.{Channel, atoi_from}
use ft_irc.Room.{Settings, room_of}

abbrev pub settings_of : Channel → Settings
settings_of c = (room_of c).settings

-- Whether the last sign was a plus, the parameters still to come, and the settings so far.
pub record Reading : Type 0 where
  pub adding : Bool
  pub rest : List Text
  pub settings : Settings

abbrev pub begin : List Text → Settings → Reading
begin params s = record { adding = true; rest = params; settings = s }

abbrev pub with_key : Text → Reading → Reading
with_key key r = record r { settings = record r.settings { key = key } }

abbrev pub with_limit : ℕ → Reading → Reading
with_limit limit r = record r { settings = record r.settings { user_limit = limit } }

abbrev pub read_key : Reading → List Text → Reading
read_key r [] = r
read_key r (key ∷ rest) = with_key key (record r { rest = rest })

abbrev pub read_limit : Reading → List Text → Reading
read_limit r [] = r
read_limit r (digits ∷ rest) = with_limit (atoi_from 0 digits) (record r { rest = rest })

abbrev pub read_letter : ℕ → Reading → Reading
read_letter letter r =
    if letter == b'+'
    then record r { adding = true }
    else if letter == b'-'
    then record r { adding = false }
    else if letter == b'i'
    then record r { settings = record r.settings { invite_only = r.adding } }
    else if letter == b't'
    then record r { settings = record r.settings { topic_by_op_only = r.adding } }
    else if letter == b'k'
    then (if r.adding then read_key r r.rest else with_key [] r)
    else if letter == b'l'
    then (if r.adding then read_limit r r.rest else with_limit 0 r)
    else r

unfoldable pub read_modes : Text → Reading → Reading
read_modes [] r = r
read_modes (letter ∷ letters) r = read_modes letters (read_letter letter r)

-- The parameters as they stand behind the letters.
abbrev pub spaced : List Text → Text
spaced [] = []
spaced (a ∷ more) = codes " " ++ a ++ spaced more
