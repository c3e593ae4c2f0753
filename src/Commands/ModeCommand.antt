-- ===== src/Commands/ModeCommand.antt =====
-- common/commandlist/Mode.cpp: the mode letters are filtered, `o` is done at once, and the rest is
-- handed to the channel.
use ft_irc.Base.{
  ℕ, suc, Bool, true, false, ◌&&◌, ◌||◌, not, Option, none, some, List, [], ◌∷◌, ◌++◌, Text, codes,
  ◌==◌, leb, if◌then◌else◌, is_empty, get_elem?, push_back,
}
use ft_irc.Reply.Numeric.{
  err_needmoreparams, err_nosuchchannel, err_chanoprivsneeded, err_unknownmode,
  err_usernotinchannel,
}
use ft_irc.Channel.{is_operator}
use ft_irc.Heap.{channel}
use ft_irc.Handlers.Modes.{handle_mode, handle_mode_operator}
use ft_irc.Parse.Message.{Message}
use ft_irc.Server.{Server, on_heap, find_channel, find_client_by_nickname}
use ft_irc.Commands.Rooms.{complain}

-- The variables of the loop, and the server.
pub record Filter : Type 0 where
  pub param_index : ℕ
  pub param_mode_count : ℕ
  pub enable : Bool
  pub filtered_modes : Text
  pub filtered_params : List Text
  pub last_applied_sign : ℕ
  pub server : Server

abbrev pub start_filter : Server → Filter
start_filter s = record {
  param_index = 0;
  param_mode_count = 0;
  enable = true;
  filtered_modes = [];
  filtered_params = [];
  last_applied_sign = 0;
  server = s;
}

abbrev pub on_server : (Server → Server) → Filter → Filter
on_server f l = record l { server = f l.server }

-- `o`, which needs the server to find the client.
unfoldable pub filter_operator : ℕ → ℕ → Text → Filter → Filter
filter_operator ch c param l = elim (find_client_by_nickname l.server param) [
  | none ↦
      on_server
        (complain c err_usernotinchannel (
          param
          ++ codes " "
          ++ (channel l.server.heap ch).name
          ++ codes " :They aren't on that channel"))
        l
  | some target ↦ on_server (on_heap (handle_mode_operator ch l.enable target c)) l
]

-- The letter is kept, with its sign where that changed, and with its parameter.
unfoldable pub keep_letter : ℕ → Option Text → Filter → Filter
keep_letter mode param l =
    let sign : ℕ = if l.enable then b'+' else b'-' in
    let modes : Text =
      if not (sign == l.last_applied_sign)
      then push_back l.filtered_modes sign
      else l.filtered_modes in
    record l {
      filtered_modes = push_back modes mode;
      last_applied_sign = sign;
      filtered_params = elim param [
        | none ↦ l.filtered_params
        | some p ↦
            if l.enable && (mode == b'k' || mode == b'l')
            then push_back l.filtered_params p
            else l.filtered_params
      ];
    }

-- From the limit of three parameters on. `o` has a parameter here.
unfoldable pub filter_limited : ℕ → ℕ → ℕ → Option Text → Filter → Filter
filter_limited ch c mode param l =
    let counts = mode == b'o' || mode == b'k' || mode == b'l' in
    if counts && leb 3 l.param_mode_count
    then l
    else (let l' : Filter =
          if counts then record l { param_mode_count = suc l.param_mode_count } else l in
        if mode == b'o'
        then filter_operator ch c (elim param [ none ↦ [] | some p ↦ p ]) l'
        else keep_letter mode param l')

-- A letter that is known: its parameter is consumed, if it takes one.
unfoldable pub filter_known : ℕ → ℕ → List Text → ℕ → Filter → Filter
filter_known ch c mode_params mode l =
    let takes_param = mode == b'o' || mode == b'k' || (mode == b'l' && l.enable) in
    let requires_param = mode == b'o' || (l.enable && (mode == b'k' || mode == b'l')) in
    if takes_param
    then elim (get_elem? mode_params l.param_index) [
      | some param ↦
          filter_limited ch c mode (some param) (record l { param_index = suc l.param_index })
      | none ↦
          if requires_param
          then on_server (complain c err_needmoreparams (codes "MODE :Not enough parameters")) l
          else filter_limited ch c mode none l
    ]
    else filter_limited ch c mode none l

unfoldable pub is_known_mode : ℕ → Bool
is_known_mode c = c == b'o' || c == b'i' || c == b't' || c == b'k' || c == b'l'

-- One round of the loop.
unfoldable pub filter_letter : ℕ → ℕ → List Text → ℕ → Filter → Filter
filter_letter ch c mode_params mode l =
    if mode == b'+'
    then record l { enable = true }
    else if mode == b'-'
    then record l { enable = false }
    else if not (is_known_mode mode)
    then on_server
        (complain c err_unknownmode (
          (mode ∷ [])
          ++ codes " :is unknown mode char to me for "
          ++ (channel l.server.heap ch).name))
        l
    else filter_known ch c mode_params mode l

unfoldable pub filter_letters : ℕ → ℕ → List Text → Text → Filter → Filter
filter_letters ch c mode_params [] l = l
filter_letters ch c mode_params (mode ∷ modes) l =
    filter_letters ch c mode_params modes (filter_letter ch c mode_params mode l)

-- `if (!filteredModes.empty()) channel->handleMode(...)`
unfoldable pub hand_over : ℕ → ℕ → Filter → Server
hand_over ch c l =
    if not (is_empty l.filtered_modes)
    then on_heap (handle_mode ch c l.filtered_modes l.filtered_params) l.server
    else l.server

abbrev pub starts_with_sign : Text → Bool
starts_with_sign [] = true
starts_with_sign (m ∷ ms) = m == b'+' || m == b'-'

-- The channel is found, and the modes are not empty.
unfoldable pub change_modes : ℕ → ℕ → Text → List Text → Server → Server
change_modes ch c modes mode_params s =
    let room = channel s.heap ch in
    if not (is_operator room c)
    then complain c err_chanoprivsneeded (room.name ++ codes " :You're not channel operator") s
    else if not (starts_with_sign modes)
    then complain c err_unknownmode
        (elim modes [ [] ↦ [] | m ∷ ms ↦ m ∷ [] ]
          ++ codes " :is unknown mode char to me for "
          ++ room.name)
        s
    else hand_over ch c (filter_letters ch c mode_params modes (start_filter s))

unfoldable pub mode_on : ℕ → Text → Text → List Text → Server → Server
mode_on c name modes mode_params s = elim (find_channel s name) [
  | none ↦ complain c err_nosuchchannel (name ++ codes " :No such channel") s
  | some ch ↦
      if is_empty modes
      then on_heap (handle_mode ch c modes mode_params) s
      else change_modes ch c modes mode_params s
]

-- A user mode, on a name that starts like no channel, is ignored.
abbrev pub is_channel_prefix : Text → Bool
is_channel_prefix [] = false
is_channel_prefix (m ∷ ms) = m == b'#' || m == b'&'

unfoldable pub mode_params_of : ℕ → List Text → Server → Server
unfolding mode_on
mode_params_of c [] s = complain c err_needmoreparams (codes "MODE :Not enough parameters") s
mode_params_of c (name ∷ rest) s =
    if is_empty name
    then complain c err_needmoreparams (codes "MODE :Not enough parameters") s
    else if not (is_channel_prefix name)
    then s
    else elim rest [
      | [] ↦ mode_on c name [] [] s
      | modes ∷ mode_params ↦ mode_on c name modes mode_params s
    ]

unfoldable pub mode : ℕ → Message → Server → Server
unfolding mode_params_of
mode c msg = mode_params_of c msg.parameter
