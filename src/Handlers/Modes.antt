-- ===== src/Handlers/Modes.antt =====
-- `handleMode` and `handleModeOperator` of channel/Channel.cpp.
use ft_irc.Base.{
  ℕ, suc, Bool, true, false, not, none, some, List, [], ◌∷◌, ◌++◌, Text, codes, ltb, ◌==◌,
  if◌then◌else◌, is_empty, get_elem?, ◌▷◌, xor_bool,
}
use ft_irc.Reply.Numeric.{
  rpl_channelmodeis, err_notonchannel, err_chanoprivsneeded, err_invalidkey, err_keyset,
  err_invalidmodeparam, err_unknownmode, err_usernotinchannel,
}
use ft_irc.Channel.{
  Channel, is_member, is_operator, build_mode_string, append_applied, parse_limit, is_valid_key,
  set_mode_invite_only, set_mode_topic_restriction, set_mode_key, set_mode_operator,
  set_mode_user_limit,
}
use ft_irc.Heap.{Heap, client, channel, on_channel, send_to_one, send_to_all}
use ft_irc.Handlers.Member.{reply_to, command_of}

-- The variables of the loop over the mode letters, and the heap.
pub record ModeLoop : Type 0 where
  pub enable : Bool
  pub param_index : ℕ
  pub applied : Text
  pub applied_args : Text
  pub last_sign : ℕ
  pub heap : Heap

-- `appendApplied(applied, lastSign, enable, flag)` behind a change of the channel.
abbrev pub apply_flag : ℕ → Bool → ℕ → (Channel → Channel) → ModeLoop → ModeLoop
apply_flag ch enable flag change l =
    let (applied, sign) = append_applied l.applied l.last_sign enable flag in
    record l { applied = applied; last_sign = sign; heap = on_channel ch change l.heap }

abbrev pub add_arg : Text → ModeLoop → ModeLoop
add_arg arg l = record l { applied_args = l.applied_args ++ codes " " ++ arg }

abbrev pub next_param : ModeLoop → ModeLoop
next_param l = record l { param_index = suc l.param_index }

abbrev pub tell : ℕ → Text → ModeLoop → ModeLoop
tell user message l = record l { heap = send_to_one user message l.heap }

-- case 'i' and case 't'
unfoldable pub mode_i : ℕ → ModeLoop → ModeLoop
mode_i ch l =
    if xor_bool (channel l.heap ch).invite_only l.enable
    then apply_flag ch l.enable b'i' (set_mode_invite_only l.enable) l
    else l

unfoldable pub mode_t : ℕ → ModeLoop → ModeLoop
mode_t ch l =
    if xor_bool (channel l.heap ch).topic_by_op_only l.enable
    then apply_flag ch l.enable b't' (set_mode_topic_restriction l.enable) l
    else l

-- case 'k' with a parameter at hand
unfoldable pub set_key : ℕ → ℕ → Text → ModeLoop → ModeLoop
set_key ch user new_key l =
    let c = channel l.heap ch in
    if not (is_valid_key new_key)
    then tell user
        (reply_to l.heap user err_invalidkey (c.name ++ codes " :Key is not well-formed")) l
    else if not (is_empty c.key)
    then tell user (reply_to l.heap user err_keyset (c.name ++ codes " :Channel key already set")) l
    else apply_flag ch true b'k' (set_mode_key true new_key) l ▷ add_arg new_key

unfoldable pub mode_k : ℕ → ℕ → List Text → ModeLoop → ModeLoop
mode_k ch user mode_params l =
    if l.enable
    then elim (get_elem? mode_params l.param_index) [
      | none ↦ l
      | some new_key ↦ set_key ch user new_key (next_param l)
    ]
    else if not (is_empty (channel l.heap ch).key)
    then apply_flag ch false b'k' (set_mode_key false []) l
    else l

-- case 'l' with a parameter at hand
unfoldable pub set_limit : ℕ → ℕ → Text → ModeLoop → ModeLoop
set_limit ch user raw l = elim (parse_limit raw) [
  | none ↦
      tell user
        (reply_to l.heap user err_invalidmodeparam
          ((channel l.heap ch).name ++ codes " l " ++ raw ++ codes " :Invalid limit value"))
        l
  | some limit ↦ apply_flag ch true b'l' (set_mode_user_limit true limit) l ▷ add_arg raw
]

unfoldable pub mode_l : ℕ → ℕ → List Text → ModeLoop → ModeLoop
mode_l ch user mode_params l =
    if l.enable
    then elim (get_elem? mode_params l.param_index) [
      | none ↦ l
      | some raw ↦ set_limit ch user raw (next_param l)
    ]
    else if ltb 0 (channel l.heap ch).user_limit
    then apply_flag ch false b'l' (set_mode_user_limit false 0) l
    else l

-- One round of the loop.
unfoldable pub mode_letter : ℕ → ℕ → List Text → ℕ → ModeLoop → ModeLoop
mode_letter ch user mode_params mode l =
    if mode == b'+'
    then record l { enable = true }
    else if mode == b'-'
    then record l { enable = false }
    else if mode == b'i'
    then mode_i ch l
    else if mode == b't'
    then mode_t ch l
    else if mode == b'k'
    then mode_k ch user mode_params l
    else if mode == b'l'
    then mode_l ch user mode_params l
    else tell user
        (reply_to l.heap user err_unknownmode
          ((mode ∷ []) ++ codes " :is unknown mode char to me for " ++ (channel l.heap ch).name))
        l

unfoldable pub mode_letters : ℕ → ℕ → List Text → Text → ModeLoop → ModeLoop
mode_letters ch user mode_params [] l = l
mode_letters ch user mode_params (mode ∷ modes) l =
    mode_letters ch user mode_params modes (mode_letter ch user mode_params mode l)

abbrev pub start_modes : Heap → ModeLoop
start_modes h = record {
  enable = true;
  param_index = 0;
  applied = [];
  applied_args = [];
  last_sign = 0;
  heap = h;
}

-- `if (!applied.empty()) sendToAll(...)`
unfoldable pub announce : ℕ → ℕ → ModeLoop → Heap
announce ch user l =
    if not (is_empty l.applied)
    then send_to_all ch
        (command_of l.heap user (codes "MODE")
          ((channel l.heap ch).name ++ codes " " ++ l.applied ++ l.applied_args))
        l.heap
    else l.heap

unfoldable pub handle_mode : ℕ → ℕ → Text → List Text → Heap → Heap
handle_mode ch user modes mode_params h =
    let c = channel h ch in
    if is_empty modes
    then if not (is_member c user)
      then send_to_one user
          (reply_to h user err_notonchannel (c.name ++ codes " :You're not on that channel")) h
      else send_to_one user
          (reply_to h user rpl_channelmodeis (c.name ++ codes " " ++ build_mode_string c)) h
    else if not (is_operator c user)
    then send_to_one user
        (reply_to h user err_chanoprivsneeded (c.name ++ codes " :You're not channel operator")) h
    else announce ch user (mode_letters ch user mode_params modes (start_modes h))

unfoldable pub handle_mode_operator : ℕ → Bool → ℕ → ℕ → Heap → Heap
handle_mode_operator ch enable target user h =
    let c = channel h ch in
    if not (is_member c target)
    then send_to_one user
        (reply_to h user err_usernotinchannel (
          (client h target).nickname
          ++ codes " "
          ++ c.name
          ++ codes " :They aren't on that channel"))
        h
    else if not (is_operator c user)
    then send_to_one user
        (reply_to h user err_chanoprivsneeded (c.name ++ codes " :You're not channel operator")) h
    else if not (xor_bool (is_operator c target) enable)
    then h
    else on_channel ch (set_mode_operator enable target) h
      ▷ send_to_all ch (
          command_of h user (codes "MODE") (
            c.name
            ++ codes " "
            ++ (if enable then codes "+o" else codes "-o")
            ++ codes " "
            ++ (client h target).nickname))
