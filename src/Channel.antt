-- ===== src/Channel.antt =====
-- channel/Channel.hpp and the parts of channel/Channel.cpp that concern one channel alone. A
-- `Client *` is an address. The handlers, which reach the clients too, are in Handlers.antt.
pub mod Limits
pub mod Decimal
use ft_irc.Base.{
  ℕ, ◌+◌, ◌-◌, ◌*◌, Bool, true, false, ◌&&◌, ◌||◌, not, Option, none, some, List, [], ◌∷◌, ◌++◌,
  Text, codes, decimal, text_eq, ◌==◌, leb, ltb, if◌then◌else◌, push_back, remove, contains,
  is_empty, length,
}

-- The user limit is 0 or what `parseLimit` accepted, so never negative.
pub record Channel : Type 0 where
  pub name : Text
  pub topic : Text
  pub key : Text
  pub user_limit : ℕ
  pub members : List ℕ
  pub operators : List ℕ
  pub invited_users : List ℕ
  pub invite_only : Bool
  pub topic_by_op_only : Bool

-- `Channel(const std::string &name)`
unfoldable pub new_channel : Text → Channel
new_channel name = record {
  name = name;
  topic = [];
  key = [];
  user_limit = 0;
  members = [];
  operators = [];
  invited_users = [];
  invite_only = false;
  topic_by_op_only = false;
}

unfoldable pub check_key : Channel → Text → Bool
check_key c key = text_eq c.key key

unfoldable pub is_full : Channel → Bool
is_full c = if leb c.user_limit 0 then false else leb c.user_limit (length c.members)

abbrev pub is_invited : Channel → ℕ → Bool
is_invited c client = contains c.invited_users client

abbrev pub is_member : Channel → ℕ → Bool
is_member c client = contains c.members client

abbrev pub is_operator : Channel → ℕ → Bool
is_operator c client = contains c.operators client

unfoldable pub is_channel_empty : Channel → Bool
is_channel_empty c = is_empty c.members

unfoldable pub remove_member_from_invited_users : ℕ → Channel → Channel
remove_member_from_invited_users client c = record c {
  invited_users = remove client c.invited_users;
}

unfoldable pub add_operator : ℕ → Channel → Channel
add_operator client c =
    if not (is_operator c client) then record c { operators = push_back c.operators client } else c

unfoldable pub remove_operator : ℕ → Channel → Channel
remove_operator client c = record c { operators = remove client c.operators }

unfoldable pub set_mode_invite_only : Bool → Channel → Channel
set_mode_invite_only enable c = record c { invite_only = enable }

unfoldable pub set_mode_topic_restriction : Bool → Channel → Channel
set_mode_topic_restriction enable c = record c { topic_by_op_only = enable }

unfoldable pub set_mode_key : Bool → Text → Channel → Channel
set_mode_key enable key c = if enable then record c { key = key } else record c { key = [] }

unfoldable pub set_mode_operator : Bool → ℕ → Channel → Channel
set_mode_operator enable user c =
    if enable
    then if is_operator c user then c else record c { operators = push_back c.operators user }
    else if not (is_operator c user)
    then c
    else record c { operators = remove user c.operators }

unfoldable pub set_mode_user_limit : Bool → ℕ → Channel → Channel
set_mode_user_limit enable user_limit c =
    if enable then record c { user_limit = user_limit } else record c { user_limit = 0 }

unfoldable pub build_mode_string : Channel → Text
build_mode_string c =
    let modes : Text =
      codes "+"
      ++ (if c.invite_only then codes "i" else [])
      ++ (if c.topic_by_op_only then codes "t" else [])
      ++ (if not (is_empty c.key) then codes "k" else [])
      ++ (if ltb 0 c.user_limit then codes "l" else []) in
    let params : Text =
      (if not (is_empty c.key) then codes " " ++ c.key else [])
      ++ (if ltb 0 c.user_limit then codes " " ++ decimal c.user_limit else []) in
    modes ++ params

unfoldable pub is_digit : ℕ → Bool
is_digit c = not (ltb c b'0' || ltb b'9' c)

unfoldable pub all_digits : Text → Bool
all_digits [] = true
all_digits (c ∷ s) = is_digit c && all_digits s

-- `std::atoi` on a text of digits, which is all that it is called on.
unfoldable pub atoi_from : ℕ → Text → ℕ
atoi_from n [] = n
atoi_from n (c ∷ s) = atoi_from (n * 10 + (c - b'0')) s

-- `some` of the limit where the source returns true and writes `out`.
unfoldable pub parse_limit : Text → Option ℕ
unfolding atoi_from
parse_limit str =
    if is_empty str || ltb 9 (length str)
    then none
    else if not (all_digits str)
    then none
    else let out = atoi_from 0 str in if ltb 0 out then some out else none

unfoldable pub key_char : ℕ → Bool
key_char c = not (leb c b' ' || c == 0x7f || c == b',')

unfoldable pub all_key_chars : Text → Bool
unfolding key_char
all_key_chars [] = true
all_key_chars (c ∷ s) = key_char c && all_key_chars s

unfoldable pub is_valid_key : Text → Bool
is_valid_key key = if is_empty key || ltb 42 (length key) then false else all_key_chars key

-- The text built so far and the last sign, after `appendApplied`.
unfoldable pub append_applied : Text → ℕ → Bool → ℕ → Text × ℕ
append_applied applied last_sign enable flag =
    let sign : ℕ = if enable then b'+' else b'-' in
    if not (sign == last_sign)
    then (applied ++ sign ∷ flag ∷ [], sign)
    else (applied ++ flag ∷ [], last_sign)
