-- ===== src/Room.antt =====
-- A channel as a room: who is in it, who runs it and who is invited are sets, in no order, and
-- what the commands of channel/Channel.cpp do to a room is said without messages, pointers or
-- branches of refusal.
pub mod Refine
pub mod Enter
pub mod Requests
pub mod Modes
use ft_irc.Base.{
  ℕ, ◌-◌, suc, ◌==◌, Bool, ◌&&◌, ◌||◌, not, Text, text_eq, is_empty, ltb, contains, if◌then◌else◌,
  length,
}
use ft_irc.Channel.{Channel}

abbrev pub Crowd : Type 0
Crowd = ℕ → Bool

abbrev pub with_one : ℕ → Crowd → Crowd
with_one u ps = λ p. ps p || u == p

abbrev pub without_one : ℕ → Crowd → Crowd
without_one u ps = λ p. ps p && not (u == p)

pub record Settings : Type 0 where
  pub name : Text
  pub topic : Text
  pub key : Text
  pub user_limit : ℕ
  pub invite_only : Bool
  pub topic_by_op_only : Bool

pub record Room : Type 0 where
  pub settings : Settings
  pub size : ℕ
  pub members : Crowd
  pub operators : Crowd
  pub invited : Crowd

-- The room that a channel stands for.
abbrev pub room_of : Channel → Room
room_of c = record {
  settings = record {
    name = c.name;
    topic = c.topic;
    key = c.key;
    user_limit = c.user_limit;
    invite_only = c.invite_only;
    topic_by_op_only = c.topic_by_op_only;
  };
  size = length c.members;
  members = λ p. contains c.members p;
  operators = λ p. contains c.operators p;
  invited = λ p. contains c.invited_users p;
}

-- Whom the key, the invitation and the limit let in.
abbrev pub admits : ℕ → Text → Room → Bool
admits u key r =
    (is_empty r.settings.key || text_eq r.settings.key key)
    && (not r.settings.invite_only || r.invited u)
    && (r.settings.user_limit == 0 || ltb r.size r.settings.user_limit)

-- Who comes first runs the room, and an invitation is good for one entry.
abbrev pub join : ℕ → Text → Room → Room
join u key r =
    if not (r.members u) && admits u key r
    then record r {
      size = suc r.size;
      members = with_one u r.members;
      operators = if r.size == 0 then with_one u r.operators else r.operators;
      invited = without_one u r.invited;
    }
    else r

abbrev pub leave : ℕ → Room → Room
leave u r =
    if r.members u
    then record r {
      size = r.size - 1;
      members = without_one u r.members;
      operators = without_one u r.operators;
    }
    else r

abbrev pub expel : ℕ → ℕ → Room → Room
expel by u r = if r.members by && r.operators by then leave u r else r

abbrev pub invite : ℕ → ℕ → Room → Room
invite by u r =
    if r.members by && (not r.settings.invite_only || r.operators by) && not (r.members u)
    then record r { invited = with_one u r.invited }
    else r
