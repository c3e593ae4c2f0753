-- ===== src/Links/Flags.antt =====
-- The changes of the flags, the key and the limit in channel/Channel.cpp.
use ft_irc.Channel.{
  set_mode_invite_only, set_mode_topic_restriction, set_mode_key, set_mode_user_limit, is_valid_key,
  Channel,
}
use ft_irc.Base.{is_empty, Text, ℕ, ◌<◌, ◌≡◌, Bool, true, ◌||◌, arith}
use ft_irc.Links.Settings.{KeepsLists}

pub set_mode_invite_only-KeepsLists :
    (enable : Bool) (c : Channel) → KeepsLists (set_mode_invite_only enable) c
unfolding set_mode_invite_only
set_mode_invite_only-KeepsLists enable c = record {
  same_name = ground arith;
  same_members = ground arith;
  same_operators = ground arith;
  same_invited = ground arith;
  settled = λ k. ground (arith, k);
}

pub set_mode_topic_restriction-KeepsLists :
    (enable : Bool) (c : Channel) → KeepsLists (set_mode_topic_restriction enable) c
unfolding set_mode_topic_restriction
set_mode_topic_restriction-KeepsLists enable c = record {
  same_name = ground arith;
  same_members = ground arith;
  same_operators = ground arith;
  same_invited = ground arith;
  settled = λ k. ground (arith, k);
}

pub set_mode_key-KeepsLists :
    (enable : Bool) (key : Text) (c : Channel)
    → (is_empty key || is_valid_key key) ≡ true
    → KeepsLists (set_mode_key enable key) c
unfolding set_mode_key
set_mode_key-KeepsLists enable key c valid = record {
  same_name = ground arith;
  same_members = ground arith;
  same_operators = ground arith;
  same_invited = ground arith;
  settled = λ k. ground (arith, k, valid);
}

pub set_mode_user_limit-KeepsLists :
    (enable : Bool) (limit : ℕ) (c : Channel)
    → limit < 1000000000
    → KeepsLists (set_mode_user_limit enable limit) c
unfolding set_mode_user_limit
set_mode_user_limit-KeepsLists enable limit c small = record {
  same_name = ground arith;
  same_members = ground arith;
  same_operators = ground arith;
  same_invited = ground arith;
  settled = λ k. ground (arith, k, small);
}
