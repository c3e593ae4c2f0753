-- ===== src/Client.antt =====
-- Client.hpp and Client.cpp: the state of one connection. A `Channel *` is an address; the
-- methods that follow one are in Heap.antt. The clock, `std::time(NULL)`, is an argument `now`.
pub mod Lines
pub mod Framing
pub mod Registration
use ft_irc.Base.{
  ℕ, suc, ◌-◌, Bool, true, false, ◌&&◌, not, none, some, List, [], ◌∷◌, ◌++◌, Text, codes, find,
  ◌==◌, if◌then◌else◌, take, drop, push_back, remove, is_empty, length, get_elem?, ◌▷◌,
}
use ft_irc.Map.{Map, text_key, insert, erase}
use ft_irc.Reply.{format_reply}
use ft_irc.Reply.IrcNumeric.{rpl_welcome, rpl_yourhost, rpl_created, rpl_myinfo}
use ft_irc.Utf8.{cut_line}

pub record Client : Type 0 where
  pub fd : ℕ
  pub ip : Text
  pub nickname : Text
  pub username : Text
  pub realname : Text
  pub is_registered : Bool
  pub is_password_verified : Bool
  pub joined_channels : Map Text ℕ
  pub invited_channels : List ℕ
  pub read_buffer : Text
  pub write_buffer : Text
  pub connected_at : ℕ
  pub last_activity : ℕ
  pub ping_sent : Bool
  pub closing_since : ℕ

-- `Client(int fd)`
unfoldable pub new_client : ℕ → ℕ → Client
new_client fd now = record {
  fd = fd;
  ip = [];
  nickname = [];
  username = [];
  realname = [];
  is_registered = false;
  is_password_verified = false;
  joined_channels = [];
  invited_channels = [];
  read_buffer = [];
  write_buffer = [];
  connected_at = now;
  last_activity = now;
  ping_sent = false;
  closing_since = 0;
}

unfoldable pub add_joined_channels : Text → ℕ → Client → Client
add_joined_channels name channel c = record c {
  joined_channels = insert name channel c.joined_channels;
}

unfoldable pub remove_joined_channels : Text → Client → Client
remove_joined_channels name c = record c { joined_channels = erase name c.joined_channels }

unfoldable pub add_invited_channel : ℕ → Client → Client
add_invited_channel ch c = record c { invited_channels = push_back c.invited_channels ch }

unfoldable pub remove_invited_channel : ℕ → Client → Client
remove_invited_channel ch c = record c { invited_channels = remove ch c.invited_channels }

-- The bytes that `sendReply` adds to the write buffer: the line, cut if need be, and CR LF.
unfoldable pub wire : Text → Text
wire message = cut_line message ++ 13 ∷ 10 ∷ []

unfoldable pub send_reply : Text → Client → Client
send_reply message c = record c { write_buffer = c.write_buffer ++ wire message }

unfoldable pub has_complete_line : Client → Bool
has_complete_line c = elim (find b'\n' c.read_buffer) [ none ↦ false | some pos ↦ true ]

-- `if (!line.empty() && line[line.size() - 1] == '\r') line.erase(line.size() - 1);`
unfoldable pub chomp : Text → Text
chomp line = elim (get_elem? line (length line - 1)) [
  | none ↦ line
  | some last ↦ if last == 13 then take (length line - 1) line else line
]

-- The line, and the client without it. With npos, `substr` takes all and `pos + 1` wraps to 0, so
-- that `erase(0, 0)` removes nothing.
unfoldable pub pop_line : Client → Text × Client
pop_line c = elim (find b'\n' c.read_buffer) [
  | none ↦ (chomp c.read_buffer, c)
  | some pos ↦
      (chomp (take pos c.read_buffer), record c { read_buffer = drop (suc pos) c.read_buffer })
]

unfoldable pub update_last_activity : ℕ → Client → Client
update_last_activity now c = record c { last_activity = now; ping_sent = false }

-- The three times are only compared with positive bounds, so that a clock that was set back, and
-- a negative difference, count as 0.
unfoldable pub get_idle_time : ℕ → Client → ℕ
get_idle_time now c = now - c.last_activity

unfoldable pub get_connect_time : ℕ → Client → ℕ
get_connect_time now c = now - c.connected_at

unfoldable pub get_closing_time : ℕ → Client → ℕ
get_closing_time now c = if c.closing_since == 0 then 0 else now - c.closing_since

unfoldable pub try_complete_registration : Client → Client
try_complete_registration c =
    if not c.is_registered
      && c.is_password_verified
      && not (is_empty c.nickname)
      && not (is_empty c.username)
    then record c { is_registered = true }
      ▷ send_reply (
          format_reply rpl_welcome c.nickname (
            codes "Welcome to the ircserv Network, "
            ++ c.nickname
            ++ codes "!"
            ++ c.username
            ++ codes "@"
            ++ c.ip))
      ▷ send_reply
          (format_reply rpl_yourhost c.nickname (codes "Your host is ircserv, running version 1.0"))
      ▷ send_reply
          (format_reply rpl_created c.nickname (codes "This server was created for ircserv"))
      ▷ send_reply (
          codes ":ircserv "
          ++ rpl_myinfo
          ++ codes " "
          ++ c.nickname
          ++ codes " ircserv 1.0 o itkol")
    else c

unfoldable pub is_missing_password : Client → Bool
is_missing_password c =
    not c.is_registered
    && not c.is_password_verified
    && not (is_empty c.nickname)
    && not (is_empty c.username)
