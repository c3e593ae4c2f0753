-- ===== src/Tests/Reached.antt =====
-- The theorems on names, broadcasts and mode lines, on the run of Tests/Rounds.antt, and those on
-- messages and on the password.
use ft_irc.Safe.Renaming.{may_rename, nick-renames, rename_notice, nick-tells}
use ft_irc.Safe.Quiet.{name_at}
use ft_irc.Server.Accept.{new_server}
use ft_irc.Map.{lookup, erase, place, insert, text_key, nat_key}
use ft_irc.Reply.{c_toupper, lower_char, to_lower}
use ft_irc.Server.{on_heap, check_password, nickname_taken_by, is_nickname_taken, Server}
use ft_irc.Utf8.{cut_line}
use ft_irc.Heap.{client, channel, broadcast_quit, broadcast_nick_change, Heap, on_client}
use ft_irc.Commands.{operate, need_login, execute, commands, dispatch}
use ft_irc.Safe.Trust.{operate-authenticates}
use ft_irc.Safe.ModeLines.{reached-mode_query}
use ft_irc.Safe.Sources.{reached-sources}
use ft_irc.Safe.Broadcasts.{reached-broadcasts}
use ft_irc.Safe.Names.{reached-members}
use ft_irc.Commands.Session.{
  nick, first_param, is_valid_nickname, pass, c_isalpha, c_isalnum, is_special, nickname_rest,
}
use ft_irc.Parse.Clean.{IsWithout}
use ft_irc.Parse.Clean.Lines.{spliter-clean}
use ft_irc.Parse.Message.{
  skip_spaces, split_space, upper, parameters, split_command, split_prefix, without_cr, spliter,
  Message,
}
use ft_irc.Client.{new_client, wire, chomp, pop_line, Client, send_reply, try_complete_registration}
use ft_irc.Handlers.Member.{reply_to, command_of}
use ft_irc.Handlers.Modes.{handle_mode}
use ft_irc.Channel.{is_member, build_mode_string, Channel, new_channel}
use ft_irc.Heap.Broadcast.{shares_channel, is_in_some}
use ft_irc.Heap.Live.{live_of_member}
use ft_irc.Heap.Delivery.{sent_to}
use ft_irc.Heap.Quiet.{IsLiveClient, IsLiveChannel}
use ft_irc.Room.Modes.{settings_of}
use ft_irc.Room.Modes.Shown.{read_mode_line, unset}
use ft_irc.Loop.{accept_new_client}
use ft_irc.Reply.Source.{read_source}
use ft_irc.Reply.Numeric.{rpl_channelmodeis}
use ft_irc.Server.Keeps.{is_trusted}
use ft_irc.Base.{
  ◌==◌, if◌then◌else◌, not, Text, codes, find, ℕ, ◌<◌, ◌≡◌, refl, ◌↔◌, Bool, true, false, ◌&&◌,
  ◌||◌, some, [], ◌∷◌, ◌++◌, text_eq, text_lt, contains, none,
}
use ft_irc.Tests.Rounds.{joined_server, joined-IsReachable, is_ann}
use ft_irc.Tests.Servers.{connected, connected-Inv, connected-live}

-- Client 0 has registered.
reached-sources_example :
    let ann : Client = client joined_server.heap 0 in
    (is_valid_nickname ann.nickname ≡ true)
    × (read_source (command_of joined_server.heap 0 (codes "PART") (codes "#room"))
        ≡ some (ann.nickname, ann.username))
reached-sources_example =
    reached-sources joined_server joined-IsReachable 0 (codes "PART") (codes "#room") is_ann.0

room_there : IsLiveChannel joined_server.heap 0
room_there = live_of_member joined_server.heap 0 0 is_ann.1

ann_there : IsLiveClient joined_server.heap 0
ann_there = (reached-members joined_server joined-IsReachable 0 0 is_ann.1).2

reached-mode_query_example :
    let c : Channel = channel joined_server.heap 0 in
    (sent_to (handle_mode 0 0 [] [] joined_server.heap) 0
      ≡ sent_to joined_server.heap 0
        ++ wire (
            reply_to joined_server.heap 0 rpl_channelmodeis
              (c.name ++ codes " " ++ build_mode_string c)))
    × (read_mode_line (build_mode_string c) (unset (settings_of c)) ≡ settings_of c)
    × (c.user_limit < 1000000000)
reached-mode_query_example =
    reached-mode_query joined_server joined-IsReachable 0 0 [] ann_there is_ann.1

reached-broadcasts_example :
    let h : Heap = joined_server.heap in
    let notice : Text = codes "hello" in
    let shared : Bool = shares_channel h 0 0 in
    (sent_to (broadcast_quit 0 notice h) 0
      ≡ (if shared && not (0 == 0) then sent_to h 0 ++ wire notice else sent_to h 0))
    × (sent_to (broadcast_nick_change 0 notice h) 0
        ≡ (if 0 == 0 || shared then sent_to h 0 ++ wire notice else sent_to h 0))
    × ((shared ≡ true)
        ↔ ((ch : ℕ) × (is_member (channel h ch) 0 ≡ true) × (is_member (channel h ch) 0 ≡ true)))
reached-broadcasts_example =
    reached-broadcasts joined_server joined-IsReachable 0 0 (codes "hello") ann_there

-- A line with a NUL would be refused, and the second line stays in the buffer.
abbrev writer : Client
writer = record (new_client 4 0) {
  read_buffer = codes "join #room key" ++ 13 ∷ 10 ∷ codes "QUIT" ++ 13 ∷ 10 ∷ [];
}

abbrev joining : Message
joining = record {
  prefix = [];
  exist_prefix = false;
  command = codes "JOIN";
  parameter = codes "#room" ∷ codes "key" ∷ [];
}

parsed : spliter (pop_line writer).0 ≡ some joining
unfolding spliter pop_line chomp codes find cut_line without_cr skip_spaces split_prefix
    split_command split_space parameters upper c_toupper new_client
parsed = refl

spliter-clean_example : IsWithout 0 joining × IsWithout 10 joining × IsWithout 13 joining
spliter-clean_example = spliter-clean writer joining parsed

-- The password of the server.
trusted_before : is_trusted connected 0 ≡ false
unfolding accept_new_client client new_client
trusted_before = refl

trusted_after : is_trusted (operate 1 0 (codes "PASS secret") connected).1 0 ≡ true
unfolding accept_new_client client new_client operate spliter codes find cut_line without_cr
    split_prefix skip_spaces split_command split_space parameters upper c_toupper dispatch lookup
    commands insert place erase text_eq text_lt need_login execute pass on_heap on_client
    check_password try_complete_registration send_reply
trusted_after = refl

operate-authenticates_example :
    (◌≡◌ {A = ℕ} 0 0)
    × (msg : Message) × (spliter (codes "PASS secret") ≡ some msg)
    × (msg.command ≡ codes "PASS")
    × (first_param msg.parameter ≡ connected.password)
operate-authenticates_example =
    operate-authenticates 1 0 (codes "PASS secret") connected 0 connected-Inv connected-live
      connected-live trusted_before trusted_after

-- Clients 0 and 1 are in a channel.
abbrev member : ℕ → Text → Client
member fd nickname = record (new_client fd 0) {
  nickname = nickname;
  username = nickname;
  is_registered = true;
  joined_channels = (codes "#room", 0) ∷ [];
}

abbrev pair : Server
pair = record (new_server 3 (codes "secret")) {
  clients = (4, 0) ∷ (5, 1) ∷ [];
  channels = (codes "#room", 0) ∷ [];
  heap = record {
    client_at = λ p.
        if p == 0
        then some (member 4 (codes "ann"))
        else if p == 1
        then some (member 5 (codes "bob"))
        else none;
    channel_at = λ x.
        if x == 0
        then some (record (new_channel (codes "#room")) { members = 0 ∷ 1 ∷ [] })
        else none;
  };
}

abbrev renaming : Message
renaming = record joining { command = codes "NICK"; parameter = codes "anna" ∷ [] }

nick-renames_example :
    name_at (nick 9 0 renaming pair) 0
    ≡ (if 0 == 0 && may_rename pair 0 renaming then codes "anna" else name_at pair 0)
nick-renames_example = nick-renames 9 0 renaming pair (member 4 (codes "ann"), refl) 0

nick-tells_example : sent_to (nick 9 0 renaming pair).heap 1 ≡ (
    if may_rename pair 0 renaming
      && (client pair.heap 0).is_registered
      && not (text_eq (client pair.heap 0).nickname (codes "anna"))
      && shares_channel pair.heap 0 1
    then sent_to pair.heap 1 ++ wire (rename_notice 0 renaming pair)
    else sent_to pair.heap 1)
nick-tells_example =
    nick-tells 9 0 renaming pair (member 4 (codes "ann"), refl) 1 refl
      (member 5 (codes "bob"), refl)

-- Client 1 is told.
anna_told :
    may_rename pair 0 renaming
      && (client pair.heap 0).is_registered
      && not (text_eq (client pair.heap 0).nickname (codes "anna"))
      && shares_channel pair.heap 0 1
    ≡ true
unfolding client codes text_eq is_valid_nickname nickname_rest c_isalpha c_isalnum is_special
    is_nickname_taken nickname_taken_by is_in_some contains new_client channel new_channel to_lower
    lower_char
anna_told = refl
