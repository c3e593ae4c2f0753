-- ===== src/Tests/Rounds.antt =====
-- The theorems on the reached servers, on one run: a client connects, registers and joins a
-- channel.
use ft_irc.Safe.Step.{Round-mark}
use ft_irc.Safe.Populated.{reached-Populated}
use ft_irc.Loop.Run.{run, shut_down}
use ft_irc.Safe.Closed.{cleanup_disconnected-closes}
use ft_irc.Safe.End.{run-leaves_nothing}
use ft_irc.Safe.Names.{find_client_by_nickname-finds, find_channel-finds, reached-members}
use ft_irc.Heap.Quiet.{IsLiveClient, IsLiveChannel}
use ft_irc.Channel.{is_member}
use ft_irc.Map.{has}
use ft_irc.Map.{erase}
use ft_irc.Map.{place}
use ft_irc.Map.{insert}
use ft_irc.Safe.Reach.{start}
use ft_irc.Base.{text_eq, if◌then◌else◌, ◌↔◌, Option, some}
use ft_irc.Base.{text_lt}
use ft_irc.Base.{find}
use ft_irc.Base.{contains}
use ft_irc.Reply.{c_toupper}
use ft_irc.Reply.{to_lower}
use ft_irc.Utf8.{cut_line}
use ft_irc.Client.{new_client}
use ft_irc.Client.{add_joined_channels}
use ft_irc.Client.{remove_invited_channel}
use ft_irc.Client.{send_reply}
use ft_irc.Client.{has_complete_line}
use ft_irc.Client.{chomp}
use ft_irc.Client.{pop_line}
use ft_irc.Client.{update_last_activity}
use ft_irc.Client.{get_idle_time}
use ft_irc.Client.{get_connect_time}
use ft_irc.Client.{try_complete_registration}
use ft_irc.Client.{is_missing_password}
use ft_irc.Channel.{new_channel}
use ft_irc.Channel.{is_full}
use ft_irc.Channel.{remove_member_from_invited_users}
use ft_irc.Channel.{add_operator}
use ft_irc.Heap.{channel, Heap}
use ft_irc.Heap.{on_client}
use ft_irc.Heap.{on_channel}
use ft_irc.Heap.{send_to_one}
use ft_irc.Heap.{send_each}
use ft_irc.Heap.{send_to_all}
use ft_irc.Handlers.Member.{add_member}
use ft_irc.Handlers.Member.{send_names}
use ft_irc.Handlers.Member.{welcome}
use ft_irc.Handlers.Member.{enter}
use ft_irc.Handlers.Member.{handle_join}
use ft_irc.Server.{on_heap}
use ft_irc.Server.{find_channel}
use ft_irc.Server.{alloc_channel}
use ft_irc.Server.{find_or_create_channel}
use ft_irc.Server.{nickname_taken_by}
use ft_irc.Server.{is_nickname_taken}
use ft_irc.Server.{check_password}
use ft_irc.Server.{find_client_by_nickname}
use ft_irc.Server.Disconnect.{is_marked}
use ft_irc.Server.Disconnect.{mark_for_disconnection}
use ft_irc.Server.Disconnect.{disconnect_each}
use ft_irc.Server.Disconnect.{cleanup_disconnected}
use ft_irc.Parse.Message.{skip_spaces}
use ft_irc.Parse.Message.{split_space}
use ft_irc.Parse.Message.{upper}
use ft_irc.Parse.Message.{parameters}
use ft_irc.Parse.Message.{split_command}
use ft_irc.Parse.Message.{split_prefix}
use ft_irc.Parse.Message.{without_cr}
use ft_irc.Parse.Message.{spliter}
use ft_irc.Commands.{need_login}
use ft_irc.Commands.{execute}
use ft_irc.Commands.{commands}
use ft_irc.Commands.{dispatch}
use ft_irc.Commands.{operate}
use ft_irc.Commands.Session.{c_isalnum}
use ft_irc.Commands.Session.{nickname_rest}
use ft_irc.Commands.Session.{is_valid_nickname}
use ft_irc.Commands.Session.{complete}
use ft_irc.Commands.Session.{nick}
use ft_irc.Commands.Session.{pass}
use ft_irc.Commands.Session.{user}
use ft_irc.Commands.Rooms.{is_valid_channel_name}
use ft_irc.Commands.Rooms.{join}
use ft_irc.Loop.{process_lines}
use ft_irc.Loop.{take_bytes}
use ft_irc.Loop.{receive_data}
use ft_irc.Loop.{accept_new_client}
use ft_irc.Loop.{check_idle_client}
use ft_irc.Loop.{check_idle_each}
use ft_irc.Loop.{check_idle_clients}
use ft_irc.Loop.Round.{serve_client, Polled}
use ft_irc.Loop.Round.{serve}
use ft_irc.Loop.Round.{serve_each}
use ft_irc.Server.{Server}
use ft_irc.Heap.{client}
use ft_irc.Loop.Round.{run_round, Report, polled}
use ft_irc.Map.{lookup, text_key, nat_key}
use ft_irc.Safe.Reach.{polled_server, IsReachable-Inv, IsReachable, served, step}
use ft_irc.Safe.Serve.{AreUnused}
use ft_irc.Loop.{
  refresh_poll_fd, refresh_poll_fds, refresh_poll_events, failed, received, refused, accepted,
}
use ft_irc.Server.Inv.{Inv, Populated}
use ft_irc.Server.Accept.{new_server}
use ft_irc.Base.{Text, codes, ℕ, ◌≡◌, refl, true, false, none, List, [], ◌∷◌, ◌++◌}

abbrev pub password : Text
password = codes "secret"

abbrev quiet_report : ℕ → Report
quiet_report fd = record {
  fd = fd;
  pollin = true;
  pollout = false;
  pollhup = false;
  pollerr = false;
  pollnval = false;
  accepting = refused;
  receiving = failed;
  sending = none;
}

abbrev accept_round : List Report
accept_round = record (quiet_report 3) { accepting = accepted 4 (codes "10.0.0.1") } ∷ []

abbrev lines_round : List Report
lines_round =
    record (quiet_report 4) {
      receiving = received (
          codes "PASS secret"
          ++ 13 ∷ 10 ∷ codes "NICK ann"
          ++ 13 ∷ 10 ∷ codes "USER ann 0 * Ann"
          ++ 13 ∷ 10 ∷ codes "JOIN #room"
          ++ 13 ∷ 10 ∷ []);
    }
    ∷ []

abbrev pub first_server : Server
first_server = new_server 3 password

abbrev accepted_server : Server
accepted_server = run_round 1 (polled accept_round) first_server

abbrev pub joined_server : Server
joined_server = run_round 2 (polled lines_round) accepted_server

unused : AreUnused 1 accept_round (polled_server accept_round first_server)
unfolding refresh_poll_events refresh_poll_fds refresh_poll_fd lookup
unused = (refl, tt)

accepted-IsReachable : IsReachable accepted_server
accepted-IsReachable = step (start 3 password) (served 1 accept_round unused)

pub joined-IsReachable : IsReachable joined_server
joined-IsReachable = step accepted-IsReachable (served 2 lines_round (tt, tt))

IsReachable-Inv_example : Inv joined_server
IsReachable-Inv_example = IsReachable-Inv joined-IsReachable

-- Client 0 has registered, and is in the channel.
pub is_ann :
    ((client joined_server.heap 0).is_registered ≡ true)
    × (is_member (channel joined_server.heap 0) 0 ≡ true)
unfolding codes text_eq text_lt find contains c_toupper cut_line new_client add_joined_channels
    remove_invited_channel send_reply has_complete_line chomp pop_line update_last_activity
    get_idle_time get_connect_time try_complete_registration is_missing_password new_channel is_full
    remove_member_from_invited_users add_operator client channel on_client on_channel send_to_one
    send_each send_to_all add_member send_names welcome enter handle_join on_heap find_channel
    alloc_channel find_or_create_channel nickname_taken_by is_nickname_taken check_password
    is_marked disconnect_each cleanup_disconnected skip_spaces split_space upper parameters
    split_command split_prefix without_cr spliter need_login execute commands dispatch operate
    c_isalnum nickname_rest is_valid_nickname complete nick pass user is_valid_channel_name join
    process_lines take_bytes receive_data accept_new_client check_idle_client check_idle_each
    check_idle_clients refresh_poll_fd refresh_poll_fds refresh_poll_events serve_client serve
    serve_each run_round insert place erase lookup has
is_ann = (refl, refl)

find_client_by_nickname-finds_example :
    (find_client_by_nickname joined_server (codes "ANN") ≡ some 0) ↔ (
      IsLiveClient joined_server.heap 0
      × ((client joined_server.heap 0).is_registered ≡ true)
      × (to_lower (client joined_server.heap 0).nickname ≡ to_lower (codes "ANN")))
find_client_by_nickname-finds_example =
    find_client_by_nickname-finds joined_server joined-IsReachable (codes "ANN") 0

find_channel-finds_example : (find_channel joined_server (codes "#Room") ≡ some 0) ↔ (
    IsLiveChannel joined_server.heap 0
    × (to_lower (channel joined_server.heap 0).name ≡ to_lower (codes "#Room")))
find_channel-finds_example = find_channel-finds joined_server joined-IsReachable (codes "#Room") 0

reached-members_example :
    ((client joined_server.heap 0).is_registered ≡ true)
    × ((client joined_server.heap 0).is_password_verified ≡ true)
    × IsLiveClient joined_server.heap 0
    × IsLiveChannel joined_server.heap 0
    × (lookup (channel joined_server.heap 0).name (client joined_server.heap 0).joined_channels
        ≡ some 0)
reached-members_example = reached-members joined_server joined-IsReachable 0 0 is_ann.1

-- The two rounds, and then a failure of `poll`.
abbrev ticks : List (ℕ × Option Polled)
ticks = (1, some (polled accept_round)) ∷ (2, some (polled lines_round)) ∷ (3, none) ∷ []

run-leaves_nothing_example :
    let left : Heap = (shut_down (run ticks first_server)).1 in
    (left.client_at 0 ≡ none) × (left.channel_at 0 ≡ none)
run-leaves_nothing_example = run-leaves_nothing 3 password ticks 0 0 (unused, ((tt, tt), tt))

-- The client is marked.
abbrev marked_server : Server
marked_server = mark_for_disconnection 4 (codes "SendQ exceeded") joined_server

marked_server-Inv : Inv marked_server
marked_server-Inv =
    (Round-mark 4 (codes "SendQ exceeded") joined_server (IsReachable-Inv joined-IsReachable)).inv

cleanup_disconnected-closes_example :
    lookup 4 (cleanup_disconnected marked_server).clients
    ≡ (if is_marked marked_server 4 then none else lookup 4 marked_server.clients)
cleanup_disconnected-closes_example = cleanup_disconnected-closes marked_server 4 marked_server-Inv

reached-Populated_example : Populated joined_server
reached-Populated_example = reached-Populated joined-IsReachable
