-- ===== src/Tests/Servers.antt =====
-- The theorems on the whole server, from the start to a client in a channel.
use ft_irc.Commands.Params.{length-filter_letters}
use ft_irc.Commands.Alone.{IsAlone}
use ft_irc.Room.{Settings}
use ft_irc.Room.Modes.{settings_of, begin, read_modes}
use ft_irc.Room.Modes.Signs.{reading_of}
use ft_irc.Room.Modes.Filtered.{filter_letters-fits}
use ft_irc.Safe.Overdue.{overdue, expired}
use ft_irc.Safe.Idle.{check_idle_clients-decides}
use ft_irc.Links.Moves.{nowhere}
use ft_irc.Safe.Step.{Round-on_client, Round}
use ft_irc.Base.{
  ◌≡◌, ◌==◌, ◌||◌, ◌++◌, not, none, some, List, true, false, [], ◌∷◌, Text, text_eq, codes, refl,
  arith, ◌▷◌, find, ◌&&◌, length, ◌≤◌,
}
use ft_irc.Map.{lookup, insert, place, erase, has, nat_key, text_key}
use ft_irc.Client.{
  new_client, has_complete_line, send_reply, try_complete_registration, is_missing_password,
}
use ft_irc.Heap.{client, on_client, channel}
use ft_irc.Heap.Quiet.{IsLiveClient}
use ft_irc.Parse.Message.{Message}
use ft_irc.Server.{Server, on_heap, nickname_taken_by, is_nickname_taken, check_password}
use ft_irc.Server.Disconnect.{is_marked}
use ft_irc.Server.Inv.{Inv}
use ft_irc.Server.Keeps.{Keeps-and, Mostly-of-Keeps, Mostly}
use ft_irc.Server.Accept.{new_server, Inv-new_server, Inv-accept_new_client}
use ft_irc.Loop.{
  accept_new_client, accepted, received, process_lines, append_read, check_idle_clients,
}
use ft_irc.Commands.{dispatch, operate, join}
use ft_irc.Commands.ModeCommand.{start_filter, filter_letters, Filter}
use ft_irc.Commands.Gate.{dispatch-gate, pass_gate, gates}
use ft_irc.Safe.Lines.{Keeps-operate, GivesPassword}
use ft_irc.Safe.Join.{Keeps-join}
use ft_irc.Safe.Receive.{process_lines-finishes}
use ft_irc.Loop.{blocking, refused, failed}
use ft_irc.Loop.Round.{Report}
use ft_irc.Commands.Session.{
  pass, nick, user, c_isalpha, c_isalnum, is_special, nickname_rest, is_valid_nickname, complete,
  user_with, user_params,
}
use ft_irc.Safe.Session.{Keeps-pass, Keeps-nick, Keeps-user, Opens}

abbrev listening : Server
listening = new_server 3 (codes "secret")

abbrev pub connected : Server
connected = accept_new_client 0 (accepted 4 (codes "10.0.0.1")) listening

Inv-new_server_example : Inv listening
Inv-new_server_example = Inv-new_server 3 (codes "secret")

pub connected-Inv : Inv connected
connected-Inv =
    Inv-accept_new_client 0 (accepted 4 (codes "10.0.0.1")) listening (unfold lookup in refl)
      (Inv-new_server 3 (codes "secret"))

pub connected-live : IsLiveClient connected.heap 0
connected-live =
    unfold accept_new_client in (record (new_client 4 0) { ip = codes "10.0.0.1" }, refl)

Keeps-operate_example :
    let raw : Text = codes "NICK ann" in
    Mostly nowhere (GivesPassword 0 connected raw) connected (operate 1 0 raw connected).1
Keeps-operate_example = Keeps-operate 1 0 connected connected-Inv connected-live (codes "NICK ann")

abbrev message : Text → Text → Message
message command param = record {
  prefix = [];
  exist_prefix = false;
  command = command;
  parameter = param ∷ [];
}

abbrev join_room : Message
join_room = message (codes "JOIN") (codes "#room")

abbrev user_ann : Message
user_ann = record (message (codes "USER") (codes "ann")) {
  parameter = codes "ann" ∷ codes "0" ∷ codes "*" ∷ codes "Ann" ∷ [];
}

-- PASS, NICK and USER.
abbrev greeted : Server
greeted =
    pass 0 (message (codes "PASS") (codes "secret")) connected
    ▷ nick 1 0 (message (codes "NICK") (codes "ann"))
    ▷ user 1 0 user_ann

greeted-Keeps :
    Mostly nowhere (Opens 0 (message (codes "PASS") (codes "secret")) connected) connected greeted
greeted-Keeps =
    Keeps-and (Keeps-pass 0 (message (codes "PASS") (codes "secret")) connected connected-Inv) λ a.
      Keeps-and (Mostly-of-Keeps (Keeps-nick 1 0 (message (codes "NICK") (codes "ann")) _ a))
        λ b. Mostly-of-Keeps (Keeps-user 1 0 user_ann _ b)

greeted-live : IsLiveClient greeted.heap 0
greeted-live = greeted-Keeps.still_live 0 connected-live

greeted-registered : (client greeted.heap 0).is_registered ≡ true
unfolding accept_new_client client new_client on_heap on_client pass nick user user_params user_with
    complete try_complete_registration is_missing_password send_reply check_password text_eq
    is_valid_nickname nickname_rest c_isalpha c_isalnum is_special is_nickname_taken
    nickname_taken_by find codes insert place erase
greeted-registered = refl

abbrev in_room : Server
in_room = ft_irc.Commands.Rooms.join 0 join_room greeted

in_room-Inv : Inv in_room
in_room-Inv = (Keeps-join 0 join_room greeted greeted-Keeps.inv greeted-live greeted-registered).inv

abbrev set_mode : Message
set_mode = record (message (codes "MODE") (codes "#room")) {
  parameter = codes "#room" ∷ codes "+it" ∷ [];
}

-- The key goes, the letter z is refused, and the limit comes with its parameter.
filter_letters-fits_example :
    let modes : Text = codes "-kz+il" in
    let given : List Text = codes "x" ∷ codes "25" ∷ codes "y" ∷ [] in
    let l : Filter = filter_letters 0 0 given modes (start_filter in_room) in
    (after : Settings) × (read_modes l.filtered_modes
        (begin (l.filtered_params ++ []) (settings_of (channel in_room.heap 0)))
      ≡ reading_of (not (l.last_applied_sign == b'-')) [] after)
filter_letters-fits_example =
    filter_letters-fits 0 0 (codes "x" ∷ codes "25" ∷ codes "y" ∷ []) (codes "-kz+il") in_room []
      (settings_of (channel in_room.heap 0))

-- A connection that cannot be made non-blocking, and a line from the first.
abbrev reports : List Report
reports =
    record {
      fd = 3;
      pollin = true;
      pollout = false;
      pollhup = false;
      pollerr = false;
      pollnval = false;
      accepting = blocking;
      receiving = failed;
      sending = none;
    }
    ∷ record {
      fd = 4;
      pollin = true;
      pollout = true;
      pollhup = false;
      pollerr = false;
      pollnval = false;
      accepting = refused;
      receiving = received (codes "PASS secret" ++ 13 ∷ 10 ∷ []);
      sending = some 0;
    }
    ∷ []

-- A line has come in.
abbrev reading : Server
reading = on_heap (on_client 0 (append_read (codes "NICK ann" ++ 13 ∷ 10 ∷ []))) connected

reading-Round : Round connected reading
reading-Round =
    Round-on_client 0 (append_read (codes "NICK ann" ++ 13 ∷ 10 ∷ [])) connected
      (record {
        links = record { same_joined = λ c. refl; same_invited = λ c. refl; same_fd = λ c. refl };
        same_persona = λ c. refl;
      })
      connected-Inv

process_lines-finishes_example :
    let t : Server = process_lines 20 1 4 0 reading in
    (is_marked t 4 || not (has_complete_line (client t.heap 0)) || has 4 t.closing) ≡ true
unfolding on_heap on_client client accept_new_client new_client codes
process_lines-finishes_example =
    process_lines-finishes 1 4 0 20 reading reading-Round.inv
      (reading-Round.still_live 0 connected-live) (omega arith)

abbrev four_keys : List Text
four_keys = codes "a" ∷ codes "b" ∷ codes "c" ∷ codes "d" ∷ []

-- Four keys are given, of which three are handed on.
length-filter_letters_example :
    length (filter_letters 0 0 four_keys (codes "+kkkk") (start_filter in_room)).filtered_params ≤ 3
length-filter_letters_example = length-filter_letters 0 0 four_keys (codes "+kkkk") in_room

-- JOIN before the registration, which stands behind the gate.
dispatch-gate_example :
    (dispatch 1 0 join_room connected
      ≡ pass_gate 1 0 join_room connected (lookup join_room.command gates))
    × IsAlone 0 connected (dispatch 1 0 join_room connected)
unfolding accept_new_client client new_client lookup insert place erase
dispatch-gate_example = dispatch-gate 1 0 join_room connected refl

-- A minute has passed, and the client has not registered.
check_idle_clients-decides_example :
    let t : Server = check_idle_clients 100 connected in
    (is_marked t 4
      ≡ is_marked connected 4 || overdue 100 (client connected.heap 0) (has 4 connected.closing))
    × (has 4 t.closing
        ≡ has 4 connected.closing
          || not (has 4 connected.closing) && expired 100 (client connected.heap 0))
check_idle_clients-decides_example =
    check_idle_clients-decides 100 4 0 connected connected-Inv
      (unfold accept_new_client insert place erase has lookup in (refl, tt))
      (unfold accept_new_client insert place erase lookup in refl)
