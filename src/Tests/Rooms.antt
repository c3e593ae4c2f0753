-- ===== src/Tests/Rooms.antt =====
-- The theorems on channels and clients, on a heap of three clients and one channel.
use ft_irc.Handlers.Modes.{handle_mode}
use ft_irc.Room.Modes.{settings_of, begin, read_modes}
use ft_irc.Room.Modes.Announced.{letters_run, mode_line, handle_mode-announced}
use ft_irc.Links.{IsRoom}
use ft_irc.Handlers.Refusals.{OnlyAnswers}
use ft_irc.Room.Requests.{handle, act, handle-Refines, handle-refuses, kicks}
use ft_irc.Room.Refine.{Refines}
use ft_irc.Base.{
  ◌≡◌, ◌==◌, ◌&&◌, ◌||◌, not, true, none, some, [], ◌∷◌, ◌++◌, codes, if◌then◌else◌, ltb, contains,
  refl, arith, is_empty, Text, List,
}
use ft_irc.Client.{new_client, wire}
use ft_irc.Channel.{Channel, new_channel, is_member, is_operator}
use ft_irc.Heap.{Heap, channel, send_to_all, send_to_all_except}
use ft_irc.Heap.Delivery.{sent_to, send_to_all-delivery, send_to_all_except-delivery}
use ft_irc.Handlers.Member.{handle_join, handle_part, handle_kick, reply_to}
use ft_irc.Utf8.{truncate_utf8}
use ft_irc.Handlers.Talk.{handle_topic, handle_channel_privmsg}
use ft_irc.Handlers.Privmsg.{privmsg_line, cannot_send, handle_channel_privmsg-delivery}
use ft_irc.Handlers.Topic.{may_set_topic, handle_topic-sets}
use ft_irc.Handlers.Access.{may_join, handle_join-admits, handle_part-leaves, handle_kick-removes}

-- Clients 0 and 1 are in, client 0 is the operator, and a key is set.
abbrev room : Channel
room = record (new_channel (codes "#room")) {
  members = 0 ∷ 1 ∷ [];
  operators = 0 ∷ [];
  key = codes "k";
}

abbrev heap : Heap
heap = record {
  client_at = λ p. if ltb p 3 then some (new_client p 0) else none;
  channel_at = λ x. if x == 0 then some room else none;
}

handle_join-admits_example :
    is_member (channel (handle_join 0 2 (codes "k") heap) 0) 2
    ≡ (is_member (channel heap 0) 2 || may_join (channel heap 0) 2 (codes "k"))
handle_join-admits_example =
    handle_join-admits 0 2 heap (room, refl) (new_client 2 0, refl) (codes "k")

handle_part-leaves_example :
    is_member (channel (handle_part 0 1 [] heap) 0) 0
    ≡ (is_member (channel heap 0) 0 && not (1 == 0))
handle_part-leaves_example = handle_part-leaves 0 1 heap (room, refl) (new_client 1 0, refl) [] 0

handle_kick-removes_example : is_member (channel (handle_kick 0 0 1 (codes "bye") heap) 0) 1 ≡ (
    is_member (channel heap 0) 1
    && not (is_member (channel heap 0) 0 && is_operator (channel heap 0) 0 && 1 == 1))
handle_kick-removes_example =
    handle_kick-removes 0 1 heap (room, refl) (new_client 1 0, refl) 0 (codes "bye") 1

send_to_all-delivery_example : sent_to (send_to_all 0 (codes "hello") heap) 1 ≡ (
    if contains (channel heap 0).members 1
    then sent_to heap 1 ++ wire (codes "hello")
    else sent_to heap 1)
unfolding channel contains
send_to_all-delivery_example =
    send_to_all-delivery 0 (codes "hello") heap 1 (new_client 1 0, refl) (refl, (refl, tt))

send_to_all_except-delivery_example : sent_to (send_to_all_except 0 0 (codes "hello") heap) 1 ≡ (
    if contains (channel heap 0).members 1 && not (1 == 0)
    then sent_to heap 1 ++ wire (codes "hello")
    else sent_to heap 1)
unfolding channel contains
send_to_all_except-delivery_example =
    send_to_all_except-delivery 0 0 (codes "hello") heap 1 (new_client 1 0, refl) (refl, (refl, tt))

handle_topic-sets_example : channel (handle_topic 0 0 (codes "news") true heap) 0 ≡ (
    if 0 == 0 && (true && may_set_topic (channel heap 0) 0)
    then record (channel heap 0) { topic = truncate_utf8 (codes "news") 300 }
    else channel heap 0)
handle_topic-sets_example = handle_topic-sets 0 0 (codes "news") true heap (room, refl) 0

handle_channel_privmsg-delivery_example :
    sent_to (handle_channel_privmsg 0 0 (codes "hello") heap) 1 ≡ (
      if is_member (channel heap 0) 0
      then (if is_member (channel heap 0) 1 && not (1 == 0)
          then sent_to heap 1 ++ wire (privmsg_line 0 0 (codes "hello") heap)
          else sent_to heap 1)
      else (if 0 == 1
          then sent_to heap 1 ++ wire (cannot_send 0 0 (codes "hello") heap)
          else sent_to heap 1))
unfolding channel contains
handle_channel_privmsg-delivery_example =
    handle_channel_privmsg-delivery 0 0 (codes "hello") heap 1 (new_client 1 0, refl)
      (refl, (refl, tt))

room-IsRoom : IsRoom (channel heap 0)
unfolding channel contains new_channel
room-IsRoom = record {
  operators_in = λ p e. ground (arith, e);
  invited_out = λ p e. refl;
  members_distinct = (refl, (refl, tt));
  operators_distinct = (refl, tt);
  invited_distinct = tt;
}

-- The kick is granted, and another is refused.
handle-Refines_example :
    Refines 0 (act (kicks 0 1 (codes "bye"))) heap (handle 0 (kicks 0 1 (codes "bye")) heap)
unfolding channel contains
handle-Refines_example =
    handle-Refines (kicks 0 1 (codes "bye")) 0 heap (room, refl) (new_client 1 0, refl) room-IsRoom

handle-refuses_example :
    OnlyAnswers 1
      (reply_to heap 1 482 (codes "#room :You're not channel operator"))
      heap
      (handle 0 (kicks 1 0 []) heap)
unfolding channel contains codes new_channel
handle-refuses_example =
    handle-refuses (kicks 1 0 []) 0 heap 482 (codes "#room :You're not channel operator") refl

-- The key goes, and a limit comes; the letter z is refused, and a client that is in is told.
handle_mode-announced_example :
    let modes : Text = codes "-kz+il" in
    let params : List Text = codes "25" ∷ [] in
    let after : Heap = handle_mode 0 0 modes params heap in
    let applied : Text = (letters_run 0 0 modes params heap).applied in
    (args : List Text) × (settings_of (channel after 0)
      ≡ (read_modes applied (begin args (settings_of (channel heap 0)))).settings)
    × (sent_to after 1 ≡ (
        if not (is_empty applied) && is_member (channel heap 0) 1
        then sent_to heap 1 ++ wire (mode_line 0 0 applied args heap)
        else sent_to heap 1))
unfolding channel contains
handle_mode-announced_example =
    handle_mode-announced 0 0 (codes "-kz+il") (codes "25" ∷ []) heap 1 (room, refl)
      (refl, (refl, tt)) (unfold codes in refl) refl (new_client 1 0, refl) refl
