-- ===== src/Room/Requests.antt =====
-- What a client asks of a channel, and who is to answer: the handlers of channel/Channel.cpp that
-- change who is in it, together.
use ft_irc.Heap.{client, channel, Heap}
use ft_irc.Room.{join, leave, invite, expel}
use ft_irc.Links.{IsRoom}
use ft_irc.Handlers.Member.{
  reply_to, handle_join, handle_part, handle_kick, handle_invite, remove_quit_user,
}
use ft_irc.Handlers.Refusals.{
  OnlyAnswers, join_refusal, part_refusal, kick_refusal, invite_refusal, handle_join-refuses,
  handle_part-refuses, handle_kick-refuses, handle_invite-refuses,
}
use ft_irc.Channel.{Channel}
use ft_irc.Room.{expel, Room}
use ft_irc.Heap.Quiet.{IsLiveClient, IsLiveChannel}
use ft_irc.Room.Enter.{handle_join-Refines}
use ft_irc.Room.Refine.{
  Refines, handle_part-Refines, handle_kick-Refines, remove_quit_user-Refines,
  handle_invite-Refines,
}
use ft_irc.Base.{Text, ℕ, ◌≡◌, Option, none, some}

pub data Request : Type 0 where
  joins : ℕ → Text → Request
  parts : ℕ → Text → Request
  kicks : ℕ → ℕ → Text → Request
  invites : ℕ → ℕ → Request
  quits : ℕ → Request

-- Who asks, and whom it is about.
abbrev pub asker : Request → ℕ
asker (joins u key) = u
asker (parts u message) = u
asker (kicks by u comment) = by
asker (invites by u) = by
asker (quits u) = u

abbrev pub subject : Request → ℕ
subject (joins u key) = u
subject (parts u message) = u
subject (kicks by u comment) = u
subject (invites by u) = u
subject (quits u) = u

-- The program's answer.
abbrev pub handle : ℕ → Request → Heap → Heap
handle ch (joins u key) = handle_join ch u key
handle ch (parts u message) = handle_part ch u message
handle ch (kicks by u comment) = handle_kick ch by u comment
handle ch (invites by u) = handle_invite ch by u
handle ch (quits u) = remove_quit_user ch u

-- What it does to a room.
abbrev pub act : Request → Room → Room
act (joins u key) = join u key
act (parts u message) = leave u
act (kicks by u comment) = expel by u
act (invites by u) = invite by u
act (quits u) = leave u

-- The numeric and the text where it is refused; the nickname is that of the subject.
abbrev pub refusal : Text → Request → Channel → Option (ℕ × Text)
refusal nickname (joins u key) c = join_refusal c u key
refusal nickname (parts u message) c = part_refusal c u
refusal nickname (kicks by u comment) c = kick_refusal c by u nickname
refusal nickname (invites by u) c = invite_refusal c by u nickname
refusal nickname (quits u) c = none

-- If the channel is there, the client that the request is about is there, the channel's lists
-- have no double entries, its operators are members and no member is invited, then JOIN, PART,
-- KICK, INVITE and the clean-up after a QUIT change the room of that channel as `act` says, and
-- no other room.
pub handle-Refines :
    (r : Request) (ch : ℕ) (h : Heap)
    → IsLiveChannel h ch
    → IsLiveClient h (subject r)
    → IsRoom (channel h ch)
    → Refines ch (act r) h (handle ch r h)
handle-Refines (joins u key) ch h lc lu i = handle_join-Refines ch u key h lc lu
handle-Refines (parts u message) ch h lc lu i = handle_part-Refines ch u h lc lu i message
handle-Refines (kicks by u comment) ch h lc lu i = handle_kick-Refines ch u h lc lu i by comment
handle-Refines (invites by u) ch h lc lu i = handle_invite-Refines ch u h lc lu i by
handle-Refines (quits u) ch h lc lu i = remove_quit_user-Refines ch u h lc lu i

-- Where `refusal` gives a numeric and a text for a request, the handler sends that reply to the
-- client that asks, once, changes nothing else but write buffers, and appends nothing to that of
-- another client that is there.
pub handle-refuses :
    (r : Request) (ch : ℕ) (h : Heap) (code : ℕ) (text : Text)
    → refusal (client h (subject r)).nickname r (channel h ch) ≡ some (code, text)
    → OnlyAnswers (asker r) (reply_to h (asker r) code text) h (handle ch r h)
handle-refuses (joins u key) ch h code text = handle_join-refuses ch u h key code text
handle-refuses (parts u message) ch h code text = handle_part-refuses ch u h message code text
handle-refuses (kicks by u comment) ch h code text = handle_kick-refuses ch by h u comment code text
handle-refuses (invites by u) ch h code text = handle_invite-refuses ch by h u code text
handle-refuses (quits u) ch h code text = λ e. absurd (cc)
