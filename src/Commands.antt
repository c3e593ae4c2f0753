-- ===== src/Commands.antt =====
-- parse/CommandRegistry.cpp, parse/Parser.cpp and common/commandlist/: the commands and how a
-- line reaches one.
pub mod Session
pub mod Rooms
pub mod ModeCommand
pub mod Alone
pub mod Params
pub mod Gate
use ft_irc.Base.{ℕ, Bool, true, false, ◌&&◌, not, none, some, [], Text, codes, if◌then◌else◌, ◌▷◌}
use ft_irc.Map.{Map, text_key, lookup, insert}
use ft_irc.Reply.{format_reply, format_reply_with_parameter}
use ft_irc.Reply.IrcNumeric.{err_unknowncommand, err_notregistered}
use ft_irc.Heap.{client, send_to_one}
use ft_irc.Parse.Message.{Message, spliter}
use ft_irc.Server.{Server, on_heap}
use Session.{target_name}
use Session
use Rooms
use ModeCommand

-- The classes that implement `ICommand`.
pub data Command : Type 0 where
  nick pass ping pong quit user invite join kick mode part privmsg topic : Command

-- `needLogin` of each class.
unfoldable pub need_login : Command → Bool
need_login nick = false
need_login pass = false
need_login ping = false
need_login pong = false
need_login quit = false
need_login user = false
need_login invite = true
need_login join = true
need_login kick = true
need_login mode = true
need_login part = true
need_login privmsg = true
need_login topic = true

unfoldable pub execute : Command → ℕ → ℕ → Message → Server → Server
execute nick now c msg = Session.nick now c msg
execute pass now c msg = Session.pass c msg
execute ping now c msg = Session.ping c msg
execute pong now c msg = Session.pong now c
execute quit now c msg = Session.quit now c msg
execute user now c msg = Session.user now c msg
execute invite now c msg = Rooms.invite c msg
execute join now c msg = Rooms.join c msg
execute kick now c msg = Rooms.kick c msg
execute mode now c msg = ModeCommand.mode c msg
execute part now c msg = Rooms.part c msg
execute privmsg now c msg = Rooms.privmsg c msg
execute topic now c msg = Rooms.topic c msg

-- `registerCommand`; the class that stood under the name before is deleted.
abbrev register_command : Text → Command → Map Text Command → Map Text Command
register_command name command commands = insert name command commands

-- `Parser::Parser()`
unfoldable pub commands : Map Text Command
commands =
    []
    ▷ register_command (codes "NICK") nick
    ▷ register_command (codes "PASS") pass
    ▷ register_command (codes "PING") ping
    ▷ register_command (codes "PONG") pong
    ▷ register_command (codes "QUIT") quit
    ▷ register_command (codes "USER") user
    ▷ register_command (codes "INVITE") invite
    ▷ register_command (codes "JOIN") join
    ▷ register_command (codes "KICK") kick
    ▷ register_command (codes "MODE") mode
    ▷ register_command (codes "PART") part
    ▷ register_command (codes "PRIVMSG") privmsg
    ▷ register_command (codes "TOPIC") topic

unfoldable pub dispatch : ℕ → ℕ → Message → Server → Server
dispatch now c message s = elim (lookup message.command commands) [
  | none ↦
      on_heap
        (send_to_one c (
          format_reply_with_parameter err_unknowncommand (target_name s c) message.command
            (codes "Unknown command")))
        s
  | some command ↦
      if need_login command && not (client s.heap c).is_registered
      then on_heap
          (send_to_one c
            (format_reply err_notregistered (codes "*") (codes "You have not registered")))
          s
      else execute command now c message s
]

-- `Parser::operate`: whether the line was a message, and the server after it.
unfoldable pub operate : ℕ → ℕ → Text → Server → Bool × Server
operate now c raw s = elim (spliter raw) [
  | none ↦ (false, s)
  | some msg ↦ (true, dispatch now c msg s)
]
