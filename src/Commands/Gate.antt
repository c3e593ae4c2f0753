-- ===== src/Commands/Gate.antt =====
-- What a client that is not registered can reach: dispatch of parse/CommandRegistry.cpp.
use ft_irc.Reply.{format_reply, format_reply_with_parameter}
use ft_irc.Heap.{client}
use ft_irc.Commands.Alone.{
  IsAlone-answer, IsAlone-nick, IsAlone-pass, IsAlone-ping, IsAlone-pong, IsAlone-quit,
  IsAlone-user, IsAlone,
}
use ft_irc.Commands.Session.{target_name, answer}
use ft_irc.Reply.IrcNumeric.{err_unknowncommand, err_notregistered}
use ft_irc.Commands.Session
use mathlib.Core.Option
use ft_irc.Server.{Server}
use ft_irc.Map.{Map, lookup, erase, place, insert, text_key, nat_key}
use ft_irc.Parse.Message.{Message}
use ft_irc.Base.{
  ◌≡◌, if◌then◌else◌, Text, codes, text_eq, text_lt, ℕ, refl, Option, [], ◌∷◌, arith, Bool-cases,
  Option-cases, sym, ap, ◌∙◌, inl, inr, false, none, some,
}
use ft_irc.Commands.{
  Command, nick, pass, ping, pong, quit, user, commands, need_login, execute, dispatch,
}

-- What stands before the command of a name: nothing but the command, or the registration.
pub data Gate : Type 0 where
  opened : (ℕ → ℕ → Message → Server → Server) → Gate
  after_login : Gate

-- The names, in the order of a `std::map`, and what each leads to.
abbrev pub gates : Map Text Gate
gates =
    (codes "INVITE", after_login)
    ∷ (codes "JOIN", after_login)
    ∷ (codes "KICK", after_login)
    ∷ (codes "MODE", after_login)
    ∷ (codes "NICK", opened Session.nick)
    ∷ (codes "PART", after_login)
    ∷ (codes "PASS", opened (λ now. Session.pass))
    ∷ (codes "PING", opened (λ now. Session.ping))
    ∷ (codes "PONG", opened (λ now c msg. Session.pong now c))
    ∷ (codes "PRIVMSG", after_login)
    ∷ (codes "QUIT", opened Session.quit)
    ∷ (codes "TOPIC", after_login)
    ∷ (codes "USER", opened Session.user)
    ∷ []

gate_of : Command → Gate
gate_of command = if need_login command then after_login else opened (execute command)

gate_each : Map Text Command → Map Text Gate
gate_each [] = []
gate_each ((name, command) ∷ more) = (name, gate_of command) ∷ gate_each more

gates_lem : gate_each commands ≡ gates
unfolding gate_each gate_of commands need_login execute insert erase place codes text_eq text_lt
gates_lem = refl

lookup-gate_each :
    (name : Text) (m : Map Text Command)
    → lookup name (gate_each m) ≡ Option.map gate_of (lookup name m)
unfolding gate_each lookup
lookup-gate_each name [] = refl
lookup-gate_each name ((j, command) ∷ m) = ground (arith, lookup-gate_each name m)

module _ (now c : ℕ) (msg : Message) (s : Server) where
  -- What becomes of a message of a client that is not registered.
  abbrev pub pass_gate : Option Gate → Server
  pass_gate none =
      answer c
        (format_reply_with_parameter err_unknowncommand (codes "*") msg.command
          (codes "Unknown command"))
        s
  pass_gate (some after_login) =
      answer c (format_reply err_notregistered (codes "*") (codes "You have not registered")) s
  pass_gate (some (opened handler)) = handler now c msg s

  module _ (unregistered : (client s.heap c).is_registered ≡ false) where
    dispatch-through :
        dispatch now c msg s ≡ pass_gate (Option.map gate_of (lookup msg.command commands))
    unfolding dispatch gate_of target_name
    dispatch-through = elim (Option-cases (lookup msg.command commands)) [
      | inl e ↦ rw (e, dispatch, unregistered) refl
      | inr (command, e) ↦ elim (Bool-cases (need_login command)) [
        | inl n ↦ rw (e, dispatch, n, unregistered) refl
        | inr n ↦ rw (e, dispatch, n) refl
      ]
    ]

    IsAlone-execute :
        (command : Command) → need_login command ≡ false → IsAlone c s (execute command now c msg s)
    unfolding execute need_login
    IsAlone-execute nick n = IsAlone-nick c s unregistered now msg
    IsAlone-execute pass n = IsAlone-pass c s unregistered msg
    IsAlone-execute ping n = IsAlone-ping c s unregistered msg
    IsAlone-execute pong n = IsAlone-pong c s unregistered now
    IsAlone-execute quit n = IsAlone-quit c s unregistered now msg
    IsAlone-execute user n = IsAlone-user c s unregistered now msg
    IsAlone-execute _ n = cc

    IsAlone-dispatch : IsAlone c s (dispatch now c msg s)
    unfolding dispatch
    IsAlone-dispatch = elim (Option-cases (lookup msg.command commands)) [
      | inl e ↦ rw (e, dispatch) (IsAlone-answer c _ s)
      | inr (command, e) ↦ elim (Bool-cases (need_login command)) [
        | inl n ↦ rw (e, dispatch, n, unregistered) (IsAlone-answer c _ s)
        | inr n ↦ rw (e, dispatch, n) (IsAlone-execute command n)
      ]
    ]

    -- If a client is not registered, a message of it runs NICK, PASS, PING, PONG, QUIT or USER
    -- if that is its command, by exactly that name, is answered with 451 and nothing else if it
    -- is INVITE, JOIN, KICK, MODE, PART, PRIVMSG or TOPIC, and with 421 and nothing else at any
    -- other name; and in each case the channels, the maps of channels and of connections, the
    -- marked descriptors, the password, the descriptor of the client, what is noted of the other
    -- closing descriptors and every other client, its write buffer included, stay as they were.
    pub dispatch-gate :
        (dispatch now c msg s ≡ pass_gate (lookup msg.command gates))
        × IsAlone c s (dispatch now c msg s)
    dispatch-gate = (
      dispatch-through
          ∙ ap pass_gate (sym (lookup-gate_each msg.command commands))
          ∙ ap (λ m. pass_gate (lookup msg.command m)) gates_lem,
      IsAlone-dispatch,
    )
