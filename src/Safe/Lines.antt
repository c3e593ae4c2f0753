-- ===== src/Safe/Lines.antt =====
-- The invariant through parse/Parser.cpp and parse/CommandRegistry.cpp.
use ft_irc.Server.Changes.{Keeps-say}
use ft_irc.Links.Moves.{nowhere}
use ft_irc.Base.{
  ℕ, Option-cases, Text, not, ◌&&◌, if_both, inl, inr, ◌≡◌, false, arith, refl, ap, ◌∙◌, some,
}
use ft_irc.Map.{lookup, text_key, nat_key}
use ft_irc.Heap.{client}
use ft_irc.Heap.Quiet.{IsLiveClient}
use ft_irc.Parse.Message.{Message, spliter}
use ft_irc.Server.{Server}
use ft_irc.Server.Inv.{Inv}
use ft_irc.Server.Keeps.{Keeps-refl, Mostly-of-Keeps, Mostly-allow, Mostly}
use ft_irc.Commands.{Command, execute, dispatch, operate, commands, need_login}
use ft_irc.Commands.{
  nick, pass, ping, pong, quit, user, invite, join, kick, mode, part, privmsg, topic,
}
use ft_irc.Safe.Session.{
  Keeps-nick, Keeps-pass, Keeps-ping, Keeps-pong, Keeps-quit, Keeps-user, Opens,
}
use ft_irc.Safe.Rooms.{Keeps-invite, Keeps-kick, Keeps-part, Keeps-privmsg, Keeps-topic}
use ft_irc.Safe.ModeCommand.{Keeps-mode}
use ft_irc.Safe.Join.{Keeps-join}

-- The client that may come to be trusted by a message, and by a line.
abbrev Authenticates : ℕ → Server → Message → ℕ → Type 0
Authenticates c s msg p = (lookup msg.command commands ≡ some pass) × Opens c msg s p

abbrev pub GivesPassword : ℕ → Server → Text → ℕ → Type 0
GivesPassword c s raw p = (msg : Message) × (spliter raw ≡ some msg) × Authenticates c s msg p

module _ (now c : ℕ) (s : Server) (v : Inv s) (l : IsLiveClient s.heap c) where
  pub Keeps-execute :
      (command : Command) (msg : Message)
      → (need_login command && not (client s.heap c).is_registered) ≡ false
      → Mostly nowhere (λ p. (command ≡ pass) × Opens c msg s p) s (execute command now c msg s)
  unfolding execute
  Keeps-execute nick msg g = Mostly-of-Keeps (Keeps-nick now c msg s v)
  Keeps-execute pass msg g = Mostly-allow (λ p g. (refl, g)) (Keeps-pass c msg s v)
  Keeps-execute ping msg g = Mostly-of-Keeps (Keeps-ping c msg s v)
  Keeps-execute pong msg g = Mostly-of-Keeps (Keeps-pong now c s v)
  Keeps-execute quit msg g = Mostly-of-Keeps (Keeps-quit now c msg s v)
  Keeps-execute user msg g = Mostly-of-Keeps (Keeps-user now c msg s v)
  Keeps-execute invite msg g = Mostly-of-Keeps (Keeps-invite c msg s v)
  Keeps-execute join msg g =
      Mostly-of-Keeps (Keeps-join c msg s v l (unfold need_login in ground (arith, g)))
  Keeps-execute kick msg g = Mostly-of-Keeps (Keeps-kick c msg s v)
  Keeps-execute mode msg g = Mostly-of-Keeps (Keeps-mode c msg s v)
  Keeps-execute part msg g = Mostly-of-Keeps (Keeps-part c s l v msg)
  Keeps-execute privmsg msg g = Mostly-of-Keeps (Keeps-privmsg c msg s v)
  Keeps-execute topic msg g = Mostly-of-Keeps (Keeps-topic c msg s v)

  -- If the invariant holds and client c is there, it holds after any message that c sends; the
  -- table of connections stays, and every client that is there stays, with its descriptor and
  -- read buffer; and a channel that is without members then was so before.
  Keeps-dispatch : (msg : Message) → Mostly nowhere (Authenticates c s msg) s (dispatch now c msg s)
  unfolding dispatch
  Keeps-dispatch msg = elim (Option-cases (lookup msg.command commands)) [
    | inl e ↦ rw (e, dispatch) (Keeps-say s c _ v)
    | inr (command, e) ↦
        rw (e, dispatch)
          (if_both (Mostly nowhere (Authenticates c s msg) s)
            (need_login command && not (client s.heap c).is_registered) _ _ (λ n. Keeps-say s c _ v)
            (λ n. Mostly-allow (λ p g. (e ∙ ap some g.0, g.1)) (Keeps-execute command msg n)))
  ]

  -- If the invariant holds and client c is there, it holds after any line that c sends; the
  -- table of connections stays, and every client that is there stays, with its descriptor and
  -- read buffer; who has given the server's password then had given it before, or is c and the
  -- line is PASS with that password; and a channel that is without members then was so before.
  pub Keeps-operate :
      (raw : Text) → Mostly nowhere (GivesPassword c s raw) s (operate now c raw s).1
  unfolding operate
  Keeps-operate raw = elim (Option-cases (spliter raw)) [
    | inl e ↦ rw (e, operate) (Mostly-of-Keeps (Keeps-refl s v))
    | inr (msg, e) ↦ rw (e, operate) (Mostly-allow (λ p g. (msg, e, g)) (Keeps-dispatch msg))
  ]
