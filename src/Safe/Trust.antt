-- ===== src/Safe/Trust.antt =====
-- Who comes to be trusted with the server's password: Pass.cpp among the commands of
-- parse/CommandRegistry.cpp.
use ft_irc.Server.{Server}
use ft_irc.Map.{erase, place, insert, text_key, nat_key}
use ft_irc.Commands.{pass, commands, operate}
use ft_irc.Map.Each.{Each, Each-lookup}
use ft_irc.Safe.Lines.{Keeps-operate}
use ft_irc.Commands.Session.{first_param}
use ft_irc.Parse.Message.{spliter, Message}
use ft_irc.Heap.Quiet.{IsLiveClient}
use ft_irc.Server.Keeps.{is_trusted}
use ft_irc.Server.Inv.{Inv}
use ft_irc.Base.{Text, codes, ℕ, ◌≡◌, refl, inl, inr, true, false, some, arith, text_eq, text_lt}

-- PASS is the only name of the command.
named_pass : Each (λ (name : Text) command. command ≡ pass → name ≡ codes "PASS") commands
unfolding commands insert erase place codes text_eq text_lt
named_pass = ground arith

-- If the invariant holds and two clients are there, of which the second has not given the
-- password before a line of the first and has after it, then they are the same client, and the
-- line is parsed to PASS with the server's password as its first parameter.
pub operate-authenticates :
    (now c : ℕ) (raw : Text) (s : Server) (p : ℕ)
    → Inv s
    → IsLiveClient s.heap c
    → IsLiveClient s.heap p
    → is_trusted s p ≡ false
    → is_trusted (operate now c raw s).1 p ≡ true
    → (c ≡ p)
      × (msg : Message) × (spliter raw ≡ some msg)
      × (msg.command ≡ codes "PASS")
      × (first_param msg.parameter ≡ s.password)
operate-authenticates now c raw s p v l lp before after =
    elim ((Keeps-operate now c s v l raw).trusted p lp after) [
      | inl t ↦ absurd (ground (arith, t, before))
      | inr (msg, e, (q, (same, password))) ↦ (
        same,
        msg,
        e,
        Each-lookup (λ (name : Text) command. command ≡ pass → name ≡ codes "PASS") msg.command pass
            commands named_pass q refl,
        password,
      )
    ]
