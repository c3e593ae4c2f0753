-- ===== src/Server/Sweep.antt =====
-- A channel that has lost its last member is deleted.
use ft_irc.Server.Found.{Keeps-delete_channel}
use ft_irc.Reply.{to_lower}
use ft_irc.Server.{on_heap, find_channel, clear_invited_users, delete_channel, Server}
use ft_irc.Heap.{channel}
use ft_irc.Commands.Rooms.{delete_if_empty}
use ft_irc.Channel.{is_channel_empty}
use ft_irc.Server.Deletion.{IsVacant-deleted}
use ft_irc.Server.Keeps.{Keeps, Mostly-of-Keeps, Keeps-refilled, Keeps-and, Mostly, Nobody}
use ft_irc.Server.Vacant.{IsVacant}
use ft_irc.Server.Inv.{Inv}
use ft_irc.Base.{if_both, Text, ℕ, ◌≡◌, refl, subst, true, some, arith}
use ft_irc.Links.Moves.{only}

pub gone :
    (name : Text) (ch : ℕ) (t : Server)
    → Inv t
    → find_channel t name ≡ some ch
    → is_channel_empty (channel t.heap ch) ≡ true
    → ¬ IsVacant (delete_channel name t).heap ch
unfolding delete_channel find_channel
gone name ch t v found empty =
    rw (found, delete_channel)
      (unfold clear_invited_users on_heap in
        λ w. (IsVacant-deleted (to_lower name) ch t v found empty ch w).1 refl)

pub Keeps-swept :
    (ch : ℕ) (name : Text) {s t : Server}
    → Mostly (only ch) Nobody s t
    → find_channel t name ≡ some ch
    → Keeps s (delete_if_empty ch name t)
unfolding delete_if_empty
Keeps-swept ch name {s} {t} m found =
    if_both (Keeps s) (is_channel_empty (channel t.heap ch)) _ _
      (λ e.
        Keeps-refilled
          (Keeps-and m (λ v. Mostly-of-Keeps (
            Keeps-delete_channel name t v
              (λ x f. subst (λ y. is_channel_empty (channel t.heap y) ≡ true) (here x f) e))))
          (λ x at_ch w.
            gone name ch t m.inv found e
              (subst (IsVacant (delete_channel name t).heap) (ground (arith, at_ch)) w)))
      (λ n.
        Keeps-refilled m
          (λ x at_ch w. let same : ch ≡ x = ground (arith, at_ch) in ground (arith, n, same, w.1)))
  where
    here : (x : ℕ) → find_channel t name ≡ some x → ch ≡ x
    here x f = ground (arith, found, f)
