-- ===== src/Safe/Overdue.antt =====
-- What one turn of `checkIdleClients` of network/Server.cpp decides, branch by branch.
-- A connection that is to be dropped: it has had its time to flush, or to register.
use ft_irc.Server.{on_heap, Server}
use ft_irc.Heap.{client, on_client}
use ft_irc.Map.{lookup, has, text_key, nat_key}
use ft_irc.Safe.Turns.{fd-on_client, fd-disconnect, fd-mark}
use ft_irc.Client.{send_reply, get_idle_time, get_connect_time, get_closing_time, Client}
use ft_irc.Loop.{timeout_seconds, timeout_registration, set_ping_sent, check_idle_client}
use ft_irc.Server.Disconnect.{mark_for_disconnection, disconnect_after_flush}
use ft_irc.Base.{
  ltb, if◌then◌else◌, not, Option-cases, if_both, drop, Text, codes, ℕ, ◌/◌, ◌≡◌, refl, ◌∙◌, inl,
  inr, Bool, true, false, ◌&&◌, arith,
}

abbrev pub overdue : ℕ → Client → Bool → Bool
overdue now c closing =
    if closing
    then ltb 5 (get_closing_time now c)
    else not c.is_registered && ltb timeout_registration (get_connect_time now c)

-- A registered client that has been silent for too long.
abbrev pub expired : ℕ → Client → Bool
expired now c = c.is_registered && ltb timeout_seconds (get_idle_time now c)

-- The two writes of a ping.
abbrev pub pinged : ℕ → Server → Server
pinged q s =
    on_heap (on_client q set_ping_sent)
      (on_heap (on_client q (send_reply (codes "PING :ircserv"))) s)

pub fd-pinged :
    (q : ℕ) (s : Server) (r : ℕ) → (client (pinged q s).heap r).fd ≡ (client s.heap r).fd
unfolding on_heap send_reply
fd-pinged q s r =
    fd-on_client q set_ping_sent _ (λ c. refl) r ∙ fd-on_client q _ s.heap (λ c. refl) r

-- The branches of one turn: the entry is marked, or its client is told that it has expired, or it
-- is pinged, or left alone.
module _ {ℓ} (P : Server → Type ℓ) (now fd q : ℕ) (s : Server) where
  abbrev due : Bool
  due = overdue now (client s.heap q) (has fd s.closing)

  abbrev late : Bool
  late = not (has fd s.closing) && expired now (client s.heap q)

  pub check_idle_client-branches :
      ((reason : Text) → due ≡ true → late ≡ false → P (mark_for_disconnection fd reason s))
      → (due ≡ false → late ≡ true → P (disconnect_after_flush now q (codes "Ping timeout") s))
      → (due ≡ false → late ≡ false → P (pinged q s))
      → (due ≡ false → late ≡ false → P s)
      → P (check_idle_client now fd q s)
  unfolding check_idle_client has
  check_idle_client-branches drop expire ping stay = elim (Option-cases (lookup fd s.closing)) [
    | inr (reason, e) ↦
        rw (e, check_idle_client)
          (if_both P (ltb 5 (get_closing_time now (client s.heap q))) _ _
            (λ d. drop reason (ground (arith, e, d)) (ground (arith, e)))
            (λ d. stay (ground (arith, e, d)) (ground (arith, e))))
    | inl e ↦
        rw (e, check_idle_client)
          (if_both P (not (client s.heap q).is_registered) _ _
            (λ n.
              if_both P (ltb timeout_registration (get_connect_time now (client s.heap q))) _ _
                (λ d. drop _ (ground (arith, e, n, d)) (ground (arith, e, n)))
                (λ d. stay (ground (arith, e, n, d)) (ground (arith, e, n))))
            (λ y.
              if_both P (ltb timeout_seconds (get_idle_time now (client s.heap q))) _ _
                (λ d. expire (ground (arith, e, y)) (ground (arith, e, y, d)))
                (λ d.
                  if_both P
                    (ltb (timeout_seconds / 2) (get_idle_time now (client s.heap q))
                      && not (client s.heap q).ping_sent)
                    _ _ (λ b. ping (ground (arith, e, y)) (ground (arith, e, y, d)))
                    (λ b. stay (ground (arith, e, y)) (ground (arith, e, y, d))))))
  ]

pub fd-check_idle_client :
    (now other q : ℕ) (s : Server) (r : ℕ)
    → (client (check_idle_client now other q s).heap r).fd ≡ (client s.heap r).fd
fd-check_idle_client now other q s r =
    check_idle_client-branches (λ t. (client t.heap r).fd ≡ (client s.heap r).fd) now other q s
      (λ reason d l. fd-mark other reason s r) (λ d l. fd-disconnect now q _ s r)
      (λ d l. fd-pinged q s r) (λ d l. refl)
