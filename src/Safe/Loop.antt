-- ===== src/Safe/Loop.antt =====
-- The invariant through sendData, checkIdleClients and refreshPollEvents.
use ft_irc.Server.Changes.{Keeps-disconnect_after_flush}
use ft_irc.Safe.Step.{
  Round-refl, Round-and, Round-of-Keeps, Round-on_client, Round-mark, Round, KeepsSelf,
}
use ft_irc.Base.{
  ℕ, ◌/◌, ltb, ◌==◌, ◌&&◌, not, if_both, Option-cases, inl, inr, refl, Option, none, some, List, [],
  ◌∷◌, codes, is_empty, if◌then◌else◌, length, Text,
}
use ft_irc.Map.{Map, lookup, nat_key, text_key}
use ft_irc.Client.{send_reply, get_closing_time, get_connect_time, get_idle_time}
use ft_irc.Heap.{client, on_client}
use ft_irc.Server.{Server, PollFd, on_heap}
use ft_irc.Server.Inv.{Inv, Inv-shell}
use ft_irc.Server.Disconnect.{mark_for_disconnection}
use ft_irc.Loop.{
  finish_closing, send_data, erase_sent, check_idle_client, check_idle_each, check_idle_clients,
  set_ping_sent, timeout_seconds, timeout_registration, refresh_poll_fd, refresh_poll_fds,
  refresh_poll_events, max_sendq,
}

Round-closing : (s : Server) (m : Map ℕ Text) → Inv s → Round s (record s { closing = m })
Round-closing s m v = record {
  inv = Inv-shell s s.poll_fds s.to_disconnected m v;
  same_clients = refl;
  still_live = λ p l. l;
  no_vacancy = λ x w. w;
}

Round-polls : (s : Server) (polls : List PollFd) → Inv s → Round s (record s { poll_fds = polls })
Round-polls s polls v = record {
  inv = Inv-shell s polls s.to_disconnected s.closing v;
  same_clients = refl;
  still_live = λ p l. l;
  no_vacancy = λ x w. w;
}

Round-finish_closing : (fd : ℕ) (s : Server) → Inv s → Round s (finish_closing fd s)
unfolding finish_closing
Round-finish_closing fd s v = elim (Option-cases (lookup fd s.closing)) [
  | inl e ↦ rw (e, finish_closing) (Round-refl s v)
  | inr (reason, e) ↦
      rw (e, finish_closing) (Round-and (Round-mark fd reason s v) (λ a. Round-closing _ _ a))
]

-- If the invariant holds, it holds after sending on any descriptor, whatever `send` reports; the
-- table of connections stays, and every client that is there stays; and a channel that is
-- without members then was so before.
pub Round-send_data :
    (fd : ℕ) (sent : Option ℕ) (s : Server) → Inv s → Round s (send_data fd sent s)
unfolding send_data
Round-send_data fd sent s v = elim (Option-cases (lookup fd s.clients)) [
  | inl e ↦ rw (e, send_data) (Round-refl s v)
  | inr (p, e) ↦
      rw (e, send_data)
        (if_both (Round s) (is_empty (client s.heap p).write_buffer) _ _ (λ q. Round-refl s v)
          (λ q. by_report p sent))
]
  where
    by_report :
        (p : ℕ) (sent : Option ℕ)
        → Round s (elim sent [
          | none ↦ mark_for_disconnection fd (codes "Send error") s
          | some n ↦
              (let s' = on_heap (on_client p (erase_sent n)) s in
                if is_empty (client s'.heap p).write_buffer then finish_closing fd s' else s')
        ])
    by_report p none = Round-mark fd _ s v
    by_report p (some n) =
        Round-and
          (Round-on_client p (erase_sent n) s
            (record {
              links = record {
                same_joined = λ x. refl;
                same_invited = λ x. refl;
                same_fd = λ x. refl;
              };
              same_persona = λ x. refl;
            })
            v)
          (λ a.
            if_both (Round _)
              (is_empty (client (on_heap (on_client p (erase_sent n)) s).heap p).write_buffer) _ _
              (λ q. Round-finish_closing fd _ a) (λ q. Round-refl _ a))

pub Round-check_idle_client :
    (now fd p : ℕ) (s : Server) → Inv s → Round s (check_idle_client now fd p s)
unfolding check_idle_client
Round-check_idle_client now fd p s v = elim (Option-cases (lookup fd s.closing)) [
  | inr (reason, e) ↦
      rw (e, check_idle_client)
        (if_both (Round s) (ltb 5 (get_closing_time now (client s.heap p))) _ _
          (λ q. Round-mark fd reason s v) (λ q. Round-refl s v))
  | inl e ↦
      rw (e, check_idle_client)
        (if_both (Round s) (not (client s.heap p).is_registered) _ _
          (λ n.
            if_both (Round s) (ltb timeout_registration (get_connect_time now (client s.heap p))) _
              _ (λ q. Round-mark fd _ s v) (λ q. Round-refl s v))
          (λ r.
            if_both (Round s) (ltb timeout_seconds (get_idle_time now (client s.heap p))) _ _
              (λ q. Round-of-Keeps (Keeps-disconnect_after_flush now p _ s v))
              (λ q.
                if_both (Round s)
                  (ltb (timeout_seconds / 2) (get_idle_time now (client s.heap p))
                    && not (client s.heap p).ping_sent)
                  _ _
                  (λ y.
                    Round-and (Round-on_client p (send_reply (codes "PING :ircserv")) s own_reply v)
                      (λ a. Round-on_client p set_ping_sent _ own a))
                  (λ y. Round-refl s v))))
]
  where
    own : KeepsSelf set_ping_sent
    own = record {
      links = record { same_joined = λ x. refl; same_invited = λ x. refl; same_fd = λ x. refl };
      same_persona = λ x. refl;
    }

    own_reply : KeepsSelf (send_reply (codes "PING :ircserv"))
    own_reply =
        unfold send_reply in
        record {
          links = record { same_joined = λ x. refl; same_invited = λ x. refl; same_fd = λ x. refl };
          same_persona = λ x. refl;
        }

Round-check_idle_each :
    (now : ℕ) (m : Map ℕ ℕ) (s : Server) → Inv s → Round s (check_idle_each now m s)
unfolding check_idle_each
Round-check_idle_each now [] s v = Round-refl s v
Round-check_idle_each now ((fd, p) ∷ rest) s v =
    Round-and (Round-check_idle_client now fd p s v) (λ a. Round-check_idle_each now rest _ a)

-- If the invariant holds, it holds after the idle checks at any time; the table of connections
-- stays, and every client that is there stays; and a channel that is without members then was so
-- before.
pub Round-check_idle_clients : (now : ℕ) (s : Server) → Inv s → Round s (check_idle_clients now s)
unfolding check_idle_clients
Round-check_idle_clients now s v = Round-check_idle_each now s.clients s v

Round-refresh_poll_fd : (poll : PollFd) (s : Server) → Inv s → Round s (refresh_poll_fd poll s).1
unfolding refresh_poll_fd
Round-refresh_poll_fd poll s v =
    if_both (λ (r : PollFd × Server). Round s r.1) (poll.fd == s.server_fd) _ _
      (λ e. Round-refl s v)
      (λ e. elim (Option-cases (lookup poll.fd s.clients)) [
        | inl f ↦ rw f (Round-refl s v)
        | inr (p, f) ↦ rw f (
            if_both (λ (r : PollFd × Server). Round s r.1)
              (ltb max_sendq (length (client s.heap p).write_buffer)) _ _
              (λ q. Round-mark poll.fd _ s v)
              (λ q.
                if_both (λ (r : PollFd × Server). Round s r.1)
                  (not (is_empty (client s.heap p).write_buffer)) _ _ (λ y. Round-refl s v)
                  (λ y. Round-refl s v)))
      ])

Round-refresh_poll_fds :
    (polls : List PollFd) (s : Server) → Inv s → Round s (refresh_poll_fds polls s).1
unfolding refresh_poll_fds
Round-refresh_poll_fds [] s v = Round-refl s v
Round-refresh_poll_fds (poll ∷ rest) s v =
    Round-and (Round-refresh_poll_fd poll s v) (λ a. Round-refresh_poll_fds rest _ a)

-- If the invariant holds, it holds after the poll events are refreshed; the table of connections
-- stays, and every client that is there stays; and a channel that is without members then was so
-- before.
pub Round-refresh_poll_events : (s : Server) → Inv s → Round s (refresh_poll_events s)
unfolding refresh_poll_events
Round-refresh_poll_events s v =
    Round-and (Round-refresh_poll_fds s.poll_fds s v) (λ a. Round-polls _ _ a)
