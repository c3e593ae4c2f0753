-- ===== src/Safe/Receive.antt =====
-- The invariant through receiveData and its loop over the complete lines.
use ft_irc.Safe.Step.{
  Round-refl, Round-and, Round-of-Keeps, Round-on_client, Round-mark, Round, KeepsSelf,
}
use ft_irc.Server.People.{persona}
use ft_irc.Base.{
  ℕ, zero, suc, ◌<◌, ◌≡◌, refl, true, not, ◌&&◌, ◌||◌, if◌then◌else◌, if_both, Option-cases, inl,
  inr, Text, ltb, ◌▷◌, length, is_empty, codes, arith, find,
}
use ft_irc.Map.{lookup, has, nat_key, text_key}
use ft_irc.Map.Each.{Each-lookup}
use ft_irc.Client.{Client, pop_line, has_complete_line}
use ft_irc.Client.Lines.{length-pop_line, pop_line-links}
use ft_irc.Heap.{client, on_client}
use ft_irc.Heap.Quiet.{IsLiveClient, client-on_client}
use ft_irc.Server.{Server, on_heap}
use ft_irc.Server.Disconnect.{is_marked, mark_for_disconnection}
use ft_irc.Server.Inv.{Inv, ClientEntry}
use ft_irc.Commands.{operate}
use ft_irc.Loop.{
  process_lines, take_bytes, receive_data, Received, pop, failed, received, append_read,
}
use ft_irc.Client.{update_last_activity}
use ft_irc.Safe.Lines.{Keeps-operate}

pop_line-persona : (c : Client) → persona (pop_line c).1 ≡ persona c
unfolding pop_line
pop_line-persona c = elim (Option-cases (find b'\n' c.read_buffer)) [
  | inl f ↦ rw (f, pop_line) refl
  | inr (pos, f) ↦ rw (f, pop_line) refl
]

KeepsSelf-pop : KeepsSelf pop
KeepsSelf-pop = record {
  links = record {
    same_joined = λ c. (pop_line-links c).0;
    same_invited = λ c. (pop_line-links c).1;
    same_fd = λ c. (pop_line-links c).2;
  };
  same_persona = λ c. pop_line-persona c;
}

KeepsSelf-append_read : {bytes : Text} → KeepsSelf (append_read bytes)
KeepsSelf-append_read = record {
  links = record { same_joined = λ x. refl; same_invited = λ x. refl; same_fd = λ x. refl };
  same_persona = λ x. refl;
}

KeepsSelf-update : (now : ℕ) → KeepsSelf (update_last_activity now)
unfolding update_last_activity
KeepsSelf-update now = record {
  links = record { same_joined = λ x. refl; same_invited = λ x. refl; same_fd = λ x. refl };
  same_persona = λ x. refl;
}

module _ (now fd p : ℕ) where
  -- Handling one line.
  Round-line :
      (s : Server) (line : Text)
      → Inv s
      → IsLiveClient s.heap p
      → Round s (
          let s' = on_heap (on_client p pop) s in
          if is_empty line then s' else (operate now p line s').1)
  Round-line s line v l = Round-and (Round-on_client p pop s KeepsSelf-pop v) λ a.
      if_both (Round _) (is_empty line) _ _ (λ e. Round-refl _ a)
        (λ e.
          Round-of-Keeps (
            Keeps-operate now p _ a ((Round-on_client p pop s KeepsSelf-pop v).still_live p l)
              line))

  pub Round-process_lines :
      (fuel : ℕ) (s : Server)
      → Inv s
      → IsLiveClient s.heap p
      → Round s (process_lines fuel now fd p s)
  unfolding process_lines
  Round-process_lines zero s v l = Round-refl s v
  Round-process_lines (suc fuel) s v l =
      let first = Round-line s (pop_line (client s.heap p)).0 v l in
      if_both (Round s)
        (not (is_marked s fd) && has_complete_line (client s.heap p) && not (has fd s.closing)) _ _
        (λ go. Round-and first (λ a. Round-process_lines fuel _ a (first.still_live p l)))
        (λ stop. Round-refl s v)

  -- A line shortens the read buffer, and its command does not touch it.
  shorter :
      (s : Server) (line : Text)
      → Inv s
      → IsLiveClient s.heap p
      → has_complete_line (client s.heap p) ≡ true
      → length
          (client
            (let s' = on_heap (on_client p pop) s in
              if is_empty line then s' else (operate now p line s').1).heap
            p).read_buffer
        < length (client s.heap p).read_buffer
  shorter s line v l e =
      let popped = Round-on_client p pop s KeepsSelf-pop v in
      let step : length (client (on_heap (on_client p pop) s).heap p).read_buffer
          < length (client s.heap p).read_buffer =
        unfold on_heap in
        ground (arith, client-on_client p pop s.heap p l, length-pop_line (client s.heap p) e) in
      if_both
        (λ (t : Server).
          length (client t.heap p).read_buffer < length (client s.heap p).read_buffer)
        (is_empty line) _ _ (λ q. step)
        (λ q.
          rw
            ((Keeps-operate now p _ popped.inv (popped.still_live p l) line).same_buffer p
              (popped.still_live p l))
            step)

  -- If the invariant holds, client p is there and the fuel is more than the bytes in its read
  -- buffer, then after the loop over the lines the descriptor is marked, or p has no complete
  -- line left, or the descriptor is closing.
  pub process_lines-finishes :
      (fuel : ℕ) (s : Server)
      → Inv s
      → IsLiveClient s.heap p
      → length (client s.heap p).read_buffer < fuel
      → let t : Server = process_lines fuel now fd p s in
        (is_marked t fd || not (has_complete_line (client t.heap p)) || has fd t.closing) ≡ true
  unfolding process_lines
  process_lines-finishes zero s v l b = absurd (omega (arith, b))
  process_lines-finishes (suc fuel) s v l b =
      let line = (pop_line (client s.heap p)).0 in
      let first = Round-line s line v l in
      if_both
        (λ (t : Server).
          (is_marked t fd || not (has_complete_line (client t.heap p)) || has fd t.closing) ≡ true)
        (not (is_marked s fd) && has_complete_line (client s.heap p) && not (has fd s.closing)) _ _
        (λ go.
          process_lines-finishes fuel _ first.inv (first.still_live p l)
            (omega (arith, b, shorter s line v l (ground (arith, go)))))
        (λ stop. ground (arith, stop))

  abbrev two : Text → Server → Server
  two bytes s =
      on_heap (on_client p (append_read bytes)) s ▷ on_heap (on_client p (update_last_activity now))

  Round-take_bytes :
      (bytes : Text) (s : Server)
      → Inv s
      → IsLiveClient s.heap p
      → Round s (take_bytes now fd p bytes s)
  unfolding take_bytes update_last_activity
  Round-take_bytes bytes s v l =
      if_both (Round s) (is_empty bytes) _ _ (λ e. Round-mark fd _ s v)
        (λ e.
          if_both (Round s) (has fd s.closing) _ _ (λ q. Round-refl s v)
            (λ q.
              let both =
                Round-and (Round-on_client p (append_read bytes) s KeepsSelf-append_read v)
                  (λ a. Round-on_client p (update_last_activity now) _ (KeepsSelf-update now) a) in
              Round-and both (λ a.
                if_both (Round _)
                  (ltb 8192 (length (client (two bytes s).heap p).read_buffer)
                    && not (has_complete_line (client (two bytes s).heap p)))
                  _ _ (λ n. Round-mark fd _ _ a)
                  (λ n. Round-process_lines _ _ a (both.still_live p l)))))

-- If the invariant holds, it holds after receiving on any descriptor, whatever `recv` reports;
-- the table of connections stays, and every client that is there stays; and a channel that is
-- without members then was so before.
pub Round-receive_data :
    (now fd : ℕ) (r : Received) (s : Server) → Inv s → Round s (receive_data now fd r s)
unfolding receive_data
Round-receive_data now fd r s v = elim (Option-cases (lookup fd s.clients)) [
  | inl e ↦ rw (e, receive_data) (Round-refl s v)
  | inr (p, e) ↦
      rw (e, receive_data)
        (by_report p r (Each-lookup (ClientEntry s.heap) fd p s.clients v.clients_in e).0)
]
  where
    by_report :
        (p : ℕ) (q : Received)
        → IsLiveClient s.heap p
        → Round s (elim q [
          | failed ↦ mark_for_disconnection fd (codes "Receive error") s
          | received bytes ↦ take_bytes now fd p bytes s
        ])
    by_report p failed l = Round-mark fd _ s v
    by_report p (received bytes) l = Round-take_bytes now fd p bytes s v l
