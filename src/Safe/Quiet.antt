-- ===== src/Safe/Quiet.antt =====
-- What the session commands leave alone: the nicknames, and the write buffers of the others.
use ft_irc.Client.Registration.{nickname-try_complete_registration}
use ft_irc.Server.{on_heap, Server}
use ft_irc.Heap.{client, on_client, send_to_one}
use ft_irc.Map.{Map}
use ft_irc.Commands.Session.{answer, complete}
use ft_irc.Client.{new_client, try_complete_registration, is_missing_password, Client}
use ft_irc.Heap.Silent.{client-silent}
use ft_irc.Heap.Delivery.{sent_to}
use ft_irc.Heap.Quiet.{quiet-send_to_one}
use ft_irc.Server.Disconnect.{disconnect_after_flush, disconnect_client}
use ft_irc.Base.{◌==◌, Option-cases, if_both, Text, ℕ, ◌≡◌, refl, ap, ◌∙◌, inl, inr, false, arith}

abbrev pub name_at : Server → ℕ → Text
name_at s p = (client s.heap p).nickname

-- Names are as before, and nothing is sent to anyone but c.
pub record Quiet (c : ℕ) (s t : Server) : Type 0 where
  pub same_name : (p : ℕ) → name_at t p ≡ name_at s p
  pub same_sent : (p : ℕ) → c == p ≡ false → sent_to t.heap p ≡ sent_to s.heap p

Quiet-trans : {c : ℕ} {s t u : Server} → Quiet c s t → Quiet c t u → Quiet c s u
Quiet-trans a b = record {
  same_name = λ p. b.same_name p ∙ a.same_name p;
  same_sent = λ p n. b.same_sent p n ∙ a.same_sent p n;
}

pub Quiet-answer : (c : ℕ) (message : Text) (s : Server) → Quiet c s (answer c message s)
unfolding on_heap send_to_one on_client client
Quiet-answer c message s = record {
  same_name = λ p.
      ap (λ (k : Client). k.nickname)
        (client-silent s.heap _ (quiet-send_to_one c message s.heap) p);
  same_sent = λ p n. ground (arith, n);
}

Quiet-on_client :
    (c : ℕ) (f : Client → Client) (s : Server)
    → ((k : Client) → (f k).nickname ≡ k.nickname)
    → Quiet c s (on_heap (on_client c f) s)
unfolding on_heap on_client client new_client
Quiet-on_client c f s same = record {
  same_name = λ p. elim (Option-cases (s.heap.client_at p)) [
    | inl e ↦ ground (arith, e)
    | inr (k, e) ↦ ground (arith, e, same k)
  ];
  same_sent = λ p n. ground (arith, n);
}

Quiet-disconnect :
    (now c : ℕ) (reason : Text) (s : Server) → Quiet c s (disconnect_client now c reason s)
unfolding disconnect_client disconnect_after_flush
Quiet-disconnect now c reason s =
    let t : Server = answer c _ s in
    Quiet-trans (Quiet-answer c _ s)
      (Quiet-trans (Quiet-closing t _) (Quiet-on_client c _ _ (λ k. refl)))
  where
    Quiet-closing : (t : Server) (closing : Map ℕ Text) → Quiet c t (record t { closing = closing })
    Quiet-closing t closing = record { same_name = λ p. refl; same_sent = λ p n. refl }

Quiet-refl : (c : ℕ) (s : Server) → Quiet c s s
Quiet-refl c s = record { same_name = λ p. refl; same_sent = λ p n. refl }

pub Quiet-complete : (now c : ℕ) (s : Server) → Quiet c s (complete now c s)
unfolding complete
Quiet-complete now c s =
    let tried = Quiet-on_client c try_complete_registration s nickname-try_complete_registration in
    if_both (Quiet c s)
      (is_missing_password (client (on_heap (on_client c try_complete_registration) s).heap c)) _ _
      (λ e. Quiet-trans tried (Quiet-trans (Quiet-answer c _ _) (Quiet-disconnect now c _ _)))
      (λ e. tried)
