-- ===== src/Safe/Turns.antt =====
-- What a turn of `checkIdleClients` of network/Server.cpp leaves of the entries of the other
-- connections.
-- What another entry's turn leaves of an entry.
use ft_irc.Server.{on_heap, Server}
use ft_irc.Heap.{client, on_client, send_to_one, Heap}
use ft_irc.Map.{insert, has, lookup-insert, text_key, nat_key}
use ft_irc.Client.{send_reply, Client}
use ft_irc.Server.Disconnect.{is_marked, mark_for_disconnection, disconnect_after_flush}
use ft_irc.Base.{◌==◌, Option-cases, Text, ℕ, ◌≡◌, refl, ◌∙◌, inl, inr, false, arith}

pub record Untouched (fd p : ℕ) (s t : Server) : Type 0 where
  pub same_client : client t.heap p ≡ client s.heap p
  pub same_mark : is_marked t fd ≡ is_marked s fd
  pub same_closing : has fd t.closing ≡ has fd s.closing

pub Untouched-trans :
    {fd p : ℕ} {s t u : Server} → Untouched fd p s t → Untouched fd p t u → Untouched fd p s u
Untouched-trans a b = record {
  same_client = b.same_client ∙ a.same_client;
  same_mark = b.same_mark ∙ a.same_mark;
  same_closing = b.same_closing ∙ a.same_closing;
}

module _ (fd p : ℕ) where
  pub Untouched-refl : (s : Server) → Untouched fd p s s
  Untouched-refl s = record { same_client = refl; same_mark = refl; same_closing = refl }

  pub Untouched-mark :
      (other : ℕ) (reason : Text) (s : Server)
      → other == fd ≡ false
      → Untouched fd p s (mark_for_disconnection other reason s)
  unfolding mark_for_disconnection is_marked has
  Untouched-mark other reason s n = record {
    same_client = ground arith;
    same_mark = ground (arith, n, lookup-insert other fd reason s.to_disconnected);
    same_closing = ground arith;
  }

  pub Untouched-on_client :
      (q : ℕ) (f : Client → Client) (s : Server)
      → q == p ≡ false
      → Untouched fd p s (on_heap (on_client q f) s)
  unfolding on_heap on_client client is_marked
  Untouched-on_client q f s n = record {
    same_client = ground (arith, n);
    same_mark = refl;
    same_closing = refl;
  }

  pub Untouched-close :
      (other : ℕ) (reason : Text) (s : Server)
      → other == fd ≡ false
      → Untouched fd p s (record s { closing = insert other reason s.closing })
  unfolding has is_marked
  Untouched-close other reason s n = record {
    same_client = refl;
    same_mark = refl;
    same_closing = ground (arith, n, lookup-insert other fd reason s.closing);
  }

-- Descriptors stay.
pub fd-on_client :
    (q : ℕ) (f : Client → Client) (h : Heap)
    → ((c : Client) → (f c).fd ≡ c.fd)
    → (r : ℕ) → (client (on_client q f h) r).fd ≡ (client h r).fd
unfolding on_client client
fd-on_client q f h same r = elim (Option-cases (h.client_at r)) [
  | inl e ↦ ground (arith, e)
  | inr (c, e) ↦ ground (arith, e, same c)
]

pub fd-disconnect :
    (now q : ℕ) (reason : Text) (s : Server) (r : ℕ)
    → (client (disconnect_after_flush now q reason s).heap r).fd ≡ (client s.heap r).fd
unfolding disconnect_after_flush on_heap send_to_one send_reply
fd-disconnect now q reason s r =
    fd-on_client q _ _ (λ c. refl) r ∙ fd-on_client q _ s.heap (λ c. refl) r

pub fd-mark :
    (fd : ℕ) (reason : Text) (s : Server) (r : ℕ)
    → (client (mark_for_disconnection fd reason s).heap r).fd ≡ (client s.heap r).fd
unfolding mark_for_disconnection
fd-mark fd reason s r = ground arith
