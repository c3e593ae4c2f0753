-- ===== src/Server/Changes.antt =====
-- Moves of the handlers, replies, changes of one client and the farewell before a connection is
-- closed, as what a command keeps.
use ft_irc.Server.{on_heap, Server}
use ft_irc.Heap.{client, channel, on_client, Heap}
use ft_irc.Map.{Map}
use ft_irc.Commands.Session.{answer}
use ft_irc.Client.{Client}
use ft_irc.Heap.Quiet.{IsLiveClient, client-on_client}
use ft_irc.Server.Keeps.{is_trusted, Keeps, Keeps-and, Mostly}
use ft_irc.Server.People.{KeepsPerson-same, KeepsPerson}
use ft_irc.Server.Vacant.{IsVacant-Moves}
use ft_irc.Server.Inv.{Inv-shell, Inv-Moves, Inv-on_client, Inv}
use ft_irc.Server.Disconnect.{disconnect_after_flush}
use ft_irc.Base.{
  ◌==◌, eq_self, Bool-cases, Text, ℕ, ◌≡◌, refl, sym, ap, subst, ◌∙◌, ◌⊎◌, inl, inr, Bool, true,
  false, arith,
}
use ft_irc.Links.Private.{SameHandles-on_client, KeepsLinks}
use ft_irc.Links.Objects.{SameObjects-Moves, IsLiveClient-same, identity-same, Identity}
use ft_irc.Links.Moves.{nowhere, say, Moves}

pub Keeps-Moves :
    {L : ℕ → Bool} {G : ℕ → Type 0} (s : Server) (f : Heap → Heap)
    → Inv s
    → Moves L s.heap (f s.heap)
    → Mostly L G s (on_heap f s)
Keeps-Moves s f v m =
    let same = SameObjects-Moves m in
    record {
      inv = Inv-Moves s f m v;
      same_clients = unfold on_heap in refl;
      still_live = unfold on_heap in IsLiveClient-same _ _ same;
      same_buffer =
          λ p l. unfold on_heap in ap (λ (i : Identity). i.read_buffer) (identity-same _ _ same p);
      same_fd = λ p l. unfold on_heap in ap (λ (i : Identity). i.fd) (identity-same _ _ same p);
      trusted = λ p l.
          unfold on_heap in
          λ e.
            inl
              (sym (ap (λ (i : Identity). i.is_password_verified) (identity-same _ _ same p)) ∙ e);
      no_vacancy = unfold on_heap in IsVacant-Moves m;
    }

pub Keeps-say :
    {G : ℕ → Type 0} (s : Server) (c : ℕ) (message : Text)
    → Inv s
    → Mostly nowhere G s (answer c message s)
Keeps-say s c message v = Keeps-Moves s _ v (say c message s.heap)

client-on_other :
    (p : ℕ) (f : Client → Client) (h : Heap) (q : ℕ)
    → p == q ≡ false
    → client (on_client p f h) q ≡ client h q
unfolding on_client client
client-on_other p f h q other = ground (arith, other)

trusted-on_client :
    (G : ℕ → Type 0) (s : Server) (p : ℕ) (f : Client → Client)
    → ((f (client s.heap p)).is_password_verified ≡ true → (is_trusted s p ≡ true) ⊎ G p)
    → (q : ℕ) → IsLiveClient s.heap q
    → is_trusted (on_heap (on_client p f) s) q ≡ true
    → (is_trusted s q ≡ true) ⊎ G q
unfolding on_heap
trusted-on_client G s p f t q l = elim (Bool-cases (p == q)) [
  | inl same ↦
      subst
        (λ r.
          IsLiveClient s.heap r
          → is_trusted (on_heap (on_client p f) s) r ≡ true
          → (is_trusted s r ≡ true) ⊎ G r)
        (ground (arith, same))
        (λ here e. t (ground (arith, eq_self p, client-on_client p f s.heap p here, e))) l
  | inr other ↦ λ e. inl (ground (arith, client-on_other p f s.heap q other, e))
]

-- A change of a client's own data, but not of its read buffer.
pub Keeps-on_client :
    {G : ℕ → Type 0} (s : Server) (p : ℕ) (f : Client → Client)
    → Inv s
    → KeepsLinks f
    → ((c : Client) → (f c).read_buffer ≡ c.read_buffer)
    → ((f (client s.heap p)).is_password_verified ≡ true → (is_trusted s p ≡ true) ⊎ G p)
    → (IsLiveClient s.heap p → KeepsPerson p f s.heap)
    → Mostly nowhere G s (on_heap (on_client p f) s)
Keeps-on_client {G} s p f v k b t o = record {
  inv = Inv-on_client s p f k o v;
  same_clients = unfold on_heap in refl;
  still_live = λ q. unfold on_heap in (SameHandles-on_client p f s.heap k).live_client q;
  same_buffer = λ q (c, e). unfold on_heap client on_client in ground (arith, b c);
  same_fd = λ q. unfold on_heap in (SameHandles-on_client p f s.heap k).same_fd q;
  trusted = trusted-on_client G s p f t;
  no_vacancy = unfold on_heap on_client channel in λ x n v. v;
}

pub Keeps-closing :
    (s : Server) (closing : Map ℕ Text) → Inv s → Keeps s (record s { closing = closing })
Keeps-closing s closing v = record {
  inv = Inv-shell s s.poll_fds s.to_disconnected closing v;
  same_clients = refl;
  still_live = λ p l. l;
  same_buffer = λ p l. refl;
  same_fd = λ p l. refl;
  trusted = λ p l e. inl e;
  no_vacancy = λ x n v. v;
}

pub Keeps-disconnect_after_flush :
    (now c : ℕ) (reason : Text) (s : Server)
    → Inv s
    → Keeps s (disconnect_after_flush now c reason s)
unfolding disconnect_after_flush
Keeps-disconnect_after_flush now c reason s v = Keeps-and (Keeps-say s c _ v) λ a.
    Keeps-and (Keeps-closing _ _ a) λ b.
      Keeps-on_client _ c _ b
        (record { same_joined = λ x. refl; same_invited = λ x. refl; same_fd = λ x. refl })
        (λ x. refl) (λ e. inl e) (KeepsPerson-same c _ _ (λ x. refl) b.people)
