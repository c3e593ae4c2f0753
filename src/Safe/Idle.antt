-- ===== src/Safe/Idle.antt =====
-- What `checkIdleClients` of network/Server.cpp decides about each connection.
use ft_irc.Safe.Overdue.{overdue, expired, check_idle_client-branches, fd-check_idle_client}
use ft_irc.Safe.Turns.{
  Untouched-trans, Untouched-refl, Untouched-mark, Untouched-on_client, Untouched-close,
  fd-on_client, Untouched,
}
use ft_irc.Server.Inv.{Inv}
use ft_irc.Map.Each.{Each, Each-map, Each-lookup}
use ft_irc.Server.{on_heap, Server}
use ft_irc.Heap.{client, send_to_one, Heap}
use ft_irc.Map.{insert, has, lookup-insert, text_key, nat_key, lookup, Map, UniqueKeys}
use ft_irc.Client.{send_reply}
use ft_irc.Loop.{check_idle_client, check_idle_each, check_idle_clients}
use ft_irc.Server.Disconnect.{is_marked, mark_for_disconnection, disconnect_after_flush}
use ft_irc.Base.{
  ◌==◌, not, Text, ℕ, ◌≡◌, refl, ◌∙◌, false, ◌&&◌, arith, codes, inl, inr, true, ◌||◌, ==_iff,
  Bool-cases, some, [], ◌∷◌, sym, ap, subst,
}

fd-send_to_one :
    (q : ℕ) (message : Text) (h : Heap) (r : ℕ)
    → (client (send_to_one q message h) r).fd ≡ (client h r).fd
unfolding send_to_one send_reply
fd-send_to_one q message h r = fd-on_client q _ h (λ c. refl) r

-- The client has been sent a message, and its descriptor is noted.
abbrev noted : ℕ → Text → Text → Server → Server
noted q message reason s =
    let t : Server = on_heap (send_to_one q message) s in
    record t { closing = insert (client t.heap q).fd reason t.closing }

has-noted :
    (fd q : ℕ) (message reason : Text) (s : Server)
    → (client s.heap q).fd ≡ fd
    → has fd (noted q message reason s).closing ≡ true
unfolding on_heap has
has-noted fd q message reason s e =
    let same : (client (send_to_one q message s.heap) q).fd ≡ fd =
      fd-send_to_one q message s.heap q ∙ e in
    ground
      (arith, same, lookup-insert (client (send_to_one q message s.heap) q).fd fd reason s.closing)

module _ (now fd p : ℕ) where
  Untouched-noted :
      (other q : ℕ) (message reason : Text) (s : Server)
      → other == fd ≡ false
      → q == p ≡ false
      → (client s.heap q).fd ≡ other
      → Untouched fd p s (noted q message reason s)
  unfolding send_to_one on_heap
  Untouched-noted other q message reason s n m e =
      Untouched-trans (Untouched-on_client fd p q _ s m)
        (Untouched-close fd p _ reason _ (ground (arith, n, e, fd-send_to_one q message s.heap q)))

  Untouched-disconnect :
      (other q : ℕ) (reason : Text) (s : Server)
      → other == fd ≡ false
      → q == p ≡ false
      → (client s.heap q).fd ≡ other
      → Untouched fd p s (disconnect_after_flush now q reason s)
  unfolding disconnect_after_flush
  Untouched-disconnect other q reason s n m e =
      Untouched-trans (Untouched-noted other q _ reason s n m e) (Untouched-on_client fd p q _ _ m)

  Untouched-check_idle_client :
      (other q : ℕ) (s : Server)
      → other == fd ≡ false
      → q == p ≡ false
      → (client s.heap q).fd ≡ other
      → Untouched fd p s (check_idle_client now other q s)
  Untouched-check_idle_client other q s n m e =
      check_idle_client-branches (Untouched fd p s) now other q s
        (λ reason d l. Untouched-mark fd p other reason s n)
        (λ d l. Untouched-disconnect other q _ s n m e)
        (λ d l.
          Untouched-trans (Untouched-on_client fd p q _ s m) (Untouched-on_client fd p q _ _ m))
        (λ d l. Untouched-refl fd p s)

  -- The entry's own turn.
  abbrev Decided : Server → Server → Type 0
  Decided s t =
      (is_marked t fd ≡ is_marked s fd || overdue now (client s.heap p) (has fd s.closing))
      × (has fd t.closing
          ≡ has fd s.closing || not (has fd s.closing) && expired now (client s.heap p))

  Decided-check_idle_client :
      (s : Server) → (client s.heap p).fd ≡ fd → Decided s (check_idle_client now fd p s)
  Decided-check_idle_client s e =
      check_idle_client-branches (Decided s) now fd p s (λ reason d l. marked_now reason d l)
        (λ d l. closed_now d l)
        (λ d l. (unfold on_heap is_marked in (ground (arith, d), ground (arith, l))))
        (λ d l. (ground (arith, d), ground (arith, l)))
    where
      marked_now :
          (reason : Text)
          → overdue now (client s.heap p) (has fd s.closing) ≡ true
          → not (has fd s.closing) && expired now (client s.heap p) ≡ false
          → Decided s (mark_for_disconnection fd reason s)
      marked_now reason d l =
          unfold mark_for_disconnection is_marked has in
          (ground (arith, d, lookup-insert fd fd reason s.to_disconnected), ground (arith, l))

      closed_now :
          overdue now (client s.heap p) (has fd s.closing) ≡ false
          → not (has fd s.closing) && expired now (client s.heap p) ≡ true
          → Decided s (disconnect_after_flush now p (codes "Ping timeout") s)
      closed_now d l =
          unfold disconnect_after_flush on_heap is_marked in
          (ground (arith, d), has-noted fd p _ (codes "Ping timeout") s e ∙ ground (arith, l))

  -- The turns of the other entries, after it and before it.
  Decided-then : (s t u : Server) → Decided s t → Untouched fd p t u → Decided s u
  Decided-then s t u d n = (n.same_mark ∙ d.0, n.same_closing ∙ d.1)

  Decided-before : (s t u : Server) → Untouched fd p s t → Decided t u → Decided s u
  Decided-before s t u n d = rw (n.same_mark, n.same_client, n.same_closing) at d

  abbrev FdsIn : Map ℕ ℕ → Server → Type 0
  FdsIn m s = Each (λ other q. (client s.heap q).fd ≡ other) m

  FdsIn-check_idle_client :
      (other q : ℕ) (m : Map ℕ ℕ) (s : Server)
      → FdsIn m s
      → FdsIn m (check_idle_client now other q s)
  FdsIn-check_idle_client other q m s =
      Each-map _ _ (λ f r e. fd-check_idle_client now other q s r ∙ e) m

  elsewhere :
      (other q : ℕ) (s : Server)
      → (client s.heap q).fd ≡ other
      → (client s.heap p).fd ≡ fd
      → other == fd ≡ false
      → q == p ≡ false
  elsewhere other q s a b d = ground (arith, a, b, d, ==_iff q p)

  Untouched-check_idle_each :
      (m : Map ℕ ℕ) (s : Server)
      → has fd m ≡ false
      → FdsIn m s
      → (client s.heap p).fd ≡ fd
      → Untouched fd p s (check_idle_each now m s)
  unfolding check_idle_each has lookup
  Untouched-check_idle_each [] s n f e = Untouched-refl fd p s
  Untouched-check_idle_each ((other, q) ∷ rest) s n f e =
      let different : other == fd ≡ false = ground (arith, n) in
      let first =
        Untouched-check_idle_client other q s different (elsewhere other q s f.0 e different) f.0 in
      Untouched-trans first (
        Untouched-check_idle_each rest _ (ground (arith, n))
          (FdsIn-check_idle_client other q rest s f.1) (fd-check_idle_client now other q s p ∙ e))

  own_turn :
      (rest : Map ℕ ℕ) (s : Server)
      → has fd rest ≡ false
      → FdsIn rest s
      → (client s.heap p).fd ≡ fd
      → Decided s (check_idle_each now rest (check_idle_client now fd p s))
  own_turn rest s n f e =
      Decided-then s (check_idle_client now fd p s) _ (Decided-check_idle_client s e) (
        Untouched-check_idle_each rest _ n (FdsIn-check_idle_client fd p rest s f)
          (fd-check_idle_client now fd p s p ∙ e))

  Decided-check_idle_each :
      (m : Map ℕ ℕ) (s : Server)
      → lookup fd m ≡ some p
      → UniqueKeys m
      → FdsIn m s
      → Decided s (check_idle_each now m s)
  unfolding check_idle_each lookup
  Decided-check_idle_each [] s l u f = absurd (cc)
  Decided-check_idle_each ((other, q) ∷ rest) s l u f = elim (Bool-cases (other == fd)) [
    | inl same ↦
        let at_fd : other ≡ fd = ground (arith, same) in
        let at_p : q ≡ p = ground (arith, l, same) in
        subst (λ k. Decided s (check_idle_each now rest (check_idle_client now k q s))) (sym at_fd)
          (subst (λ r. Decided s (check_idle_each now rest (check_idle_client now fd r s)))
            (sym at_p)
            (own_turn rest s (subst (λ k. has k rest ≡ false) at_fd u.0) f.1
              (ap (λ r. (client s.heap r).fd) (sym at_p) ∙ f.0 ∙ at_fd)))
    | inr different ↦
        let l' : lookup fd rest ≡ some p = ground (arith, l, different) in
        let e : (client s.heap p).fd ≡ fd =
          Each-lookup (λ other q. (client s.heap q).fd ≡ other) fd p rest f.1 l' in
        Decided-before s (check_idle_client now other q s) _
          (Untouched-check_idle_client other q s different (elsewhere other q s f.0 e different)
            f.0)
          (Decided-check_idle_each rest (check_idle_client now other q s) l' u.1
            (FdsIn-check_idle_client other q rest s f.1))
  ]

-- If the invariant holds, no descriptor stands twice in the table of connections and a
-- descriptor leads to a client there, then after the idle checks the descriptor is marked just
-- if it was marked, or was closing for more than 5 seconds, or was not closing and its client
-- has not registered within the time for it; and it is closing just if it was, or its client is
-- registered and has been idle for longer than the time for that.
pub check_idle_clients-decides :
    (now fd p : ℕ) (s : Server)
    → Inv s
    → UniqueKeys s.clients
    → lookup fd s.clients ≡ some p
    → let t : Server = check_idle_clients now s in
      (is_marked t fd ≡ is_marked s fd || overdue now (client s.heap p) (has fd s.closing))
      × (has fd t.closing
          ≡ has fd s.closing || not (has fd s.closing) && expired now (client s.heap p))
unfolding check_idle_clients
check_idle_clients-decides now fd p s v u l =
    Decided-check_idle_each now fd p s.clients s l u
      (Each-map _ _ (λ f q e. e.1) s.clients v.clients_in)
