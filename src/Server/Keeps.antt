-- ===== src/Server/Keeps.antt =====
-- What is asked of a command: the invariant, the table of connections, each client's object and
-- the bytes that it has sent, and which channels are without members.
use ft_irc.Server.Vacant.{IsVacant}
use ft_irc.Server.{Server}
use ft_irc.Heap.{client}
use ft_irc.Map.{text_key, nat_key}
use ft_irc.Heap.Quiet.{IsLiveClient}
use ft_irc.Server.Inv.{Inv}
use ft_irc.Base.{ℕ, ◌≡◌, refl, ◌∙◌, inl, inr, true, Bool-cases, Bool, false, ◌⊎◌}
use ft_irc.Links.Moves.{nowhere}

abbrev pub is_trusted : Server → ℕ → Bool
is_trusted s p = (client s.heap p).is_password_verified

abbrev pub Nobody : ℕ → Type 0
Nobody p = ⊥

-- But for the channels in `L`, none is without members that was not so before; and but for the
-- clients in `G`, none has given the password that had not before.
pub record Mostly (L : ℕ → Bool) (G : ℕ → Type 0) (s s' : Server) : Type 0 where
  pub inv : Inv s'
  pub same_clients : s'.clients ≡ s.clients
  pub still_live : (p : ℕ) → IsLiveClient s.heap p → IsLiveClient s'.heap p
  pub same_buffer :
      (p : ℕ)
      → IsLiveClient s.heap p
      → (client s'.heap p).read_buffer ≡ (client s.heap p).read_buffer
  pub same_fd : (p : ℕ) → IsLiveClient s.heap p → (client s'.heap p).fd ≡ (client s.heap p).fd
  pub trusted :
      (p : ℕ) → IsLiveClient s.heap p → is_trusted s' p ≡ true → (is_trusted s p ≡ true) ⊎ G p
  pub no_vacancy : (x : ℕ) → L x ≡ false → IsVacant s'.heap x → IsVacant s.heap x

abbrev pub Keeps : Server → Server → Type 0
Keeps = Mostly nowhere Nobody

pub Keeps-refl : (s : Server) → Inv s → Keeps s s
Keeps-refl s v = record {
  inv = v;
  same_clients = refl;
  still_live = λ p l. l;
  same_buffer = λ p l. refl;
  same_fd = λ p l. refl;
  trusted = λ p l e. inl e;
  no_vacancy = λ x n v. v;
}

pub Mostly-of-Keeps : {L : ℕ → Bool} {G : ℕ → Type 0} {s t : Server} → Keeps s t → Mostly L G s t
Mostly-of-Keeps k = record {
  inv = k.inv;
  same_clients = k.same_clients;
  still_live = k.still_live;
  same_buffer = k.same_buffer;
  same_fd = k.same_fd;
  trusted = λ p l e. elim (k.trusted p l e) [ inl t ↦ inl t | inr g ↦ absurd g ];
  no_vacancy = λ x n. k.no_vacancy x refl;
}

pub Mostly-allow :
    {L : ℕ → Bool} {G H : ℕ → Type 0} {s t : Server}
    → ((p : ℕ) → G p → H p)
    → Mostly L G s t
    → Mostly L H s t
Mostly-allow allow m = record {
  inv = m.inv;
  same_clients = m.same_clients;
  still_live = m.still_live;
  same_buffer = m.same_buffer;
  same_fd = m.same_fd;
  trusted = λ p l e. elim (m.trusted p l e) [ inl t ↦ inl t | inr g ↦ inr (allow p g) ];
  no_vacancy = m.no_vacancy;
}

-- No channel has become vacant after all.
pub Keeps-instead :
    {L : ℕ → Bool} {s t : Server}
    → Mostly L Nobody s t
    → ((x : ℕ) → IsVacant t.heap x → IsVacant s.heap x)
    → Keeps s t
Keeps-instead m before = record {
  inv = m.inv;
  same_clients = m.same_clients;
  still_live = m.still_live;
  same_buffer = m.same_buffer;
  same_fd = m.same_fd;
  trusted = m.trusted;
  no_vacancy = λ x n. before x;
}

-- What may have lost its members has some, or is gone.
pub Keeps-refilled :
    {L : ℕ → Bool} {s t : Server}
    → Mostly L Nobody s t
    → ((x : ℕ) → L x ≡ true → ¬ IsVacant t.heap x)
    → Keeps s t
Keeps-refilled {L = L} m full = Keeps-instead m (λ x v. elim (Bool-cases (L x)) [
  | inl here ↦ absurd (full x here v)
  | inr other ↦ m.no_vacancy x other v
])

pub Keeps-trans :
    {L : ℕ → Bool} {G : ℕ → Type 0} {s t u : Server}
    → Mostly L G s t
    → Mostly L G t u
    → Mostly L G s u
Keeps-trans a b = record {
  inv = b.inv;
  same_clients = b.same_clients ∙ a.same_clients;
  still_live = λ p l. b.still_live p (a.still_live p l);
  same_buffer = λ p l. b.same_buffer p (a.still_live p l) ∙ a.same_buffer p l;
  same_fd = λ p l. b.same_fd p (a.still_live p l) ∙ a.same_fd p l;
  trusted =
      λ p l e. elim (b.trusted p (a.still_live p l) e) [ inl t ↦ a.trusted p l t | inr g ↦ inr g ];
  no_vacancy = λ x n v. a.no_vacancy x n (b.no_vacancy x n v);
}

-- One thing after another.
pub Keeps-and :
    {L : ℕ → Bool} {G : ℕ → Type 0} {s t u : Server}
    → Mostly L G s t
    → (Inv t → Mostly L G t u)
    → Mostly L G s u
Keeps-and a f = Keeps-trans a (f a.inv)
