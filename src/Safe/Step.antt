-- ===== src/Safe/Step.antt =====
-- What a step of a round keeps.
-- What is asked of a step of a round: the invariant, the table of connections and their objects.
use ft_irc.Links.Moves.{nowhere}
use ft_irc.Server.{on_heap, Server}
use ft_irc.Heap.{channel, on_client}
use ft_irc.Map.{Map, has, text_key, nat_key}
use ft_irc.Client.{Client}
use ft_irc.Heap.Quiet.{IsLiveClient}
use ft_irc.Server.Keeps.{Mostly}
use ft_irc.Server.People.{persona, KeepsPerson-same}
use ft_irc.Server.Vacant.{IsVacant}
use ft_irc.Server.Inv.{Inv-shell, Inv-on_client, Inv}
use ft_irc.Server.Disconnect.{mark_for_disconnection}
use ft_irc.Base.{if_both, Text, ℕ, ◌≡◌, refl, ◌∙◌}
use ft_irc.Links.Private.{SameHandles-on_client, KeepsLinks}

pub record Round (s s' : Server) : Type 0 where
  pub inv : Inv s'
  pub same_clients : s'.clients ≡ s.clients
  pub still_live : (p : ℕ) → IsLiveClient s.heap p → IsLiveClient s'.heap p
  pub no_vacancy : (x : ℕ) → IsVacant s'.heap x → IsVacant s.heap x

pub Round-refl : (s : Server) → Inv s → Round s s
Round-refl s v = record {
  inv = v;
  same_clients = refl;
  still_live = λ p l. l;
  no_vacancy = λ x w. w;
}

pub Round-and : {s t u : Server} → Round s t → (Inv t → Round t u) → Round s u
Round-and a f =
    let b = f a.inv in
    record {
      inv = b.inv;
      same_clients = b.same_clients ∙ a.same_clients;
      still_live = λ p l. b.still_live p (a.still_live p l);
      no_vacancy = λ x w. a.no_vacancy x (b.no_vacancy x w);
    }

pub Round-of-Keeps : {G : ℕ → Type 0} {s s' : Server} → Mostly nowhere G s s' → Round s s'
Round-of-Keeps k = record {
  inv = k.inv;
  same_clients = k.same_clients;
  still_live = k.still_live;
  no_vacancy = λ x. k.no_vacancy x refl;
}

-- A change of a client that no link rests on, nor who it is.
pub record KeepsSelf (f : Client → Client) : Type 0 where
  pub links : KeepsLinks f
  pub same_persona : (c : Client) → persona (f c) ≡ persona c

pub Round-on_client :
    (p : ℕ) (f : Client → Client) (s : Server)
    → KeepsSelf f
    → Inv s
    → Round s (on_heap (on_client p f) s)
Round-on_client p f s k v = record {
  inv = Inv-on_client s p f k.links (KeepsPerson-same p f s.heap k.same_persona v.people) v;
  same_clients = unfold on_heap in refl;
  still_live = λ q. unfold on_heap in (SameHandles-on_client p f s.heap k.links).live_client q;
  no_vacancy = unfold on_heap on_client channel in λ x w. w;
}

pub Round-marked :
    (s : Server) (marked : Map ℕ Text) → Inv s → Round s (record s { to_disconnected = marked })
Round-marked s marked v = record {
  inv = Inv-shell s s.poll_fds marked s.closing v;
  same_clients = refl;
  still_live = λ p l. l;
  no_vacancy = λ x w. w;
}

pub Round-mark :
    (fd : ℕ) (reason : Text) (s : Server) → Inv s → Round s (mark_for_disconnection fd reason s)
unfolding mark_for_disconnection
Round-mark fd reason s v =
    if_both (Round s) (has fd s.to_disconnected) _ _ (λ e. Round-refl s v) (λ e. Round-marked s _ v)
