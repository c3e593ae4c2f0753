-- ===== src/Server/Found.antt =====
-- The invariant through `deleteChannel` and `findOrCreateChannel`.
use ft_irc.Commands.Rooms.{is_valid_channel_name}
use ft_irc.Reply.{to_lower}
use ft_irc.Server.{
  on_heap, find_channel, alloc_channel, free_channel, find_or_create_channel, clear_invited,
  clear_invited_users, delete_channel, Server,
}
use ft_irc.Heap.{client, channel}
use ft_irc.Map.{lookup, values, text_key, nat_key}
use ft_irc.Map.Each.{Each-lookup}
use ft_irc.Channel.{new_channel, is_channel_empty}
use ft_irc.Heap.Quiet.{IsLiveChannel}
use ft_irc.Reply.CaseMap.{to_lower_idem}
use ft_irc.Server.Deletion.{SameObjects-clear_invited, IsVacant-deleted, Inv-deleted}
use ft_irc.Server.Keeps.{Keeps, Keeps-refl, Mostly-of-Keeps, Mostly, Nobody}
use ft_irc.Server.Inv.{ChannelEntry, Inv}
use ft_irc.Server.Rooms.{channel-created, live-created, IsVacant-created, Inv-created}
use ft_irc.Base.{Option-cases, Text, ℕ, ◌≡◌, refl, ap, ◌⊎◌, inl, inr, true, some, sym, ◌∙◌}
use ft_irc.Links.Objects.{IsLiveClient-same, identity-same, Identity, SameObjects}
use ft_irc.Links.Moves.{only}

pub Keeps-delete_channel :
    (name : Text) (s : Server)
    → Inv s
    → ((ch : ℕ) → find_channel s name ≡ some ch → is_channel_empty (channel s.heap ch) ≡ true)
    → Keeps s (delete_channel name s)
unfolding delete_channel find_channel
Keeps-delete_channel name s v empty = elim (Option-cases (lookup (to_lower name) s.channels)) [
  | inl e ↦ rw (e, delete_channel) (Keeps-refl s v)
  | inr (ch, e) ↦
      rw (e, delete_channel)
        (unfold clear_invited_users on_heap in
          record {
            inv = Inv-deleted (to_lower name) ch s v e (empty ch e);
            same_clients = refl;
            still_live = λ p l. unfold free_channel in IsLiveClient-same _ _ (same ch) p l;
            same_buffer = λ p l.
                unfold free_channel client in
                ap (λ (i : Identity). i.read_buffer) (identity-same _ _ (same ch) p);
            same_fd = λ p l.
                unfold free_channel client in
                ap (λ (i : Identity). i.fd) (identity-same _ _ (same ch) p);
            trusted = λ p l.
                unfold free_channel client in
                λ e. inl (
                  sym
                    (ap (λ (i : Identity). i.is_password_verified) (identity-same _ _ (same ch) p))
                  ∙ e);
            no_vacancy = λ x n w. (IsVacant-deleted (to_lower name) ch s v e (empty ch e) x w).0;
          })
]
  where
    same : (ch : ℕ) → SameObjects s.heap (clear_invited ch (values s.clients) s.heap)
    same ch = SameObjects-clear_invited ch (values s.clients) s.heap

-- The channel is an old one, or new and without members.
pub record Found (name : Text) (s s' : Server) (ch : ℕ) : Type 0 where
  pub mostly : Mostly (only ch) Nobody s s'
  pub there : IsLiveChannel s'.heap ch
  pub still_registered :
      (p : ℕ) → (client s.heap p).is_registered ≡ true → (client s'.heap p).is_registered ≡ true
  pub old_or_new : Keeps s s' ⊎ (channel s'.heap ch ≡ new_channel name)

pub Found-find_or_create :
    (name : Text) (s : Server)
    → Inv s
    → is_valid_channel_name name ≡ true
    → let r : ℕ × Server = find_or_create_channel name s in Found name s r.1 r.0
unfolding find_or_create_channel find_channel
Found-find_or_create name s v valid =
    elim (Option-cases (lookup (to_lower (to_lower name)) s.channels)) [
      | inr (ch, e) ↦
          rw (e, find_or_create_channel, find_channel)
            (record {
              mostly = Mostly-of-Keeps (Keeps-refl s v);
              there =
                  (Each-lookup (ChannelEntry s.heap) (to_lower (to_lower name)) ch s.channels
                    v.channels_in e).0;
              still_registered = λ p r. r;
              old_or_new = inl (Keeps-refl s v);
            })
      | inl e ↦
          let missing = rw to_lower_idem at e in
          rw (e, find_or_create_channel, find_channel)
            (record {
              mostly = record {
                inv = Inv-created name s v missing valid;
                same_clients = refl;
                still_live = unfold alloc_channel in λ p l. l;
                same_buffer = unfold alloc_channel client in λ p l. refl;
                same_fd = unfold alloc_channel client in λ p l. refl;
                trusted = unfold alloc_channel client in λ p l e. inl e;
                no_vacancy = λ x n w. IsVacant-created name s v missing x n w;
              };
              there = live-created name s v missing;
              still_registered = unfold alloc_channel client in λ p r. r;
              old_or_new = inr (channel-created name s v missing);
            })
    ]
