-- ===== src/Commands/Alone.antt =====
-- What the commands that need no login, of common/commandlist/, do beside the client itself while
-- it is not registered.
use ft_irc.Client.Registration.{fd-try_complete_registration}
use ft_irc.Server.{on_heap, is_nickname_taken, Server}
use ft_irc.Heap.{client, on_client, send_to_one}
use ft_irc.Map.{lookup, insert, lookup-insert, text_key, nat_key}
use ft_irc.Commands.Session.{
  nick, pass, ping, pong, quit, user, answer, first_param, is_valid_nickname, complete,
  set_nickname, set_user, has_at, user_with, user_params,
}
use ft_irc.Parse.Message.{Message}
use ft_irc.Client.{
  new_client, send_reply, update_last_activity, try_complete_registration, is_missing_password,
  Client,
}
use ft_irc.Server.Disconnect.{disconnect_after_flush, disconnect_client}
use ft_irc.Base.{
  ◌==◌, not, Option-cases, if_both, is_empty, Text, ℕ, ◌≡◌, refl, ◌∙◌, inl, inr, false, ◌||◌, List,
  [], ◌∷◌, arith,
}

-- Only client c itself, and what is noted of its descriptor, may have changed.
pub record IsAlone (c : ℕ) (s t : Server) : Type 0 where
  pub same_rooms : t.heap.channel_at ≡ s.heap.channel_at
  pub same_channels : t.channels ≡ s.channels
  pub same_clients : t.clients ≡ s.clients
  pub same_marked : t.to_disconnected ≡ s.to_disconnected
  pub same_password : t.password ≡ s.password
  pub same_fd : (client t.heap c).fd ≡ (client s.heap c).fd
  pub same_others : (p : ℕ) → c == p ≡ false → t.heap.client_at p ≡ s.heap.client_at p
  pub same_closing :
      (fd : ℕ) → (client s.heap c).fd == fd ≡ false → lookup fd t.closing ≡ lookup fd s.closing

module _ (c : ℕ) where
  IsAlone-trans : {s t u : Server} → IsAlone c s t → IsAlone c t u → IsAlone c s u
  IsAlone-trans a b = record {
    same_rooms = b.same_rooms ∙ a.same_rooms;
    same_channels = b.same_channels ∙ a.same_channels;
    same_clients = b.same_clients ∙ a.same_clients;
    same_marked = b.same_marked ∙ a.same_marked;
    same_password = b.same_password ∙ a.same_password;
    same_fd = b.same_fd ∙ a.same_fd;
    same_others = λ p n. b.same_others p n ∙ a.same_others p n;
    same_closing = λ fd n. b.same_closing fd (rw (a.same_fd) n) ∙ a.same_closing fd n;
  }

  -- A method of the client that keeps its descriptor.
  IsAlone-on_client :
      (f : Client → Client) (s : Server)
      → ((k : Client) → (f k).fd ≡ k.fd)
      → IsAlone c s (on_heap (on_client c f) s)
  unfolding on_heap on_client client new_client
  IsAlone-on_client f s same = record {
    same_rooms = refl;
    same_channels = refl;
    same_clients = refl;
    same_marked = refl;
    same_password = refl;
    same_fd = elim (Option-cases (s.heap.client_at c)) [
      | inl e ↦ ground (arith, e)
      | inr (k, e) ↦ ground (arith, e, same k)
    ];
    same_others = λ p n. ground (arith, n);
    same_closing = λ fd n. refl;
  }

  pub IsAlone-answer : (message : Text) (s : Server) → IsAlone c s (answer c message s)
  unfolding send_to_one send_reply
  IsAlone-answer message s = IsAlone-on_client (send_reply message) s (λ k. refl)

  IsAlone-closing :
      (reason : Text) (s : Server)
      → IsAlone c s (record s { closing = insert (client s.heap c).fd reason s.closing })
  IsAlone-closing reason s = record {
    same_rooms = refl;
    same_channels = refl;
    same_clients = refl;
    same_marked = refl;
    same_password = refl;
    same_fd = refl;
    same_others = λ p n. refl;
    same_closing = λ fd n. rw (lookup-insert (client s.heap c).fd fd reason s.closing, n) refl;
  }

  IsAlone-disconnect :
      (now : ℕ) (reason : Text) (s : Server) → IsAlone c s (disconnect_client now c reason s)
  unfolding disconnect_client disconnect_after_flush
  IsAlone-disconnect now reason s =
      IsAlone-trans (IsAlone-answer _ s)
        (IsAlone-trans (IsAlone-closing reason _) (IsAlone-on_client _ _ (λ k. refl)))

  IsAlone-complete : (now : ℕ) (s : Server) → IsAlone c s (complete now c s)
  unfolding complete
  IsAlone-complete now s =
      let tried = IsAlone-on_client try_complete_registration s fd-try_complete_registration in
      if_both (IsAlone c s)
        (is_missing_password (client (on_heap (on_client c try_complete_registration) s).heap c)) _
        _
        (λ e. IsAlone-trans tried (IsAlone-trans (IsAlone-answer _ _) (IsAlone-disconnect now _ _)))
        (λ e. tried)

  module _ (s : Server) (unregistered : (client s.heap c).is_registered ≡ false) where
    pub IsAlone-nick : (now : ℕ) (msg : Message) → IsAlone c s (nick now c msg s)
    unfolding nick
    IsAlone-nick now msg =
        let named = IsAlone-on_client (set_nickname (first_param msg.parameter)) s (λ k. refl) in
        if_both (IsAlone c s) (is_empty msg.parameter || is_empty (first_param msg.parameter)) _ _
          (λ e. IsAlone-answer _ s)
          (λ e.
            if_both (IsAlone c s) (not (is_valid_nickname (first_param msg.parameter))) _ _
              (λ e. IsAlone-answer _ s)
              (λ e.
                if_both (IsAlone c s) (is_nickname_taken s (first_param msg.parameter) c) _ _
                  (λ e. IsAlone-answer _ s)
                  (λ e. rw unregistered (IsAlone-trans named (IsAlone-complete now _)))))

    pub IsAlone-pass : (msg : Message) → IsAlone c s (pass c msg s)
    unfolding pass
    IsAlone-pass msg =
        if_both (IsAlone c s) (is_empty msg.parameter || is_empty (first_param msg.parameter)) _ _
          (λ e. IsAlone-answer _ s)
          (λ e.
            if_both (IsAlone c s) (client s.heap c).is_registered _ _ (λ e. IsAlone-answer _ s)
              (λ e.
                IsAlone-trans (IsAlone-on_client _ s (λ k. refl))
                  (IsAlone-on_client _ _ fd-try_complete_registration)))

    pub IsAlone-ping : (msg : Message) → IsAlone c s (ping c msg s)
    unfolding ping
    IsAlone-ping msg =
        if_both (IsAlone c s) (is_empty msg.parameter || is_empty (first_param msg.parameter)) _ _
          (λ e. IsAlone-answer _ s) (λ e. IsAlone-answer _ s)

    pub IsAlone-pong : (now : ℕ) → IsAlone c s (pong now c s)
    unfolding pong update_last_activity
    IsAlone-pong now = IsAlone-on_client _ s (λ k. refl)

    pub IsAlone-quit : (now : ℕ) (msg : Message) → IsAlone c s (quit now c msg s)
    unfolding quit
    IsAlone-quit now msg = IsAlone-disconnect now _ s

    IsAlone-user_with :
        (now : ℕ) (username realname : Text) → IsAlone c s (user_with now c username realname s)
    unfolding user_with
    IsAlone-user_with now username realname =
        if_both (IsAlone c s) (is_empty username) _ _ (λ e. IsAlone-answer _ s)
          (λ e.
            if_both (IsAlone c s) (client s.heap c).is_registered _ _ (λ e. IsAlone-answer _ s)
              (λ e.
                if_both (IsAlone c s) (has_at username) _ _ (λ e. IsAlone-answer _ s)
                  (λ e.
                    IsAlone-trans (IsAlone-on_client (set_user username realname) s (λ k. refl))
                      (IsAlone-complete now _))))

    IsAlone-user_params : (now : ℕ) (params : List Text) → IsAlone c s (user_params now c params s)
    unfolding user_params
    IsAlone-user_params now [] = IsAlone-answer _ s
    IsAlone-user_params now (a ∷ []) = IsAlone-answer _ s
    IsAlone-user_params now (a ∷ b ∷ []) = IsAlone-answer _ s
    IsAlone-user_params now (a ∷ b ∷ d ∷ []) = IsAlone-answer _ s
    IsAlone-user_params now (username ∷ mode ∷ unused ∷ realname ∷ more) =
        IsAlone-user_with now username realname

    pub IsAlone-user : (now : ℕ) (msg : Message) → IsAlone c s (user now c msg s)
    unfolding user
    IsAlone-user now msg = IsAlone-user_params now msg.parameter
