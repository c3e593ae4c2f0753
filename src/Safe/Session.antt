-- ===== src/Safe/Session.antt =====
-- The invariant through the commands of Commands/Session.antt.
use ft_irc.Client.Registration.{
  nickname-try_complete_registration, verified-try_complete_registration,
  username-try_complete_registration, registered-try_complete_registration,
}
use ft_irc.Server.Changes.{Keeps-Moves, Keeps-say, Keeps-on_client, Keeps-disconnect_after_flush}
use ft_irc.Reply.{to_lower}
use ft_irc.Map.{values, text_key, nat_key}
use ft_irc.Map.Each.{contains-values}
use ft_irc.Server.People.{Credentials, KeepsPerson-same, KeepsPerson-named, KeepsPerson}
use ft_irc.Parse.Message.{Message}
use ft_irc.Heap.Quiet.{quiet-broadcast_nick_change, IsLiveClient}
use ft_irc.Server.Disconnect.{disconnect_client}
use ft_irc.Links.Moves.{one, silent, nowhere}
use ft_irc.Server.{on_heap, Server, is_nickname_taken, nickname_taken_by, check_password}
use ft_irc.Heap.{on_client, client, broadcast_nick_change, Heap}
use ft_irc.Commands.Session.{
  nick, pass, ping, pong, quit, user, complete, first_param, is_valid_nickname, set_nickname,
  has_at, user_with, user_params,
}
use ft_irc.Client.{
  send_reply, try_complete_registration, Client, update_last_activity, is_missing_password,
}
use ft_irc.Server.Keeps.{Keeps-refl, Keeps-and, Keeps, is_trusted, Mostly}
use ft_irc.Server.Inv.{Inv}
use ft_irc.Base.{
  if_both, ℕ, ◌≡◌, arith, not, is_empty, Text, text_eq, refl, ◌||◌, List, [], ◌∷◌, contains,
  text_eq_iff, true, false, not-false, sym, ◌∙◌, ◌⊎◌, inl, text_eq→eq, inr,
}

Credentials-try_complete_registration :
    (c : Client) → Credentials c → Credentials (try_complete_registration c)
unfolding try_complete_registration send_reply
Credentials-try_complete_registration c k r =
    (ground (arith, k, r), ground (arith, k, r), ground (arith, k, r))

Keeps-try_complete_registration :
    {G : ℕ → Type 0} (s : Server) (c : ℕ)
    → Inv s
    → Mostly nowhere G s (on_heap (on_client c try_complete_registration) s)
Keeps-try_complete_registration s c v =
    Keeps-on_client s c try_complete_registration v
      (record {
        same_joined = λ x. unfold try_complete_registration send_reply in ground arith;
        same_invited = λ x. unfold try_complete_registration send_reply in ground arith;
        same_fd = λ x. unfold try_complete_registration send_reply in ground arith;
      })
      (λ x. unfold try_complete_registration send_reply in ground arith)
      (λ e. inl (sym (verified-try_complete_registration (client s.heap c)) ∙ e))
      (KeepsPerson-named c _ s.heap (Credentials-try_complete_registration _)
        (registered-try_complete_registration _)
        (rw (username-try_complete_registration (client s.heap c)) (v.people.well_named c).1)
        (nickname-try_complete_registration _) v.people)

-- A setter of a field that no link and no buffer rests on.
Keeps-set :
    {G : ℕ → Type 0} (s : Server) (c : ℕ) (f : Client → Client)
    → Inv s
    → ((x : Client) → (f x).joined_channels ≡ x.joined_channels)
    → ((x : Client) → (f x).invited_channels ≡ x.invited_channels)
    → ((x : Client) → (f x).fd ≡ x.fd)
    → ((x : Client) → (f x).read_buffer ≡ x.read_buffer)
    → ((f (client s.heap c)).is_password_verified ≡ true → (is_trusted s c ≡ true) ⊎ G c)
    → (IsLiveClient s.heap c → KeepsPerson c f s.heap)
    → Mostly nowhere G s (on_heap (on_client c f) s)
Keeps-set s c f v j i d b =
    Keeps-on_client s c f v (record { same_joined = j; same_invited = i; same_fd = d }) b

-- Who is not registered has no credentials to keep.
KeepsPerson-stranger :
    (s : Server) (c : ℕ) (f : Client → Client)
    → Inv s
    → (client s.heap c).is_registered ≡ false
    → ((x : Client) → (f x).is_registered ≡ x.is_registered)
    → ((x : Client) → (f x).nickname ≡ x.nickname)
    → has_at (f (client s.heap c)).username ≡ false
    → IsLiveClient s.heap c
    → KeepsPerson c f s.heap
KeepsPerson-stranger s c f v n r same at =
    KeepsPerson-named c f s.heap (λ k y. absurd (ground (arith, n, r (client s.heap c), y)))
      (λ y. absurd (ground (arith, n, y))) at (same _) v.people

-- What `isNicknameTaken` denies: another client of the table with the nickname.
not_taken :
    (h : Heap) (nick : Text) (self : ℕ) (ps : List ℕ) (q : ℕ)
    → nickname_taken_by h nick self ps ≡ false
    → contains ps q ≡ true
    → nick ≡ to_lower (client h q).nickname
    → self ≡ q
unfolding nickname_taken_by contains
not_taken h nick self [] q n m e = absurd (cc)
not_taken h nick self (p ∷ ps) q n m e =
    ground (arith, not_taken h nick self ps q, text_eq_iff (to_lower (client h p).nickname) nick)

KeepsPerson-nick :
    (s : Server) (c : ℕ) (nickname : Text)
    → Inv s
    → is_empty nickname ≡ false
    → is_valid_nickname nickname ≡ true
    → is_nickname_taken s nickname c ≡ false
    → KeepsPerson c (set_nickname nickname) s.heap
unfolding is_nickname_taken
KeepsPerson-nick s c nickname v given valid free = record {
  keeps_credentials = λ k r. ((k r).0, given, (k r).2);
  keeps_registered = λ r. r;
  keeps_names = λ w. (ground (arith, valid), w.1);
  own_nickname = λ q live n e.
      not_taken s.heap (to_lower nickname) c (values s.clients) q free
        (contains-values _ q s.clients (v.clients_listed q live)) e;
}

Keeps-complete : (now c : ℕ) (s : Server) → Inv s → Keeps s (complete now c s)
unfolding complete disconnect_client
Keeps-complete now c s v = Keeps-and (Keeps-try_complete_registration s c v) λ a.
    if_both (Keeps _)
      (is_missing_password (client (on_heap (on_client c try_complete_registration) s).heap c)) _ _
      (λ e. Keeps-and (Keeps-say _ c _ a) λ b. Keeps-disconnect_after_flush now c _ _ b)
      (λ e. Keeps-refl _ a)

Keeps-broadcast_nick_change :
    (s : Server) (c : ℕ) (notice : Text)
    → Inv s
    → Keeps s (on_heap (broadcast_nick_change c notice) s)
Keeps-broadcast_nick_change s c notice v =
    Keeps-Moves s _ v (one (silent _ (quiet-broadcast_nick_change c notice s.heap)))

pub Keeps-nick : (now c : ℕ) (msg : Message) (s : Server) → Inv s → Keeps s (nick now c msg s)
unfolding nick
Keeps-nick now c msg s v =
    if_both (Keeps s) (is_empty msg.parameter || is_empty (first_param msg.parameter)) _ _
      (λ e. Keeps-say s c _ v)
      (λ given.
        if_both (Keeps s) (not (is_valid_nickname (first_param msg.parameter))) _ _
          (λ e. Keeps-say s c _ v)
          (λ valid.
            if_both (Keeps s) (is_nickname_taken s (first_param msg.parameter) c) _ _
              (λ e. Keeps-say s c _ v)
              (λ free.
                Keeps-and
                  (Keeps-set s c (set_nickname (first_param msg.parameter)) v (λ x. refl)
                    (λ x. refl) (λ x. refl) (λ x. refl) (λ e. inl e)
                    (λ l.
                      KeepsPerson-nick s c _ v (ground (arith, given)) (not-false _ valid) free))
                  λ a.
                    if_both (Keeps _) (client s.heap c).is_registered _ _
                      (λ e.
                        if_both (Keeps _)
                          (text_eq (client s.heap c).nickname (first_param msg.parameter)) _ _
                          (λ e. Keeps-refl _ a) (λ e. Keeps-broadcast_nick_change _ c _ a))
                      (λ e. Keeps-complete now c _ a))))

-- The client that gives the password.
abbrev pub Opens : ℕ → Message → Server → ℕ → Type 0
Opens c msg s p = (c ≡ p) × (first_param msg.parameter ≡ s.password)

pub Keeps-pass :
    (c : ℕ) (msg : Message) (s : Server) → Inv s → Mostly nowhere (Opens c msg s) s (pass c msg s)
unfolding pass check_password
Keeps-pass c msg s v =
    if_both (Mostly nowhere (Opens c msg s) s)
      (is_empty msg.parameter || is_empty (first_param msg.parameter)) _ _ (λ e. Keeps-say s c _ v)
      (λ e.
        if_both (Mostly nowhere (Opens c msg s) s) (client s.heap c).is_registered _ _
          (λ e. Keeps-say s c _ v)
          (λ n.
            Keeps-and
              (Keeps-set s c _ v (λ x. refl) (λ x. refl) (λ x. refl) (λ x. refl)
                (λ e. inr (refl, sym (text_eq→eq s.password (first_param msg.parameter) e)))
                (KeepsPerson-stranger s c _ v n (λ x. refl) (λ x. refl) (v.people.well_named c).1))
              λ a. Keeps-try_complete_registration _ c a))

pub Keeps-ping : (c : ℕ) (msg : Message) (s : Server) → Inv s → Keeps s (ping c msg s)
unfolding ping
Keeps-ping c msg s v =
    if_both (Keeps s) (is_empty msg.parameter || is_empty (first_param msg.parameter)) _ _
      (λ e. Keeps-say s c _ v) (λ e. Keeps-say s c _ v)

pub Keeps-pong : (now c : ℕ) (s : Server) → Inv s → Keeps s (pong now c s)
unfolding pong update_last_activity
Keeps-pong now c s v =
    Keeps-set s c _ v (λ x. refl) (λ x. refl) (λ x. refl) (λ x. refl) (λ e. inl e)
      (KeepsPerson-same c _ s.heap (λ x. refl) v.people)

pub Keeps-quit : (now c : ℕ) (msg : Message) (s : Server) → Inv s → Keeps s (quit now c msg s)
unfolding quit disconnect_client
Keeps-quit now c msg s v = Keeps-disconnect_after_flush now c _ s v

Keeps-user_with :
    (now c : ℕ) (username realname : Text) (s : Server)
    → Inv s
    → Keeps s (user_with now c username realname s)
unfolding user_with
Keeps-user_with now c username realname s v =
    if_both (Keeps s) (is_empty username) _ _ (λ e. Keeps-say s c _ v)
      (λ e.
        if_both (Keeps s) (client s.heap c).is_registered _ _ (λ e. Keeps-say s c _ v)
          (λ n.
            if_both (Keeps s) (has_at username) _ _ (λ e. Keeps-say s c _ v)
              (λ e.
                Keeps-and
                  (Keeps-set s c _ v (λ x. refl) (λ x. refl) (λ x. refl) (λ x. refl) (λ e. inl e)
                    (KeepsPerson-stranger s c _ v n (λ x. refl) (λ x. refl) e))
                  λ a. Keeps-complete now c _ a)))

Keeps-user_params :
    (now c : ℕ) (params : List Text) (s : Server) → Inv s → Keeps s (user_params now c params s)
unfolding user_params
Keeps-user_params now c [] s v = Keeps-say s c _ v
Keeps-user_params now c (a ∷ []) s v = Keeps-say s c _ v
Keeps-user_params now c (a ∷ b ∷ []) s v = Keeps-say s c _ v
Keeps-user_params now c (a ∷ b ∷ d ∷ []) s v = Keeps-say s c _ v
Keeps-user_params now c (a ∷ b ∷ d ∷ e ∷ more) s v = Keeps-user_with now c a e s v

pub Keeps-user : (now c : ℕ) (msg : Message) (s : Server) → Inv s → Keeps s (user now c msg s)
unfolding user
Keeps-user now c msg s v = Keeps-user_params now c msg.parameter s v
