-- ===== src/Safe/Renaming.antt =====
-- What common/commandlist/Nick.cpp changes, and whom it tells.
use ft_irc.Safe.Quiet.{name_at, Quiet-answer, Quiet-complete}
use ft_irc.Heap.Broadcast.{shares_channel, is_in_some-same, broadcast_nick_change-delivery}
use ft_irc.Heap.Live.{live-on_client}
use ft_irc.Map.{values}
use ft_irc.Server.{on_heap, is_nickname_taken, Server}
use ft_irc.Heap.{client, on_client, broadcast_nick_change}
use ft_irc.Commands.Session.{
  nick, answer, first_param, is_valid_nickname, complete, set_nickname, nick_notice,
}
use ft_irc.Parse.Message.{Message}
use ft_irc.Client.{Client, wire}
use ft_irc.Heap.Silent.{client-silent}
use ft_irc.Heap.Delivery.{sent_to}
use ft_irc.Heap.Quiet.{
  IsLiveClient, client-on_client, quiet-broadcast_nick_change, channel-on_client,
}
use ft_irc.Base.{
  ◌==◌, not, is_empty, Text, ℕ, ◌≡◌, ap, ◌∙◌, Bool, false, ◌&&◌, ◌||◌, arith, if◌then◌else◌,
  if_both, refl, text_eq, eq_self, ◌++◌,
}

-- Whether the nickname is one that the client may take.
abbrev pub may_rename : Server → ℕ → Message → Bool
may_rename s c msg =
    not (is_empty msg.parameter || is_empty (first_param msg.parameter))
    && is_valid_nickname (first_param msg.parameter)
    && not (is_nickname_taken s (first_param msg.parameter) c)

-- The line that tells of the change.
abbrev pub rename_notice : ℕ → Message → Server → Text
rename_notice c msg s =
    nick_notice (client s.heap c).nickname (first_param msg.parameter) (client s.heap c).username
      (client s.heap c).ip

module _ (now c : ℕ) (msg : Message) (s : Server) (l : IsLiveClient s.heap c) where
  abbrev named : Server
  named = on_heap (on_client c (set_nickname (first_param msg.parameter))) s

  name_at-named :
      (p : ℕ) → name_at named p ≡ (if c == p then first_param msg.parameter else name_at s p)
  unfolding on_heap
  name_at-named p =
      ground (arith, client-on_client c (set_nickname (first_param msg.parameter)) s.heap p l)

  -- What is left of `Nick::execute` once the nickname is set.
  abbrev renamed : Server
  renamed =
      if (client s.heap c).is_registered
      then if text_eq (client s.heap c).nickname (first_param msg.parameter)
        then named
        else on_heap (broadcast_nick_change c (rename_notice c msg s)) named
      else complete now c named

  name_at-renamed : (p : ℕ) → name_at renamed p ≡ name_at named p
  unfolding on_heap
  name_at-renamed p =
      if_both (λ (t : Server). name_at t p ≡ name_at named p) (client s.heap c).is_registered _ _
        (λ r.
          if_both (λ (t : Server). name_at t p ≡ name_at named p)
            (text_eq (client s.heap c).nickname (first_param msg.parameter)) _ _ (λ e. refl)
            (λ e.
              ap (λ (k : Client). k.nickname)
                (client-silent named.heap _ (quiet-broadcast_nick_change c _ named.heap) p)))
        (λ r. (Quiet-complete now c named).same_name p)

  -- A client that may not take the nickname is answered, and that is all.
  name_at-refused :
      (message : Text) (p : ℕ)
      → may_rename s c msg ≡ false
      → name_at (answer c message s) p
        ≡ (if c == p && may_rename s c msg then first_param msg.parameter else name_at s p)
  name_at-refused message p n = ground (arith, n, (Quiet-answer c message s).same_name p)

  -- If the client is there, NICK leaves every nickname as it is, but for the client's own, which
  -- becomes the given one if that is not empty, valid and not another connection's.
  pub nick-renames :
      (p : ℕ)
      → name_at (nick now c msg s) p
        ≡ (if c == p && may_rename s c msg then first_param msg.parameter else name_at s p)
  unfolding nick
  nick-renames p =
      if_both Named (is_empty msg.parameter || is_empty (first_param msg.parameter)) _ _
        (λ e. name_at-refused _ p (ground (arith, e)))
        (λ given.
          if_both Named (not (is_valid_nickname (first_param msg.parameter))) _ _
            (λ e. name_at-refused _ p (ground (arith, e)))
            (λ valid.
              if_both Named (is_nickname_taken s (first_param msg.parameter) c) _ _
                (λ e. name_at-refused _ p (ground (arith, e)))
                (λ free. name_at-renamed p ∙ ground (arith, given, valid, free, name_at-named p))))
    where
      Named : Server → Type 0
      Named t =
          name_at t p
          ≡ (if c == p && may_rename s c msg then first_param msg.parameter else name_at s p)

  module _ (p : ℕ) (other : c == p ≡ false) (lp : IsLiveClient s.heap p) where
    abbrev pub Told : Bool → Server → Type 0
    Told told t =
        sent_to t.heap p
        ≡ (if told then sent_to s.heap p ++ wire (rename_notice c msg s) else sent_to s.heap p)

    sent-named : sent_to named.heap p ≡ sent_to s.heap p
    unfolding on_heap on_client client
    sent-named = ground (arith, other)

    live-named : IsLiveClient named.heap p
    unfolding on_heap
    live-named = live-on_client c _ s.heap p lp

    shares-named : shares_channel named.heap c p ≡ shares_channel s.heap c p
    unfolding on_heap
    shares-named =
        rw (client-on_client c (set_nickname (first_param msg.parameter)) s.heap c l, eq_self c)
          (is_in_some-same s.heap _ (channel-on_client c _ s.heap)
            (values (client s.heap c).joined_channels) p)

    sent-renamed :
        Told
          ((client s.heap c).is_registered
            && not (text_eq (client s.heap c).nickname (first_param msg.parameter))
            && shares_channel s.heap c p)
          renamed
    unfolding on_heap
    sent-renamed =
        if_both (Told told) (client s.heap c).is_registered _ _
          (λ r.
            if_both (Told told) (text_eq (client s.heap c).nickname (first_param msg.parameter)) _ _
              (λ e. ground (arith, r, e, sent-named))
              (λ e.
                broadcast_nick_change-delivery c (rename_notice c msg s) named.heap p live-named
                ∙ ground (arith, r, e, other, shares-named, sent-named)))
          (λ r. (Quiet-complete now c named).same_sent p other ∙ ground (arith, r, sent-named))
      where
        told : Bool
        told =
            (client s.heap c).is_registered
            && not (text_eq (client s.heap c).nickname (first_param msg.parameter))
            && shares_channel s.heap c p

    sent-refused : (message : Text) (told : Bool) → told ≡ false → Told told (answer c message s)
    sent-refused message told n = ground (arith, n, (Quiet-answer c message s).same_sent p other)

    -- If the client and another one are there, NICK appends the notice of the change once to the
    -- other's write buffer if the nickname may be taken, the client is registered, the nickname
    -- is a new one and they share a channel by the client's table, and appends nothing to it
    -- otherwise.
    pub nick-tells :
        Told
          (may_rename s c msg
            && (client s.heap c).is_registered
            && not (text_eq (client s.heap c).nickname (first_param msg.parameter))
            && shares_channel s.heap c p)
          (nick now c msg s)
    unfolding nick
    nick-tells =
        if_both (Told told) (is_empty msg.parameter || is_empty (first_param msg.parameter)) _ _
          (λ e. sent-refused _ told (ground (arith, e)))
          (λ given.
            if_both (Told told) (not (is_valid_nickname (first_param msg.parameter))) _ _
              (λ e. sent-refused _ told (ground (arith, e)))
              (λ valid.
                if_both (Told told) (is_nickname_taken s (first_param msg.parameter) c) _ _
                  (λ e. sent-refused _ told (ground (arith, e)))
                  (λ free. sent-renamed ∙ ground (arith, given, valid, free))))
      where
        told : Bool
        told =
            may_rename s c msg
            && (client s.heap c).is_registered
            && not (text_eq (client s.heap c).nickname (first_param msg.parameter))
            && shares_channel s.heap c p
